-- ===== src/Ramus/Bps/Workflow.antt =====
-- ramus/patch/bps-ignore-size.hpp: the calls in the order in which MercurialMagic/export.cpp
-- makes them, `modify`, `source`, `target`, `apply`.
use mercurial_magic.Prelude.{
  ℕ, ◌≡◌, refl, List, [], ◌++◌, length, drop, true, max, Run, ok, ◌>>=◌, replicate,
  length-replicate,
}
use mercurial_magic.Ramus.Bps.{Crc32, BpsPatch, Result, success}
use mercurial_magic.Ramus.Bps.Object.{
  c_string, little_endian, modify, source, target, target_file, apply,
}
use mercurial_magic.Ramus.Bps.Number.{input_all}
use mercurial_magic.Ramus.Bps.Modify.{modify-encode_patch}
use mercurial_magic.Ramus.Bps.Apply.{patched, apply-encode_patch}
use mercurial_magic.Ramus.Bps.Format.{Patch, Patches, encode_body, encode_patch, perform_all}

-- The object before `apply`: the patch is read, the source is set, the target holds zeros.
abbrev ready : Patch → List ℕ → List ℕ → BpsPatch → BpsPatch
ready x own bytes p = record p {
  modify_data = encode_patch x own;
  source_data = bytes;
  target_data = replicate (max (length bytes) x.target_size) 0;
  modify_source_size = x.source_size;
  modify_target_size = max (length bytes) x.target_size;
  modify_markup_size = length x.markup;
  metadata_string = c_string x.markup;
}

module _ {S : Type 0} (crc : Crc32 S) where
  -- A patch object is given a patch and a source, creates its target file, and is applied.
  abbrev pub patch_file : BpsPatch → List ℕ → List ℕ → Run (Result × BpsPatch)
  patch_file p patch bytes =
      modify p patch >>= λ r. apply crc (target_file (source r.1 bytes) true true).1

  -- A patch in the format, whose actions make exactly `target_size` bytes out of a source that is at
  -- least as long as the patch asks for, and whose last four bytes are the checksum of the others,
  -- is applied with success to the target file that the object creates: the target is the actions'
  -- output, followed by what a longer source has beyond that. The patch has fewer than 2^32 - 10
  -- bytes, source and target fewer than 2^30, and every action copies at least a byte, of bytes
  -- that are there.
  pub patch_file-encode_patch :
      (x : Patch) (own bytes : List ℕ) (p : BpsPatch)
      → Patches x bytes own
      → crc.value (input_all crc crc.init (encode_body x)) ≡ little_endian own
      → (p' : BpsPatch) × (patch_file p (encode_patch x own) bytes ≡ ok (success, p'))
        × (p'.target_data
            ≡ perform_all bytes [] x.actions
              ++ drop (length (perform_all bytes [] x.actions)) bytes)
  unfolding source target_file target
  patch_file-encode_patch x own bytes p h sum = (
    patched x (ready x own bytes p),
    rw (modify-encode_patch x own h p) (
        apply-encode_patch crc x own (ready x own bytes p) h refl sum refl
          (length-replicate (max (length bytes) x.target_size) 0)),
    refl,
  )
