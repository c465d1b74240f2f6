-- ===== src/Ramus/Bps/Object.antt =====
-- The public functions of bpspatch_ignore_size (ramus/patch/bps-ignore-size.hpp).
use mercurial_magic.Prelude.{
  ℕ, ◌+◌, ◌-◌, ◌*◌, max, Bool, true, false, not, Option, none, some, List, [], ◌∷◌, length, ltb,
  ◌==◌, replicate, if◌then◌else◌, u32, Run, ok, ◌>>=◌,
}
use mercurial_magic.Ramus.Memory.{copy}
use mercurial_magic.Ramus.Bps.{
  Crc32, no_crc, Result, patch_too_small, patch_invalid_header, source_too_small, target_too_small,
  patch_checksum_invalid, success, BpsPatch, Cursor, State, read, read_bytes, read_sizes,
  action_loop,
}

-- `x |= read() << n` over four bytes, and the C string in a buffer.
abbrev pub little_endian : List ℕ → ℕ
little_endian [] = 0
little_endian (b ∷ bs) = b + 256 * little_endian bs

unfoldable pub c_string : List ℕ → List ℕ
c_string [] = []
c_string (b ∷ bs) = if b == 0 then [] else b ∷ c_string bs

-- A refused patch leaves the object as it was.
unfoldable pub modify : BpsPatch → List ℕ → Run (Bool × BpsPatch)
modify p bytes = if ltb (length bytes) 19 then ok (false, p) else do
  (sizes, c) ← read_sizes no_crc bytes (record { offset = 4; checksum = tt })
  ok (
    true,
    record p {
      modify_data = bytes;
      modify_source_size = sizes.source_size;
      modify_target_size = u32 sizes.target_size;
      modify_markup_size = sizes.markup_size;
      metadata_string = c_string sizes.markup;
    },
  )

unfoldable pub source : BpsPatch → List ℕ → BpsPatch
source p bytes = record p {
  source_data = bytes;
  modify_target_size = max (length bytes) p.modify_target_size;
}

unfoldable pub target : BpsPatch → List ℕ → BpsPatch
target p bytes = record p { target_data = bytes }

unfoldable pub metadata : BpsPatch → List ℕ
metadata p = p.metadata_string

unfoldable pub size : BpsPatch → ℕ
size p = p.modify_target_size

-- The overloads on file names. `none` is a file that does not open; else its mapped bytes.
unfoldable pub modify_file : BpsPatch → Option (List ℕ) → Run (Bool × BpsPatch)
modify_file p none = ok (false, p)
modify_file p (some bytes) = modify p bytes

unfoldable pub source_file : BpsPatch → Option (List ℕ) → Bool × BpsPatch
source_file p none = (false, p)
source_file p (some bytes) = (true, source p bytes)

-- `writes` and `maps` say whether the file opens for writing, and then for mapping. Opened for
-- writing it is empty, and `truncate` fills it with zeros up to `modifyTargetSize`.
unfoldable pub target_file : BpsPatch → Bool → Bool → Bool × BpsPatch
target_file p false maps = (false, p)
target_file p true false = (false, p)
target_file p true true = (true, target p (replicate p.modify_target_size 0))

module _ {S : Type 0} (crc : Crc32 S) where
  -- From the third trailer field on: the patch's own checksum, and the rest of the source.
  unfoldable pub finish : BpsPatch → State S → Run (Result × BpsPatch)
  finish p s = do
    (_, c) ← read_bytes crc 8 p.modify_data s.cursor
    (stored, _) ← read_bytes crc 4 p.modify_data c
    let done = record p { target_data = s.target }
    if not (crc.value c.checksum == little_endian stored)
        then ok (patch_checksum_invalid, done)
        else if not (ltb s.output_offset p.modify_target_size)
        then ok (success, done)
        else do
          t ←
              copy (p.modify_target_size - s.output_offset) p.source_data s.output_offset s.target
                s.output_offset
          ok (success, record p { target_data = t })

  -- What follows the header: the sizes, the checks of the buffers, the actions.
  unfoldable pub apply_body : BpsPatch → Cursor S → Run (Result × BpsPatch)
  apply_body p c = do
    (sizes, c₄) ← read_sizes crc p.modify_data c
    let p' = record p {
      modify_source_size = sizes.source_size;
      modify_target_size = u32 (max p.modify_target_size sizes.target_size);
      modify_markup_size = sizes.markup_size;
    }
    if ltb (length p'.source_data) p'.modify_source_size
        then ok (source_too_small, p')
        else if ltb (length p'.target_data) p'.modify_target_size
        then ok (target_too_small, p')
        else do
          s ← action_loop crc (length p.modify_data) p' (record {
            cursor = c₄;
            source_relative_offset = 0;
            target_relative_offset = 0;
            output_offset = 0;
            target = p.target_data;
          })
          finish p' s

  -- if(read() != 'B') return result::patch_invalid_header; and so on
  unfoldable pub read_header : List ℕ → List ℕ → Cursor S → Run (Bool × Cursor S)
  read_header [] bytes c = ok (true, c)
  read_header (k ∷ ks) bytes c = do
    (x, c') ← read crc bytes c
    let rest = read_header ks bytes c'
    if x == k then rest else ok (false, c')

  unfoldable pub apply : BpsPatch → Run (Result × BpsPatch)
  apply p = if ltb (length p.modify_data) 19 then ok (patch_too_small, p) else do
    (valid, c) ←
        read_header (b'B' ∷ b'P' ∷ b'S' ∷ b'1' ∷ []) p.modify_data
          (record { offset = 0; checksum = crc.init })
    if valid then apply_body p c else ok (patch_invalid_header, p)
