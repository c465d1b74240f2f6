-- ===== src/Magic/Begin/Patched.antt =====
-- MercurialMagic/export.cpp: the start of an export whose pack has a patch, with the check of the
-- ROM switched off.
use mercurial_magic.Prelude.{
  ℕ, ◌≡◌, ◌≢◌, refl, ap, Bool, true, false, none, some, List, [], ◌∷◌, ◌++◌, length, drop, Text,
  codes, ne→text_eq, ◌==◌, ok, arith,
}
use mercurial_magic.Ramus.Bps.{Crc32, BpsPatch, success}
use mercurial_magic.Ramus.Bps.Object.{source_file, little_endian}
use mercurial_magic.Ramus.Bps.Format.{Patch, Patches, encode_body, encode_patch, perform_all}
use mercurial_magic.Ramus.Bps.Number.{input_all}
use mercurial_magic.Ramus.Bps.Modify.{modify-encode_patch}
use mercurial_magic.Ramus.Bps.Workflow.{patch_file-encode_patch}
use mercurial_magic.Magic.{Program, ZipFile, Nall, game_pak}
use mercurial_magic.Magic.Disk.{Disk, put_file}
use mercurial_magic.Magic.Validate.{is_empty, set_destination, set_progress}
use mercurial_magic.Magic.Begin.{
  StrictResult, patch_error, place_rom, ignore_size_patch, patch_rom, begin_export,
}

-- Where a game pak goes.
abbrev pub game_pak_destination : Nall → Program → Text
game_pak_destination nall p = nall.dir p.pack_path ++ (p.output_name ++ codes ".sfc/")

-- A source that a patch has been applied to.
abbrev pub patched_rom : Patch → List ℕ → List ℕ
patched_rom x bytes = let out = perform_all bytes [] x.actions in out ++ drop (length out) bytes

module _ {S : Type 0} (crc : Crc32 S) (fresh : BpsPatch) (opens : Text → Bool × Bool) where
  ignore_size_patch-encode_patch :
      (x : Patch) (own bytes : List ℕ) (disk : Disk) (rom target_path : Text)
      → disk rom ≡ some bytes
      → rom ≢ target_path
      → opens target_path ≡ (true, true)
      → Patches x bytes own
      → crc.value (input_all crc crc.init (encode_body x)) ≡ little_endian own
      → ignore_size_patch crc fresh opens disk (encode_patch x own) rom target_path
        ≡ ok (success, put_file disk target_path (patched_rom x bytes))
  unfolding ignore_size_patch source_file
  ignore_size_patch-encode_patch x own bytes disk rom target_path there two opened h sum =
      let read = modify-encode_patch x own h fresh in
      let (p', run, shape) = patch_file-encode_patch crc x own bytes fresh h sum in
      let done = rw read at run in
      rw (read, there, opened, ne→text_eq rom target_path two, done, shape) refl

  module _ (nall : Nall) (reopen : List ZipFile → List ℕ → List ZipFile)
      (strict : Disk → List ℕ → Text → Text → StrictResult × Disk) where
    patch_rom-encode_patch :
        (x : Patch) (own bytes : List ℕ) (disk : Disk) (p : Program) (target_path : Text)
        → p.violate_bps ≡ true
        → p.patch_contents ≡ encode_patch x own
        → disk p.rom_path ≡ some bytes
        → p.rom_path ≢ target_path
        → opens target_path ≡ (true, true)
        → Patches x bytes own
        → crc.value (input_all crc crc.init (encode_body x)) ≡ little_endian own
        → patch_rom crc fresh opens nall reopen strict disk p target_path
          ≡ ok (none, put_file disk target_path (patched_rom x bytes))
    unfolding patch_rom patch_error
    patch_rom-encode_patch x own bytes disk p target_path violate patch there two opened h sum =
        let patched =
          ignore_size_patch-encode_patch x own bytes disk p.rom_path target_path there two opened h
            sum in
        let some_patch : is_empty (encode_patch x own) ≡ false =
          unfold encode_patch encode_body in refl in
        rw (patch, some_patch, violate, patched) refl

    abbrev begun : Program → Program
    begun p =
        set_progress 0
          (record p { destination = (set_destination nall p).destination; zip_index = 0 })

    destination-game_pak :
        (p : Program)
        → p.export_method ≡ game_pak
        → (set_destination nall p).destination ≡ game_pak_destination nall p
    unfolding set_destination
    destination-game_pak p method = rw method refl

    place_rom-game_pak :
        (disk : Disk) (p : Program)
        → p.export_method ≡ game_pak
        → place_rom nall disk p ≡ (p.destination ++ codes "program.rom", disk)
    unfolding place_rom
    place_rom-game_pak disk p method = rw (place_rom, method) refl

    -- With the check of the ROM switched off, a game pak's export from a pack whose `patch.bps` is
    -- in the format, fits the ROM that was chosen, as `Patches` says, and has its checksum, starts the loop over the files, and has
    -- written the patched ROM to `program.rom` in the destination. The target file opens and is
    -- mapped, and is not the ROM's own.
    pub begin_export-encode_patch :
        (x : Patch) (own bytes : List ℕ) (disk : Disk) (p : Program) (f : ZipFile)
        (files : List ZipFile)
        → p.pack ≡ f ∷ files
        → p.export_method ≡ game_pak
        → p.violate_bps ≡ true
        → p.patch_contents ≡ encode_patch x own
        → disk p.rom_path ≡ some bytes
        → p.rom_path ≢ game_pak_destination nall p ++ codes "program.rom"
        → opens (game_pak_destination nall p ++ codes "program.rom") ≡ (true, true)
        → Patches x bytes own
        → crc.value (input_all crc crc.init (encode_body x)) ≡ little_endian own
        → (p' : Program) × (begin_export crc fresh opens nall reopen strict disk p
            ≡ ok (
              true,
              p',
              put_file disk
                  (game_pak_destination nall p ++ codes "program.rom")
                  (patched_rom x bytes),
            ))
          × (p'.zip_index ≡ 0)
          × (p'.pack ≡ p.pack)
          × (p'.destination ≡ game_pak_destination nall p)
    unfolding begin_export set_progress set_destination
    begin_export-encode_patch x own bytes disk p f files packed method violate patch there two
          opened h sum =
        let e = destination-game_pak p method in
        let nonempty : (length p.pack == 0) ≡ false = rw packed (ground arith) in
        let patched =
          patch_rom-encode_patch x own bytes disk (begun p)
            ((set_destination nall p).destination ++ codes "program.rom") violate patch there
            (rw e two) (rw e opened) h sum in
        (
          begun p,
          rw (nonempty, place_rom-game_pak disk (begun p) method, patched)
              (ap
                (λ d.
                  ok
                    (true, begun p, put_file disk (d ++ codes "program.rom") (patched_rom x bytes)))
                e),
          refl,
          refl,
          e,
        )
