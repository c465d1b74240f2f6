-- ===== src/Magic/Begin.antt =====
-- MercurialMagic/export.cpp: the start of an export, which writes the patched or merged ROM.
pub mod Patched
use mercurial_magic.Prelude.{
  ℕ, zero, suc, Bool, true, false, not, Option, none, some, List, [], ◌∷◌, ◌++◌, length, Text,
  codes, text_eq, ◌==◌, ◌&&◌, replicate, if◌then◌else◌, Run, ok, fault, ◌>>=◌,
}
use mercurial_magic.Ramus.Bps.{Crc32, BpsPatch}
use mercurial_magic.Ramus.Bps as Bps
use mercurial_magic.Ramus.Bps.Object.{modify, source_file, target_file, apply}
use mercurial_magic.Magic.{Program, ZipFile, Nall, ExportMethod, game_pak, sd2snes}
use mercurial_magic.Magic.Disk.{Disk, write, put_file}
use mercurial_magic.Magic.Validate.{
  is_empty, source_checksum, fetch_file, set_destination, set_progress,
}
use mercurial_magic.Magic.Window.{error}

-- The results of nall's own patcher, which also checks the checksums of source and target.
pub data StrictResult : Type 0 where
  unknown success patch_too_small patch_invalid_header source_too_small target_too_small :
      StrictResult
  source_checksum_invalid target_checksum_invalid patch_checksum_invalid : StrictResult

abbrev pub unspecified_problem : Text
unspecified_problem = codes "There was an unspecified problem in applying the BPS patch."

abbrev pub invalid_header : Text
invalid_header = codes "The BPS patch's header is invalid!"

abbrev pub corrupt_patch : Text
corrupt_patch = codes "The BPS patch is corrupt!"

abbrev pub small_rom : Text
small_rom =
    codes "This ROM is too small!\nCheck that you are selecting the correct ROM, and try again."

-- The dialogs of the two switches; `none` goes on.
unfoldable pub patch_error : Bps.Result → Option Text
patch_error Bps.unknown = some unspecified_problem
patch_error Bps.success = none
patch_error Bps.patch_too_small = some corrupt_patch
patch_error Bps.patch_invalid_header = some invalid_header
patch_error Bps.source_too_small = some small_rom
patch_error Bps.target_too_small = some corrupt_patch
patch_error Bps.patch_checksum_invalid = some corrupt_patch

module _ (nall : Nall) where
  unfoldable pub strict_error : List ℕ → StrictResult → Run (Option Text)
  strict_error patch unknown = ok (some unspecified_problem)
  strict_error patch success = ok none
  strict_error patch patch_too_small = ok (some corrupt_patch)
  strict_error patch patch_invalid_header = ok (some invalid_header)
  strict_error patch source_too_small = ok (some small_rom)
  strict_error patch target_too_small = ok (some corrupt_patch)
  strict_error patch source_checksum_invalid = do
    expected ← source_checksum patch
    ok (
        some (
          codes "The patch is not compatible with this ROM.\nExpected CRC32: "
          ++ nall.hex expected))
  strict_error patch target_checksum_invalid = ok (some corrupt_patch)
  strict_error patch patch_checksum_invalid = ok (some corrupt_patch)

  -- The contents of the ROM files of the pack, one behind the other: of each pattern the first.
  unfoldable pub merged : Program → List Text → List ℕ
  merged p [] = []
  merged p (name ∷ names) = elim (fetch_file nall p name) [
    | none ↦ merged p names
    | some f ↦ f.contents ++ merged p names
  ]

  abbrev pub roms : List Text
  roms =
      codes "program.rom"
      ∷ codes "data.rom"
      ∷ codes "slot-*.rom"
      ∷ codes "*.boot.rom"
      ∷ codes "*.program.rom"
      ∷ codes "*.data.rom"
      ∷ []

  -- Where the ROM goes, and the disk with the merged ROM in the case of the SD2SNES.
  unfoldable pub place_rom : Disk → Program → Text × Disk
  place_rom disk p = elim p.export_method [
    | game_pak ↦ (p.destination ++ codes "program.rom", disk)
    | sd2snes ↦
        let filename =
          if p.sd2snes_force_manifest then codes "program.rom" else p.output_name ++ codes ".sfc" in
        (
          p.destination ++ filename,
          write nall.writable disk (p.destination ++ filename) (merged p roms),
        )
  ]

-- The branch of `violateBPS`. `fresh` is the object that `new` makes, whose fields are not
-- initialised. `opens` says whether a file opens for writing, and whether it is mapped then.
-- The target file is emptied while the ROM is mapped, so they must be two files.
module _ {S : Type 0} (crc : Crc32 S) (fresh : BpsPatch) (opens : Text → Bool × Bool) where
  unfoldable pub ignore_size_patch : Disk → List ℕ → Text → Text → Run (Bps.Result × Disk)
  ignore_size_patch disk patch rom target_path = do
    (accepted, p₁) ← modify fresh patch
    let p₂ = (source_file p₁ (disk rom)).1
    let (opened, mapped) = opens target_path
    let p₃ = (target_file p₂ opened mapped).1
    let patching = (do
      (result, p₄) ← apply crc p₃
      ok (
        result,
        if opened
            then put_file disk target_path
                (if mapped then p₄.target_data else replicate p₃.modify_target_size 0)
            else disk,
      ))
    if opened && text_eq rom target_path then fault else patching

  module _ (nall : Nall) (reopen : List ZipFile → List ℕ → List ZipFile)
      (strict : Disk → List ℕ → Text → Text → StrictResult × Disk) where
    -- Both branches of the patch: the dialog of a failure, and the disk.
    unfoldable pub patch_rom : Disk → Program → Text → Run (Option Text × Disk)
    patch_rom disk p target_path =
        if is_empty p.patch_contents
        then ok (none, disk)
        else if not p.violate_bps
        then (do
          let (result, disk') = strict disk p.patch_contents p.rom_path target_path
          failure ← strict_error nall p.patch_contents result
          ok (failure, disk'))
        else (do
          (result, disk') ← ignore_size_patch disk p.patch_contents p.rom_path target_path
          ok (patch_error result, disk'))

    -- `beginExport`, up to the thread with the loop, which is started if the result is true. On an
    -- empty pack `setProgress` divides by zero. The directory that is created is left out.
    unfoldable pub begin_export : Disk → Program → Run (Bool × Program × Disk)
    begin_export disk p = if length p.pack == 0 then fault else do
      let p₁ = set_progress 0 (record (set_destination nall p) { zip_index = 0 })
      let (target_path, disk₁) = place_rom nall disk p₁
      (failure, disk₂) ← patch_rom disk₁ p₁ target_path
      elim failure [
        | none ↦ ok (true, p₁, disk₂)
        | some text ↦ do p₂ ← error nall reopen disk₂ text p₁; ok (false, p₂, disk₂)
      ]
