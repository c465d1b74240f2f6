-- ===== src/Magic/Validate.antt =====
-- MercurialMagic/program.cpp: the checks of a pack and of a ROM, and the resets of the window.
pub mod Sound
pub mod Stale
use mercurial_magic.Prelude.{
  ℕ, zero, suc, ◌+◌, ◌-◌, ◌*◌, ◌/◌, Bool, true, false, not, ◌&&◌, ◌||◌, Option, none, some, List,
  [], ◌∷◌, ◌++◌, length, Text, codes, text_eq, ltb, ◌==◌, if◌then◌else◌, Run, ok, fault, ◌>>=◌, u32,
}
use mercurial_magic.Ramus.Memory.{fetch}
use mercurial_magic.Ramus.Bps.Object.{little_endian}
use mercurial_magic.Magic.{Program, ZipFile, Nall, ExportMethod, game_pak, sd2snes}
use mercurial_magic.Magic.Disk.{Disk, exists}

abbrev pub is_empty : List ℕ → Bool
is_empty [] = true
is_empty (x ∷ xs) = false

abbrev pub is_some {ℓ} : {A : Type ℓ} → Option A → Bool
is_some none = false
is_some (some a) = true

-- The four bytes of the source's checksum, `patchContents[patchContents.size() - 12 + i]`, where
-- `size() - 12` wraps around.
unfoldable pub source_checksum : List ℕ → Run ℕ
source_checksum patch = do
  let start = u32 (length patch + 4294967296 - 12)
  a ← fetch patch start
  b ← fetch patch (u32 (start + 1))
  c ← fetch patch (u32 (start + 2))
  d ← fetch patch (u32 (start + 3))
  ok (little_endian (a ∷ b ∷ c ∷ d ∷ []))

-- warning(text), information(text)
unfoldable pub warning : Text → Program → Program
warning text p = record p { dialogs = text ∷ p.dialogs }

unfoldable pub information : Text → Program → Program
information text p = record p { status = text }

abbrev pub multi_patch_warning : Text → Text
multi_patch_warning expected =
    codes "The patch is not compatible with this ROM.\n"
    ++ (codes "Expected CRC32: "
        ++ (expected
            ++ (codes "\n\nIf you are attempting to multi-patch (which violates the BPS spec), "
                ++ codes "check the Advanced Settings tab to do so.")))

module _ (nall : Nall) where
  unfoldable pub find : Text → List ZipFile → Option ZipFile
  find pattern [] = none
  find pattern (f ∷ files) = if nall.matches f.name pattern then some f else find pattern files

  -- `fetch`
  unfoldable pub fetch_file : Program → Text → Option ZipFile
  unfolding find
  fetch_file p name = find name p.pack

  unfoldable pub validate_rom_patch : Disk → Program → Run (Bool × Program)
  validate_rom_patch disk p = elim (disk p.rom_path) [
    | none ↦ ok (false, p)
    | some rom ↦
        if is_empty p.rom_path
        then ok (false, p)
        else if is_some (fetch_file p (codes "patch.bps")) && not p.violate_bps
        then (do
          expected ← source_checksum p.patch_contents
          if nall.crc32 rom == expected
              then ok (true, p)
              else ok (false, warning (multi_patch_warning (nall.hex expected)) p))
        else ok (true, p)
  ]

  -- What `validatePack` shows of a pack, and its result. `reopen` is `pack.open`: the archive's
  -- files from the file's bytes, or from the files before if it does not open.
  unfoldable pub show_rom : Bool → Bool → Program → Program
  show_rom has_rom has_patch p = record p {
    rom_label = if has_patch then codes "ROM path:" else codes "No ROM needed";
    rom_enabled = has_patch;
    rom_path = if has_rom then [] else p.rom_path;
  }

  unfoldable pub take_patch : Program → Program
  take_patch p = elim (fetch_file p (codes "patch.bps")) [
    | none ↦ p
    | some f ↦ record p { patch_contents = f.contents }
  ]

  unfoldable pub validate_pack :
      (List ZipFile → List ℕ → List ZipFile) → Disk → Program → Run (Bool × Program)
  validate_pack reopen disk p = elim (disk p.pack_path) [
    | none ↦ ok (false, p)
    | some archive ↦
        if is_empty p.pack_path
        then ok (false, p)
        else let p₁ = record p { pack = reopen p.pack archive } in
          if not (is_some (fetch_file p₁ (codes "msu1.rom")))
          then ok (false, p₁)
          else let has_rom = is_some (fetch_file p₁ (codes "program.rom")) in
            let has_patch = is_some (fetch_file p₁ (codes "patch.bps")) in
            let p₂ = take_patch p₁ in
            if not has_rom && not has_patch
            then ok (false, p₂)
            else let p₃ = show_rom has_rom has_patch p₂ in
              if has_rom then ok (true, p₃) else validate_rom_patch disk p₃
  ]

  unfoldable pub set_destination : Program → Program
  set_destination p = record p {
    destination = elim p.export_method [
      | game_pak ↦ nall.dir p.pack_path ++ (p.output_name ++ codes ".sfc/")
      | sd2snes ↦
          if p.sd2snes_force_manifest
          then nall.dir p.pack_path ++ (p.output_name ++ codes ".sfc/")
          else nall.dir p.pack_path ++ codes "SD2SNES-Snes9x/"
    ];
  }

-- `files * 100 / pack.file.size()`; the product has 32 bits.
unfoldable pub set_progress : ℕ → Program → Program
set_progress files p = record p { progress = u32 (files * 100) / length p.pack }
