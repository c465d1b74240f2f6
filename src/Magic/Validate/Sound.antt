-- ===== src/Magic/Validate/Sound.antt =====
-- MercurialMagic/program.cpp: validatePack and validateROMPatch, when they return true.
use mercurial_magic.Prelude.{
  ℕ, ◌≡◌, refl, Bool, true, false, not, ◌&&◌, ap, ◌⊎◌, inl, inr, Option, none, some, List, Text,
  codes, ◌==◌, ==_iff, if◌then◌else◌, ok, >>=-eq-ok, Bool-cases,
}
use mercurial_magic.Magic.{Program, ZipFile, Nall}
use mercurial_magic.Magic.Disk.{Disk}
use mercurial_magic.Magic.Validate.{
  is_empty, is_some, source_checksum, find, fetch_file, validate_rom_patch, show_rom, take_patch,
  validate_pack,
}

module _ (nall : Nall) where
  -- A ROM on the disk that the patch is for, unless the user overrides this.
  abbrev pub HasRom : Disk → Program → Type 0
  HasRom disk p =
      (rom : List ℕ) × (disk p.rom_path ≡ some rom)
      × ((p.violate_bps ≡ true)
          ⊎ (is_some (fetch_file nall p (codes "patch.bps")) ≡ false)
          ⊎ (source_checksum p.patch_contents ≡ ok (nall.crc32 rom)))

  pub validate_found :
      (disk : Disk) (p p' : Program) (found : Option (List ℕ))
      → disk p.rom_path ≡ found
      → validate_rom_patch nall disk p ≡ ok (true, p')
      → HasRom disk p × (p' ≡ p)
  unfolding validate_rom_patch
  validate_found disk p p' none e h = let bad = rw (validate_rom_patch, e) at h in cc bad
  validate_found disk p p' (some rom) e h = elim (Bool-cases (is_empty p.rom_path)) [
    | inl empty ↦ let bad = rw (validate_rom_patch, e, empty) at h in cc bad
    | inr named ↦ elim (Bool-cases (is_some (fetch_file nall p (codes "patch.bps")))) [
      | inr none_there ↦
          let done = rw (validate_rom_patch, e, named, none_there) at h in
          ((rom, e, inr (inl none_there)), cc done)
      | inl there ↦ elim (Bool-cases p.violate_bps) [
        | inl over ↦
            let done = rw (validate_rom_patch, e, named, there, over) at h in
            ((rom, e, inl over), cc done)
        | inr strict ↦
            let done = rw (validate_rom_patch, e, named, there, strict) at h in
            let (sum, read, test) = >>=-eq-ok (source_checksum p.patch_contents) _ done in
            elim (Bool-cases (nall.crc32 rom == sum)) [
              | inl same ↦
                  let equal = (==_iff (nall.crc32 rom) sum).0 same in
                  let passed = rw same at test in ((rom, e, inr (inr (rw equal read))), cc passed)
              | inr other ↦ let bad = rw other at test in cc bad
            ]
      ]
    ]
  ]

  take_patch-pack :
      (p : Program) (found : Option ZipFile)
      → fetch_file nall p (codes "patch.bps") ≡ found
      → (take_patch nall p).pack ≡ p.pack
  unfolding take_patch
  take_patch-pack p none e = rw (take_patch, e) refl
  take_patch-pack p (some f) e = rw (take_patch, e) refl

  abbrev pub shown : Bool → Bool → Program → Program
  shown has_rom has_patch p = show_rom nall has_rom has_patch (take_patch nall p)

  pub fetch_file-shown :
      (has_rom has_patch : Bool) (p : Program) (name : Text)
      → fetch_file nall (shown has_rom has_patch p) name ≡ fetch_file nall p name
  unfolding fetch_file show_rom
  fetch_file-shown has_rom has_patch p name =
      ap (find nall name) (take_patch-pack p (fetch_file nall p (codes "patch.bps")) refl)

  patch_contents-shown :
      (has_rom has_patch : Bool) (p : Program) (f : ZipFile)
      → fetch_file nall p (codes "patch.bps") ≡ some f
      → (shown has_rom has_patch p).patch_contents ≡ f.contents
  unfolding show_rom take_patch
  patch_contents-shown has_rom has_patch p f e = rw (take_patch, e) refl

  -- What an accepted pack has: the files, and the ROM that it wants.
  abbrev pub IsAccepted : Disk → Program → Type 0
  IsAccepted disk p =
      (is_some (fetch_file nall p (codes "msu1.rom")) ≡ true)
      × ((is_some (fetch_file nall p (codes "program.rom")) ≡ true)
          ⊎ ((is_some (fetch_file nall p (codes "patch.bps")) ≡ true) × HasRom disk p))
      × ((f : ZipFile)
          → fetch_file nall p (codes "patch.bps") ≡ some f
          → p.patch_contents ≡ f.contents)

  accept_shown :
      (disk : Disk) (has_rom has_patch : Bool) (p p' : Program)
      → is_some (fetch_file nall p (codes "msu1.rom")) ≡ true
      → is_some (fetch_file nall p (codes "program.rom")) ≡ has_rom
      → is_some (fetch_file nall p (codes "patch.bps")) ≡ has_patch
      → (if not has_rom && not has_patch
          then ok (false, take_patch nall p)
          else if has_rom
          then ok (true, shown has_rom has_patch p)
          else validate_rom_patch nall disk (shown has_rom has_patch p))
        ≡ ok (true, p')
      → IsAccepted disk p'
  accept_shown disk true has_patch p p' msu rom patch h =
      let same : p' ≡ shown true has_patch p = cc h in
      rw
        (
          same,
          fetch_file-shown true has_patch p (codes "msu1.rom"),
          fetch_file-shown true has_patch p (codes "program.rom"),
          fetch_file-shown true has_patch p (codes "patch.bps"),
        )
        (msu, inl rom, patch_contents-shown true has_patch p)
  accept_shown disk false true p p' msu rom patch h =
      let (checked, same) =
        validate_found disk (shown false true p) p' (disk (shown false true p).rom_path) refl h in
      rw
        (
          same,
          fetch_file-shown false true p (codes "msu1.rom"),
          fetch_file-shown false true p (codes "program.rom"),
          fetch_file-shown false true p (codes "patch.bps"),
        )
        (
          msu,
          inr (patch, rw (fetch_file-shown false true p (codes "patch.bps")) at checked),
          patch_contents-shown false true p,
        )
  accept_shown disk false false p p' msu rom patch h = cc h

  validate_opened :
      (reopen : List ZipFile → List ℕ → List ZipFile) (disk : Disk) (p p' : Program)
      (found : Option (List ℕ))
      → disk p.pack_path ≡ found
      → validate_pack nall reopen disk p ≡ ok (true, p')
      → IsAccepted disk p'
  unfolding validate_pack
  validate_opened reopen disk p p' none e h = let bad = rw (validate_pack, e) at h in cc bad
  validate_opened reopen disk p p' (some archive) e h =
      let p₁ = record p { pack = reopen p.pack archive } in
      elim (Bool-cases (is_empty p.pack_path)) [
        | inl empty ↦ let bad = rw (validate_pack, e, empty) at h in cc bad
        | inr named ↦ elim (Bool-cases (is_some (fetch_file nall p₁ (codes "msu1.rom")))) [
          | inr no_msu ↦ let bad = rw (validate_pack, e, named, no_msu) at h in cc bad
          | inl msu ↦
              accept_shown disk _ _ p₁ p' msu refl refl (rw (validate_pack, e, named, msu) at h)
        ]
      ]

  -- A pack that passes the check has `msu1.rom`, and it has `program.rom`, or it has `patch.bps`
  -- and the ROM path names a file on the disk, whose checksum is the one in the patch unless the
  -- check of the ROM is switched off. If it has `patch.bps`, the program holds that file's contents.
  pub validate_pack-IsAccepted :
      (reopen : List ZipFile → List ℕ → List ZipFile) (disk : Disk) (p p' : Program)
      → validate_pack nall reopen disk p ≡ ok (true, p')
      → IsAccepted disk p'
  validate_pack-IsAccepted reopen disk p p' =
      validate_opened reopen disk p p' (disk p.pack_path) refl
