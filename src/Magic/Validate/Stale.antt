-- ===== src/Magic/Validate/Stale.antt =====
-- MercurialMagic/program.cpp: validatePack on a pack without a patch.
use mercurial_magic.Prelude.{
  ℕ, ◌≡◌, refl, Bool, true, false, not, ◌&&◌, Option, none, some, List, [], codes, if◌then◌else◌,
  ok, Bool-cases, inl, inr,
}
use mercurial_magic.Magic.{Program, ZipFile, Nall}
use mercurial_magic.Magic.Disk.{Disk}
use mercurial_magic.Magic.Validate.{
  is_empty, is_some, fetch_file, validate_rom_patch, show_rom, take_patch, validate_pack,
}
use mercurial_magic.Magic.Validate.Sound.{shown, fetch_file-shown, validate_found}

module _ (nall : Nall) where
  take_patch-none :
      (p : Program) → fetch_file nall p (codes "patch.bps") ≡ none → take_patch nall p ≡ p
  unfolding take_patch
  take_patch-none p absent = rw (take_patch, absent) refl

  stale_shown :
      (disk : Disk) (has_rom has_patch : Bool) (p p' : Program)
      → is_some (fetch_file nall p (codes "patch.bps")) ≡ has_patch
      → (if not has_rom && not has_patch
          then ok (false, take_patch nall p)
          else if has_rom
          then ok (true, shown nall has_rom has_patch p)
          else validate_rom_patch nall disk (shown nall has_rom has_patch p))
        ≡ ok (true, p')
      → fetch_file nall p' (codes "patch.bps") ≡ none
      → (p'.patch_contents ≡ p.patch_contents) × (p'.rom_path ≡ [])
  unfolding show_rom
  stale_shown disk true has_patch p p' patch h absent =
      let same : p' ≡ shown nall true has_patch p = cc h in
      let kept =
        take_patch-none p
          (rw (same, fetch_file-shown nall true has_patch p (codes "patch.bps")) at absent) in
      (rw (same, kept) refl, rw same refl)
  stale_shown disk false true p p' patch h absent =
      let (checked, same) =
        validate_found nall disk (shown nall false true p) p'
          (disk (shown nall false true p).rom_path) refl h in
      let gone = rw (same, fetch_file-shown nall false true p (codes "patch.bps")) at absent in
      let bad = rw gone at patch in cc bad
  stale_shown disk false false p p' patch h absent = cc h

  stale_opened :
      (reopen : List ZipFile → List ℕ → List ZipFile) (disk : Disk) (p p' : Program)
      (found : Option (List ℕ))
      → disk p.pack_path ≡ found
      → validate_pack nall reopen disk p ≡ ok (true, p')
      → fetch_file nall p' (codes "patch.bps") ≡ none
      → (p'.patch_contents ≡ p.patch_contents) × (p'.rom_path ≡ [])
  unfolding validate_pack
  stale_opened reopen disk p p' none e h absent = let bad = rw (validate_pack, e) at h in cc bad
  stale_opened reopen disk p p' (some archive) e h absent =
      let p₁ = record p { pack = reopen p.pack archive } in
      elim (Bool-cases (is_empty p.pack_path)) [
        | inl empty ↦ let bad = rw (validate_pack, e, empty) at h in cc bad
        | inr named ↦ elim (Bool-cases (is_some (fetch_file nall p₁ (codes "msu1.rom")))) [
          | inr no_msu ↦ let bad = rw (validate_pack, e, named, no_msu) at h in cc bad
          | inl msu ↦
              stale_shown disk _ _ p₁ p' refl (rw (validate_pack, e, named, msu) at h) absent
        ]
      ]

  -- A pack without `patch.bps` that passes the check leaves the program with the patch that it
  -- held before, and with an empty ROM path.
  pub validate_pack-keeps_patch :
      (reopen : List ZipFile → List ℕ → List ZipFile) (disk : Disk) (p p' : Program)
      → validate_pack nall reopen disk p ≡ ok (true, p')
      → fetch_file nall p' (codes "patch.bps") ≡ none
      → (p'.patch_contents ≡ p.patch_contents) × (p'.rom_path ≡ [])
  validate_pack-keeps_patch reopen disk p p' = stale_opened reopen disk p p' (disk p.pack_path) refl
