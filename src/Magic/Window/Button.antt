-- ===== src/Magic/Window/Button.antt =====
-- MercurialMagic/program.cpp and basic-settings.cpp: when the export button is enabled.
use mercurial_magic.Prelude.{
  ℕ, ◌≡◌, ◌∙◌, ap, refl, Bool, true, false, Option, none, some, List, [], ◌∷◌, Text, codes, ok,
  >>=-eq-ok, arith,
}
use mercurial_magic.Magic.{Program, ZipFile, Nall}
use mercurial_magic.Magic.Disk.{Disk}
use mercurial_magic.Magic.Validate.{is_empty, fetch_file, validate_pack}
use mercurial_magic.Magic.Validate.Sound.{IsAccepted, validate_pack-IsAccepted}
use mercurial_magic.Magic.Window.{set_enabled, reset, error, judge, change_pack}

-- A window in which a pack is to be chosen, and nothing can be exported.
abbrev pub IsIdle : Program → Type 0
IsIdle p =
    (p.pack ≡ [])
    × (p.pack_path ≡ [])
    × (p.rom_path ≡ [])
    × (p.track_ids ≡ [])
    × (p.tabs_enabled ≡ true)
    × (p.export_enabled ≡ false)

module _ (nall : Nall) (reopen : List ZipFile → List ℕ → List ZipFile) where
  validate_pack-no_path :
      (disk : Disk) (p : Program) (found : Option (List ℕ))
      → disk p.pack_path ≡ found
      → p.pack_path ≡ []
      → validate_pack nall reopen disk p ≡ ok (false, p)
  unfolding validate_pack
  validate_pack-no_path disk p none e h = rw (validate_pack, e) refl
  validate_pack-no_path disk p (some archive) e h =
      let empty : is_empty p.pack_path ≡ true = rw h refl in rw (validate_pack, e, empty) refl

  pub reset-IsIdle :
      (disk : Disk) (p : Program) → (p' : Program) × (reset nall reopen disk p ≡ ok p') × IsIdle p'
  unfolding reset set_enabled
  reset-IsIdle disk p =
      let p₁ = record p {
        pack = [];
        pack_path = [];
        rom_path = [];
        output_name = [];
        track_ids = [];
        progress = 0;
        tabs_enabled = true;
        rom_enabled = true;
      } in
      let invalid = validate_pack-no_path disk p₁ (disk []) refl refl in
      (
        record p₁ { export_enabled = false; exit_text = codes "Exit" },
        rw invalid refl,
        (refl, refl, refl, refl, refl, refl),
      )

  -- An error, whatever state the program is in, returns to a window without a pack, without tracks
  -- and with its tabs enabled, in which the export button is disabled; and it shows its text.
  pub error-IsIdle :
      (disk : Disk) (text : Text) (p : Program)
      → (p' : Program) × (error nall reopen disk text p ≡ ok p')
        × IsIdle p'
        × ((before : List Text) × (p'.dialogs ≡ text ∷ before))
  unfolding error
  error-IsIdle disk text p =
      let (p₁, done, idle) = reset-IsIdle disk p in
      (
        record p₁ { status = codes "Error"; dialogs = text ∷ p₁.dialogs },
        rw done refl,
        idle,
        (p₁.dialogs, refl),
      )

  judge-enabled :
      (valid : Bool) (p : Program)
      → (judge nall reopen valid p).export_enabled ≡ true
      → (valid ≡ true) × (is_empty p.output_name ≡ false)
  unfolding judge
  judge-enabled valid p h = ground arith

  -- If the export button is enabled after another pack was chosen, the pack has passed the check
  -- with what it promises, and an output name is set.
  pub change_pack-IsAccepted :
      (disk : Disk) (p p' : Program)
      → change_pack nall reopen disk p ≡ ok p'
      → p'.export_enabled ≡ true
      → IsAccepted nall disk p' × (is_empty p'.output_name ≡ false)
  unfolding change_pack judge fetch_file
  change_pack-IsAccepted disk p p' h enabled =
      let ((valid, p₁), checked, judged) = >>=-eq-ok (validate_pack nall reopen disk _) _ h in
      let same : p' ≡ judge nall reopen valid p₁ = cc judged in
      let (passed, name) = judge-enabled valid p₁ (rw same at enabled) in
      rw same (
        validate_pack-IsAccepted nall reopen disk _ p₁ (checked ∙ ap (λ b. ok (b, p₁)) passed),
        name,
      )
