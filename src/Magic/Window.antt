-- ===== src/Magic/Window.antt =====
-- MercurialMagic/program.cpp: what the program does to its window, and the error dialog.
pub mod Button
use mercurial_magic.Prelude.{
  ℕ, Bool, true, false, not, ◌&&◌, List, [], ◌∷◌, Text, codes, if◌then◌else◌, Run, ok, ◌>>=◌,
}
use mercurial_magic.Magic.{Program, ZipFile, Nall}
use mercurial_magic.Magic.Disk.{Disk}
use mercurial_magic.Magic.Validate.{is_empty, validate_pack, validate_rom_patch}

module _ (nall : Nall) (reopen : List ZipFile → List ℕ → List ZipFile) where
  unfoldable pub set_enabled : Disk → Bool → Program → Run Program
  set_enabled disk enabled p =
      if enabled
      then (do
        (valid, p') ←
            validate_pack nall reopen disk (record p { tabs_enabled = true; rom_enabled = true })
        ok (record p' { export_enabled = valid; exit_text = codes "Exit" }))
      else ok (record p {
        tabs_enabled = false;
        rom_enabled = false;
        export_enabled = false;
        exit_text = codes "Cancel";
      })

  unfoldable pub reset : Disk → Program → Run Program
  reset disk p = set_enabled disk true (record p {
    pack = [];
    pack_path = [];
    rom_path = [];
    output_name = [];
    track_ids = [];
    progress = 0;
  })

  unfoldable pub error : Disk → Text → Program → Run Program
  error disk text p = do
    p' ← reset disk p
    ok (record p' { status = codes "Error"; dialogs = text ∷ p'.dialogs })

  -- The handlers of the tabs: `packPath.onChange`, `romPath.onChange`, `outputName.onChange`, and
  -- the toggle of `violateBPS`. The button wants a valid pack and an output name.
  unfoldable pub judge : Bool → Program → Program
  judge valid p = record p { valid = valid; export_enabled = valid && not (is_empty p.output_name) }

  unfoldable pub change_pack : Disk → Program → Run Program
  change_pack disk p = do
    (valid, p') ←
        validate_pack nall reopen disk
          (record p { output_name = nall.prefix (nall.slashes p.pack_path) })
    ok (judge valid p')

  unfoldable pub change_rom : Disk → Program → Run Program
  change_rom disk p = do (valid, p') ← validate_rom_patch nall disk p; ok (judge valid p')

  unfoldable pub change_output_name : Program → Program
  change_output_name p = record p { export_enabled = p.valid && not (is_empty p.output_name) }

  unfoldable pub toggle_violate_bps : Disk → Bool → Program → Run Program
  toggle_violate_bps disk checked p = do
    (valid, p') ← validate_rom_patch nall disk (record p { violate_bps = checked })
    ok (judge valid p')
