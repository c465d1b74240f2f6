-- ===== src/Daedalus/Manifests.antt =====
-- daedalus/core/: the manifests of the three kinds of cartridges, of an image and of a folder.
use mercurial_magic.Prelude.{
  ℕ, not, List, [], ◌∷◌, ◌++◌, Text, codes, join, text_eq, if◌then◌else◌, length, Run, ok, ◌>>=◌,
}
use mercurial_magic.Magic.Disk.{Disk, exists}
use mercurial_magic.Magic.Validate.{is_empty}
use mercurial_magic.Daedalus.Cartridge.{Cartridge}
use mercurial_magic.Daedalus.SuperFamicom.{super_famicom_cartridge, region_text}
use mercurial_magic.Daedalus.Slots.{sufami_turbo_cartridge, bs_memory_cartridge}
use mercurial_magic.Daedalus.Host.{Host, concatenate, concatenate_all}

module _ (host : Host) where
  -- The lines that every kind of cartridge has.
  unfoldable pub information_lines : List ℕ → (location : Text) → Text
  information_lines buffer location = join (
      codes "  title:  "
      ∷ host.prefix location
      ∷ codes "\n"
      ∷ codes "  sha256: "
      ∷ host.sha256 buffer
      ∷ codes "\n"
      ∷ codes "  note:   "
      ∷ codes "heuristically generated by daedalus\n"
      ∷ [])

  unfoldable pub super_famicom_information : Cartridge → List ℕ → (location : Text) → Text
  super_famicom_information cartridge buffer location = join (
      cartridge.markup
      ∷ codes "\n"
      ∷ codes "information\n"
      ∷ codes "  region: "
      ∷ region_text cartridge.region
      ∷ codes "\n"
      ∷ information_lines buffer location
      ∷ [])

  unfoldable pub super_famicom_manifest : Disk → List ℕ → (location : Text) → Run Text
  super_famicom_manifest disk buffer location = do
    cartridge ←
        super_famicom_cartridge host.hex buffer (length buffer)
          (exists disk (location ++ codes "msu1.rom"))
    ok (
        if is_empty cartridge.markup
        then []
        else super_famicom_information cartridge buffer location)

  unfoldable pub add_information : Text → List ℕ → (location : Text) → Text
  add_information markup buffer location =
      if is_empty markup
      then []
      else join
          (markup ∷ codes "\n" ∷ codes "information\n" ∷ information_lines buffer location ∷ [])

  unfoldable pub bs_memory_manifest : List ℕ → (location : Text) → Text
  bs_memory_manifest buffer location =
      add_information (bs_memory_cartridge host.hex (length buffer)) buffer location

  unfoldable pub sufami_turbo_manifest : List ℕ → (location : Text) → Run Text
  sufami_turbo_manifest buffer location = do
    markup ← sufami_turbo_cartridge host.hex buffer (length buffer)
    ok (add_information markup buffer location)

  unfoldable pub program_rom : Disk → (location : Text) → List ℕ
  program_rom disk location = concatenate disk [] (location ++ codes "program.rom")

  -- The ROMs of a folder, one behind the other.
  unfoldable pub folder_roms : Disk → (location : Text) → List ℕ
  folder_roms disk location =
      let files = host.files location in
      let program = program_rom disk location in
      let data_rom = concatenate disk program (location ++ codes "data.rom") in
      let slots = concatenate_all disk data_rom location (host.match (codes "slot-*.rom") files) in
      let boot = concatenate_all disk slots location (host.match (codes "*.boot.rom") files) in
      let chip = concatenate_all disk boot location (host.match (codes "*.program.rom") files) in
      concatenate_all disk chip location (host.match (codes "*.data.rom") files)

  -- The folder's name tells its kind.
  unfoldable pub manifest : Disk → Text → Run Text
  manifest disk location =
      let folder = host.forward location ++ codes "/" in
      if not (host.directory_exists folder)
      then ok []
      else if text_eq (host.suffix folder) (codes ".sfc")
      then super_famicom_manifest disk (folder_roms disk folder) folder
      else if text_eq (host.suffix folder) (codes ".bs")
      then ok (bs_memory_manifest (program_rom disk folder) folder)
      else if text_eq (host.suffix folder) (codes ".st")
      then sufami_turbo_manifest (program_rom disk folder) folder
      else ok []
