-- ===== src/Daedalus/Import.antt =====
-- daedalus/core/: the import of an image into the library.
pub mod Slices
pub mod Outcome
pub mod Folder
pub mod Foreign
use mercurial_magic.Prelude.{
  ℕ, ◌+◌, ◌-◌, ◌%◌, Bool, true, false, not, ◌&&◌, ◌||◌, Option, none, some, List, [], ◌∷◌, ◌++◌,
  Text, codes, text_eq, if◌then◌else◌, length, take, drop, ltb, leb, ◌==◌, Run, ok, fault, ◌>>=◌,
  u32,
}
use mercurial_magic.Magic.Disk.{exists}
use mercurial_magic.Magic.Validate.{is_empty}
use mercurial_magic.Daedalus.Host.{
  Host, Daedalus, Node, Nodes, node, end, and, success, failure, write_in, create,
}
use mercurial_magic.Daedalus.Manifests.{
  super_famicom_manifest, bs_memory_manifest, sufami_turbo_manifest,
}

-- A ROM that a markup names, with its size.
pub record Rom : Type 0 where
  pub name : Text
  pub size : ℕ

-- `buffer.data() + offset`, of which `size` bytes are read.
unfoldable pub slice : List ℕ → (offset size : ℕ) → Run (List ℕ)
slice buffer offset size =
    if leb (offset + size) (length buffer) then ok (take size (drop offset buffer)) else fault

unfoldable pub merge : List Text → Text
merge [] = []
merge (name ∷ []) = name
merge (name ∷ next ∷ names) = name ++ codes "; " ++ merge (next ∷ names)

unfoldable pub import_loop :
    Host → (target : Text) (buffer : List ℕ) → List Rom → (offset : ℕ) → Daedalus → Run Daedalus
import_loop host target buffer [] offset d = ok d
import_loop host target buffer (rom ∷ roms) offset d =
    if ltb (u32 (length buffer + 4294967296 - offset)) rom.size
    then import_loop host target buffer roms offset
        (record d { missing_files = d.missing_files ++ rom.name ∷ [] })
    else (do
      bytes ← slice buffer offset rom.size
      import_loop host target buffer roms (u32 (offset + rom.size))
          (write_in host target rom.name bytes d))

unfoldable pub copy_file : Host → (source folder name : Text) → Daedalus → Daedalus
copy_file host source folder name d = elim (d.disk source) [
  | none ↦ d
  | some bytes ↦ write_in host folder name bytes d
]

unfoldable pub copy_save : Host → (save folder name : Text) → Daedalus → Daedalus
copy_save host save folder name d =
    if exists d.disk save && not (exists d.disk (folder ++ name))
    then copy_file host save folder name d
    else d

unfoldable pub none_missing : List Text → Bool
none_missing [] = true
none_missing (name ∷ names) = false

module _ (host : Host) where
  unfoldable pub rom_of : Node → Rom
  rom_of rom = record {
    name = host.text_at rom (codes "name");
    size = host.natural (host.text_at rom (codes "size"));
  }

  -- superFamicomManifestScan: the node, if it names a ROM, and those below it.
  unfoldable mutual
    pub scan_node : Node → List Rom
    scan_node (node name value below) =
        if host.ends_with (host.text_at (node name value below) (codes "name")) (codes ".rom")
        then rom_of (node name value below) ∷ scan_all below
        else scan_all below

    pub scan_all : Nodes → List Rom
    scan_all end = []
    scan_all (and first nodes) = scan_node first ++ scan_all nodes

  unfoldable pub report : (target : Text) → Daedalus → Text × Daedalus
  report target d =
      if none_missing d.missing_files
      then success target d
      else failure (codes "ROM image is missing data: " ++ merge d.missing_files) d

  unfoldable pub super_famicom_import :
      (buffer : List ℕ) (location : Text) → Daedalus → Run (Text × Daedalus)
  super_famicom_import buffer location d = do
    let name = host.prefix location
    let target = host.library ++ codes "Super Famicom/" ++ name ++ codes ".sfc/"
    markup ← super_famicom_manifest host d.disk buffer location
    if is_empty markup
        then ok (failure (codes "failed to parse ROM image") d)
        else if not (host.creates target)
        then ok (failure (codes "library path unwritable") d)
        else (do
          let saved =
              copy_save host (host.path location ++ name ++ codes ".srm") target (codes "save.ram")
                (create target d)
          let listed = write_in host target (codes "manifest.bml") markup saved
          let offset = if length buffer % 0x8000 == 512 then 512 else 0
          d' ← import_loop host target buffer (scan_node (host.board markup)) offset listed
          ok (report target d'))

  -- The import of a cartridge that is one file. No folder is created.
  unfoldable pub write_cartridge :
      (target markup : Text) (buffer : List ℕ) → Daedalus → Text × Daedalus
  write_cartridge target markup buffer d =
      if is_empty markup
      then failure (codes "failed to parse ROM image") d
      else success target (
          write_in host target (codes "program.rom") buffer
            (write_in host target (codes "manifest.bml") markup d))

  unfoldable pub bs_memory_import : List ℕ → (location : Text) → Daedalus → Text × Daedalus
  bs_memory_import buffer location d =
      write_cartridge (host.library ++ codes "BS Memory/" ++ host.prefix location ++ codes ".bs/")
        (bs_memory_manifest host buffer location) buffer d

  unfoldable pub sufami_turbo_import : List ℕ → (location : Text) → Daedalus → Run (Text × Daedalus)
  sufami_turbo_import buffer location d = do
    markup ← sufami_turbo_manifest host buffer location
    ok (
        write_cartridge
          (host.library ++ codes "Sufami Turbo/" ++ host.prefix location ++ codes ".st/") markup
          buffer d)

  -- By the suffix of the file, or of the first file of an archive.
  unfoldable pub import_as :
      (type : Text) → List ℕ → (location : Text) → Daedalus → Run (Text × Daedalus)
  import_as type buffer location d =
      if text_eq type (codes ".sfc") || text_eq type (codes ".smc")
      then super_famicom_import buffer location d
      else if text_eq type (codes ".bs")
      then ok (bs_memory_import buffer location d)
      else if text_eq type (codes ".st")
      then sufami_turbo_import buffer location d
      else ok (failure (codes "unrecognized file extension") d)

  unfoldable pub import_archive : List ℕ → (location : Text) → Daedalus → Run (Text × Daedalus)
  import_archive buffer location d = elim (host.unzip buffer) [
    | none ↦ ok (failure (codes "ZIP archive is invalid") d)
    | some [] ↦ ok (failure (codes "ZIP archive is empty") d)
    | some (file ∷ files) ↦ import_as (host.suffix file.0) file.1 location d
  ]

  unfoldable pub import_buffer : List ℕ → (location : Text) → Daedalus → Run (Text × Daedalus)
  import_buffer buffer location d =
      if is_empty (host.prefix location) || is_empty (host.suffix location)
      then ok (failure (codes "invalid file name") d)
      else if is_empty buffer
      then ok (failure (codes "file is empty") d)
      else if text_eq (host.suffix location) (codes ".zip")
      then import_archive buffer location d
      else import_as (host.suffix location) buffer location d

  unfoldable pub import_file : Text → Daedalus → Run (Text × Daedalus)
  import_file name d =
      let location = host.forward name in
      let d₀ = record d { error_message = []; missing_files = [] } in
      elim (d.disk location) [
        | none ↦ ok (failure (codes "file does not exist") d₀)
        | some buffer ↦
            if not (host.readable location)
            then ok (failure (codes "file is unreadable") d₀)
            else import_buffer buffer location d₀
      ]
