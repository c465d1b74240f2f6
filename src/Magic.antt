-- ===== src/Magic.antt =====
-- MercurialMagic/: the program's state, and what it uses of nall.
pub mod Disk
pub mod Validate
pub mod Window
pub mod Track
pub mod Export
pub mod Begin
pub mod Finish
use mercurial_magic.Prelude.{ℕ, Bool, List, Text}

pub data ExportMethod : Type 0 where
  game_pak sd2snes : ExportMethod

-- A file of the archive: `contents` is what `pack.extract` returns for it.
pub record ZipFile : Type 0 where
  pub name : Text
  pub contents : List ℕ

-- `Program`, with what its widgets hold where the program reads or sets it.
pub record Program : Type 0 where
  pub export_method : ExportMethod
  pub create_manifest : Bool
  pub sd2snes_force_manifest : Bool
  pub violate_bps : Bool
  pub icarus : Bool
  pub daedalus : Bool
  pub valid : Bool
  pub pack : List ZipFile
  pub patch_contents : List ℕ
  pub zip_index : ℕ
  pub track_ids : List ℕ
  pub destination : Text
  pub pack_path : Text
  pub rom_path : Text
  pub output_name : Text
  pub rom_label : Text
  pub rom_enabled : Bool
  pub tabs_enabled : Bool
  pub export_enabled : Bool
  pub exit_text : Text
  pub status : Text
  pub progress : ℕ
  -- The dialogs that were shown, the last one first.
  pub dialogs : List Text

-- The functions of nall that the program calls on texts and bytes: Location::suffix and so on,
-- string::match, string::natural, the change of `\\` to `/`, the printing of an integer and of eight upper-case hexadecimal digits, and
-- Hash::CRC32. Besides, `writable` says whether a file opens for writing.
pub record Nall : Type 0 where
  pub suffix : Text → Text
  pub dir : Text → Text
  pub path : Text → Text
  pub prefix : Text → Text
  pub matches : Text → Text → Bool
  pub natural : Text → ℕ
  pub slashes : Text → Text
  pub print : ℕ → Text
  pub hex : ℕ → Text
  pub crc32 : List ℕ → ℕ
  pub writable : Text → Bool
