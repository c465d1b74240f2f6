-- ===== src/Tests.antt =====
-- Concrete inputs: patches, archives, and a checksum and text functions to run the code with.
pub mod Bps
pub mod Ips
pub mod Pack
mod Daedalus
pub mod Sums
pub mod Deflate
mod Zip
mod ShiftJis
mod Png
use mercurial_magic.Prelude.{ℕ, ◌+◌, ◌%◌, List, [], ◌∷◌}
use mercurial_magic.Ramus.Bps.{Crc32, BpsPatch}

-- A sum of the bytes in place of the CRC.
abbrev pub byte_sum : Crc32 ℕ
byte_sum = record { init = 0; input = λ s b. (s + b) % 4294967296; value = λ s. s }

abbrev pub blank : BpsPatch
blank = record {
  modify_data = [];
  source_data = [];
  target_data = [];
  modify_source_size = 0;
  modify_target_size = 0;
  modify_markup_size = 0;
  metadata_string = [];
}
