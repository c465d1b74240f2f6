-- ===== src/Ramus.antt =====
-- ramus/: the header library of encoders, hashes and patch formats.
pub mod Memory
pub mod Bps
pub mod Ips
pub mod Adler32
pub mod Deflate
pub mod Zip
pub mod ShiftJis
pub mod Png
