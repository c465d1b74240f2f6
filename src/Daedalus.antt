-- ===== src/Daedalus.antt =====
-- daedalus/: the tool that imports ROM images as cartridge folders of the emulator.
pub mod Cartridge
pub mod Score
pub mod Chips
pub mod Header
pub mod Boards
pub mod Extras
pub mod SuperFamicom
pub mod Host
pub mod Slots
pub mod Manifests
pub mod Import
