-- ===== src/Daedalus/Boards.antt =====
-- daedalus/heuristics/super-famicom.cpp: the board that SuperFamicomCartridge describes.
pub mod Special
pub mod Standard
use mercurial_magic.Prelude.{ℕ, [], Text, if◌then◌else◌}
use mercurial_magic.Daedalus.Cartridge.{
  Cartridge, is, satellaview_bios, sufami_turbo_bios, super_game_boy_1_bios, super_game_boy_2_bios,
  lo_rom, hi_rom, ex_lo_rom, ex_hi_rom, super_fx, sa1, lo_rom_satellaview, hi_rom_satellaview,
}
use mercurial_magic.Daedalus.Boards.Special.{
  satellaview_bios_board, sufami_turbo_bios_board, super_game_boy_1_bios_board,
  super_game_boy_2_bios_board, cx4_board, spc7110_board, sdd1_board,
}
use mercurial_magic.Daedalus.Boards.Standard.{
  lo_rom_board, hi_rom_board, ex_lo_rom_board, ex_hi_rom_board, super_fx_board, sa1_board,
  lo_rom_satellaview_board, hi_rom_satellaview_board,
}

-- `hex` prints a number in base 16. The boards that no test names have no text.
unfoldable pub board : (ℕ → Text) → (range : Text) → Cartridge → Text
board hex range c =
    if is c.type satellaview_bios
    then satellaview_bios_board hex c
    else if is c.type sufami_turbo_bios
    then sufami_turbo_bios_board hex c
    else if is c.type super_game_boy_1_bios
    then super_game_boy_1_bios_board hex c
    else if is c.type super_game_boy_2_bios
    then super_game_boy_2_bios_board hex c
    else if c.has_cx4
    then cx4_board hex c
    else if c.has_spc7110
    then spc7110_board hex c
    else if c.has_sdd1
    then sdd1_board hex c
    else if is c.type lo_rom
    then lo_rom_board hex range c
    else if is c.type hi_rom
    then hi_rom_board hex c
    else if is c.type ex_lo_rom
    then ex_lo_rom_board hex c
    else if is c.type ex_hi_rom
    then ex_hi_rom_board hex range c
    else if is c.type super_fx
    then super_fx_board hex c
    else if is c.type sa1
    then sa1_board hex c
    else if is c.type lo_rom_satellaview
    then lo_rom_satellaview_board hex c
    else if is c.type hi_rom_satellaview
    then hi_rom_satellaview_board hex c
    else []
