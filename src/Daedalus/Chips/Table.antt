-- ===== src/Daedalus/Chips/Table.antt =====
-- daedalus/heuristics/super-famicom.cpp: the coprocessors by a table of boards.
use mercurial_magic.Prelude.{
  ℕ, ◌≡◌, Bool, true, false, ◌||◌, ◌&&◌, ltb, ◌==◌, if◌then◌else◌, Option, none, some, arith,
}
use mercurial_magic.Daedalus.Cartridge.{Cartridge}
use mercurial_magic.Daedalus.Chips.{
  Header, is_superfx, is_sa1, is_sharprtc, is_sdd1, is_spc7110, is_cx4, is_dsp2, is_dsp3, is_dsp4,
  is_obc1, is_st010, is_st011, is_st018, is_dsp1_lo, is_dsp1_fast, is_dsp1_hi,
}
use mercurial_magic.Daedalus.Chips.Flags.{found_dsp1}

pub data Chip : Type 0 where
  chip_superfx chip_sa1 chip_sharprtc chip_sdd1 chip_spc7110 chip_cx4 chip_dsp1 chip_dsp2 chip_dsp3
        chip_dsp4 chip_obc1 chip_st010 chip_st011 chip_st018 :
      Chip

-- The flag of a chip.
abbrev pub flag : Chip → Cartridge → Bool
flag chip_superfx cart = cart.has_superfx
flag chip_sa1 cart = cart.has_sa1
flag chip_sharprtc cart = cart.has_sharprtc
flag chip_sdd1 cart = cart.has_sdd1
flag chip_spc7110 cart = cart.has_spc7110
flag chip_cx4 cart = cart.has_cx4
flag chip_dsp1 cart = cart.has_dsp1
flag chip_dsp2 cart = cart.has_dsp2
flag chip_dsp3 cart = cart.has_dsp3
flag chip_dsp4 cart = cart.has_dsp4
flag chip_obc1 cart = cart.has_obc1
flag chip_st010 cart = cart.has_st010
flag chip_st011 cart = cart.has_st011
flag chip_st018 cart = cart.has_st018

-- The condition under which readHeader sets the flag.
abbrev pub test : Chip → Header → Bool
test chip_superfx h = is_superfx h
test chip_sa1 h = is_sa1 h
test chip_sharprtc h = is_sharprtc h
test chip_sdd1 h = is_sdd1 h
test chip_spc7110 h = is_spc7110 h
test chip_cx4 h = is_cx4 h
test chip_dsp1 h = found_dsp1 h false
test chip_dsp2 h = is_dsp2 h
test chip_dsp3 h = is_dsp3 h
test chip_dsp4 h = is_dsp4 h
test chip_obc1 h = is_obc1 h
test chip_st010 h = is_st010 h
test chip_st011 h = is_st011 h
test chip_st018 h = is_st018 h

-- The board with Epson's clock, which has an SPC7110 too.
abbrev pub has_clock : Header → Bool
has_clock h = h.mapper_id == 0x3a && h.rom_type == 0xf9

-- The boards by their map mode and cartridge type, as developers list them. Two boards share their
-- numbers, and the company or the size of the ROM tells them apart.
abbrev pub chip_of_fast : (rom_type company rom_size : ℕ) → Option Chip
chip_of_fast rom_type company rom_size =
    if rom_type == 0x03
    then some chip_dsp4
    else if rom_type == 0x05
    then (if company == 0xb2 then some chip_dsp3 else some chip_dsp1)
    else if rom_type == 0x25
    then some chip_obc1
    else if rom_type == 0xf5
    then some chip_st018
    else if rom_type == 0xf6
    then (if ltb rom_size 10 then some chip_st011 else some chip_st010)
    else none

abbrev pub chip_of_slow : (rom_type : ℕ) → Option Chip
chip_of_slow rom_type =
    if rom_type == 0x03
    then some chip_dsp1
    else if rom_type == 0x05
    then some chip_dsp2
    else if rom_type == 0xf3
    then some chip_cx4
    else if rom_type == 0x13 || rom_type == 0x14 || rom_type == 0x15 || rom_type == 0x1a
    then some chip_superfx
    else none

abbrev pub chip_of : Header → Option Chip
chip_of h =
    if h.mapper_id == 0x20
    then chip_of_slow h.rom_type
    else if h.mapper_id == 0x30
    then chip_of_fast h.rom_type h.company h.rom_size
    else if h.mapper_id == 0x21
    then (if h.rom_type == 0x03 then some chip_dsp1 else none)
    else if h.mapper_id == 0x31
    then (if h.rom_type == 0x03 || h.rom_type == 0x05 then some chip_dsp1 else none)
    else if h.mapper_id == 0x23
    then (if h.rom_type == 0x32 || h.rom_type == 0x34 || h.rom_type == 0x35
        then some chip_sa1
        else none)
    else if h.mapper_id == 0x32
    then (if h.rom_type == 0x43 || h.rom_type == 0x45 then some chip_sdd1 else none)
    else if h.mapper_id == 0x35
    then (if h.rom_type == 0x55 then some chip_sharprtc else none)
    else if h.mapper_id == 0x3a
    then (if h.rom_type == 0xf5 || h.rom_type == 0xf9 then some chip_spc7110 else none)
    else none

pub test→chip_of : (h : Header) (k : Chip) → test k h ≡ true → chip_of h ≡ some k
unfolding is_superfx is_sa1 is_sharprtc is_sdd1 is_spc7110 is_cx4 is_dsp2 is_dsp3 is_dsp4 is_obc1
    is_st010 is_st011 is_st018 is_dsp1_lo is_dsp1_fast is_dsp1_hi
test→chip_of h chip_superfx e = ground arith
test→chip_of h chip_sa1 e = ground arith
test→chip_of h chip_sharprtc e = ground arith
test→chip_of h chip_sdd1 e = ground arith
test→chip_of h chip_spc7110 e = ground arith
test→chip_of h chip_cx4 e = ground arith
test→chip_of h chip_dsp1 e = ground arith
test→chip_of h chip_dsp2 e = ground arith
test→chip_of h chip_dsp3 e = ground arith
test→chip_of h chip_dsp4 e = ground arith
test→chip_of h chip_obc1 e = ground arith
test→chip_of h chip_st010 e = ground arith
test→chip_of h chip_st011 e = ground arith
test→chip_of h chip_st018 e = ground arith

pub chip_of→test : (h : Header) (k : Chip) → chip_of h ≡ some k → test k h ≡ true
unfolding is_superfx is_sa1 is_sharprtc is_sdd1 is_spc7110 is_cx4 is_dsp2 is_dsp3 is_dsp4 is_obc1
    is_st010 is_st011 is_st018 is_dsp1_lo is_dsp1_fast is_dsp1_hi
chip_of→test h chip_superfx e = ground arith
chip_of→test h chip_sa1 e = ground arith
chip_of→test h chip_sharprtc e = ground arith
chip_of→test h chip_sdd1 e = ground arith
chip_of→test h chip_spc7110 e = ground arith
chip_of→test h chip_cx4 e = ground arith
chip_of→test h chip_dsp1 e = ground arith
chip_of→test h chip_dsp2 e = ground arith
chip_of→test h chip_dsp3 e = ground arith
chip_of→test h chip_dsp4 e = ground arith
chip_of→test h chip_obc1 e = ground arith
chip_of→test h chip_st010 e = ground arith
chip_of→test h chip_st011 e = ground arith
chip_of→test h chip_st018 e = ground arith
