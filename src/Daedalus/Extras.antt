-- ===== src/Daedalus/Extras.antt =====
-- daedalus/heuristics/super-famicom.cpp: the sections of the markup behind that of the board.
use mercurial_magic.Prelude.{Bool, true, false, [], ◌∷◌, Text, codes, join, when}
use mercurial_magic.Daedalus.Cartridge.{
  Cartridge, Dsp1Type, dsp1_none, dsp1_lo_rom_1mb, dsp1_lo_rom_2mb, dsp1_hi_rom,
}

unfoldable pub is_dsp1 : Dsp1Type → Dsp1Type → Bool
is_dsp1 dsp1_none dsp1_none = true
is_dsp1 dsp1_lo_rom_1mb dsp1_lo_rom_1mb = true
is_dsp1 dsp1_lo_rom_2mb dsp1_lo_rom_2mb = true
is_dsp1 dsp1_hi_rom dsp1_hi_rom = true
is_dsp1 a b = false

unfoldable pub sharprtc_section : Text
sharprtc_section = join (
    codes "  sharprtc\n"
    ∷ codes "    ram name=rtc.ram size=0x10\n"
    ∷ codes "    map id=io address=00-3f,80-bf:2800-2801\n"
    ∷ [])

unfoldable pub epsonrtc_section : Text
epsonrtc_section = join (
    codes "  epsonrtc\n"
    ∷ codes "    ram name=rtc.ram size=0x10\n"
    ∷ codes "    map id=io address=00-3f,80-bf:4840-4842\n"
    ∷ [])

unfoldable pub obc1_section : Text
obc1_section = join (
    codes "  obc1\n"
    ∷ codes "    ram name=save.ram size=0x2000\n"
    ∷ codes "    map id=io address=00-3f,80-bf:6000-7fff\n"
    ∷ [])

unfoldable pub dsp1_section : Cartridge → Text
dsp1_section c = join (
    (join (
      codes "  necdsp model=uPD7725 frequency=8000000\n"
      ∷ codes "    rom id=program name=dsp1b.program.rom size=0x1800\n"
      ∷ codes "    rom id=data name=dsp1b.data.rom size=0x800\n"
      ∷ codes "    ram id=data size=0x200\n"
      ∷ []))
    ∷ (when (is_dsp1 c.dsp1_type dsp1_lo_rom_1mb)
        (join (codes "    map id=io address=20-3f,a0-bf:8000-ffff select=0x4000\n" ∷ [])))
    ∷ (when (is_dsp1 c.dsp1_type dsp1_lo_rom_2mb)
        (join (codes "    map id=io address=60-6f,e0-ef:0000-7fff select=0x4000\n" ∷ [])))
    ∷ (when (is_dsp1 c.dsp1_type dsp1_hi_rom)
        (join (codes "    map id=io address=00-1f,80-9f:6000-7fff select=0x1000\n" ∷ [])))
    ∷ [])

unfoldable pub dsp2_section : Text
dsp2_section = join (
    codes "  necdsp model=uPD7725 frequency=8000000\n"
    ∷ codes "    rom id=program name=dsp2.program.rom size=0x1800\n"
    ∷ codes "    rom id=data name=dsp2.data.rom size=0x800\n"
    ∷ codes "    ram id=data size=0x200\n"
    ∷ codes "    map id=io address=20-3f,a0-bf:8000-ffff select=0x4000\n"
    ∷ [])

unfoldable pub dsp3_section : Text
dsp3_section = join (
    codes "  necdsp model=uPD7725 frequency=8000000\n"
    ∷ codes "    rom id=program name=dsp3.program.rom size=0x1800\n"
    ∷ codes "    rom id=data name=dsp3.data.rom size=0x800\n"
    ∷ codes "    ram id=data size=0x200\n"
    ∷ codes "    map id=io address=20-3f,a0-bf:8000-ffff select=0x4000\n"
    ∷ [])

unfoldable pub dsp4_section : Text
dsp4_section = join (
    codes "  necdsp model=uPD7725 frequency=8000000\n"
    ∷ codes "    rom id=program name=dsp4.program.rom size=0x1800\n"
    ∷ codes "    rom id=data name=dsp4.data.rom size=0x800\n"
    ∷ codes "    ram id=data size=0x200\n"
    ∷ codes "    map id=io address=30-3f,b0-bf:8000-ffff select=0x4000\n"
    ∷ [])

unfoldable pub st010_section : Text
st010_section = join (
    codes "  necdsp model=uPD96050 frequency=11000000\n"
    ∷ codes "    rom id=program name=st010.program.rom size=0xc000\n"
    ∷ codes "    rom id=data name=st010.data.rom size=0x1000\n"
    ∷ codes "    ram id=data name=save.ram size=0x1000\n"
    ∷ codes "    map id=io address=60-67,e0-e7:0000-3fff select=0x0001\n"
    ∷ codes "    map id=ram address=68-6f,e8-ef:0000-7fff\n"
    ∷ [])

unfoldable pub st011_section : Text
st011_section = join (
    codes "  necdsp model=uPD96050 frequency=15000000\n"
    ∷ codes "    rom id=program name=st011.program.rom size=0xc000\n"
    ∷ codes "    rom id=data name=st011.data.rom size=0x1000\n"
    ∷ codes "    ram id=data name=save.ram size=0x1000\n"
    ∷ codes "    map id=io address=60-67,e0-e7:0000-3fff select=0x0001\n"
    ∷ codes "    map id=ram address=68-6f,e8-ef:0000-7fff\n"
    ∷ [])

unfoldable pub st018_section : Text
st018_section = join (
    codes "  armdsp frequency=21477272\n"
    ∷ codes "    rom id=program name=st018.program.rom size=0x20000\n"
    ∷ codes "    rom id=data name=st018.data.rom size=0x8000\n"
    ∷ codes "    ram name=save.ram size=0x4000\n"
    ∷ codes "    map id=io address=00-3f,80-bf:3800-38ff\n"
    ∷ [])

unfoldable pub msu1_section : Text
msu1_section = join (
    codes "  msu1\n"
    ∷ codes "    map id=io address=00-3f,80-bf:2000-2007\n"
    ∷ codes "    rom name=msu1.rom\n"
    ∷ [])
