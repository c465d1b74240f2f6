-- ===== src/Daedalus/Boards/Special.antt =====
-- daedalus/heuristics/super-famicom.cpp: the boards of the BIOS cartridges and of three coprocessors.
use mercurial_magic.Prelude.{ℕ, ◌+◌, ◌-◌, [], ◌∷◌, Text, codes, ltb, u32, join, when}
use mercurial_magic.Daedalus.Cartridge.{Cartridge}

module _ (hex : ℕ → Text) where
  unfoldable pub satellaview_bios_board : Cartridge → Text
  satellaview_bios_board c = join (
      (join (
        codes "  mcc\n"
        ∷ codes "    rom name=program.rom size=0x"
        ∷ hex c.rom_size
        ∷ codes "\n"
        ∷ codes "    ram id=save name=save.ram size=0x"
        ∷ hex c.ram_size
        ∷ codes "\n"
        ∷ codes "    ram id=download name=download.ram size=0x80000\n"
        ∷ codes "    map id=io address=00-3f,80-bf:5000-5fff\n"
        ∷ codes "    map id=rom address=00-3f,80-bf:8000-ffff\n"
        ∷ codes "    map id=rom address=40-7f,c0-ff:0000-ffff\n"
        ∷ codes "    map id=ram address=20-3f:6000-7fff\n"
        ∷ []))
      ∷ (join (
          codes "  bsx\n"
          ∷ codes "    rom name=program.rom size=0x"
          ∷ hex c.rom_size
          ∷ codes "\n"
          ∷ codes "    ram name=save.ram size=0x"
          ∷ hex c.ram_size
          ∷ codes "\n"
          ∷ codes "    psram name=download.ram size=0x80000\n"
          ∷ codes "    map id=io address=00-3f,80-bf:5000-5fff\n"
          ∷ codes "    map id=rom address=00-3f,80-bf:8000-ffff\n"
          ∷ codes "    map id=rom address=40-7f,c0-ff:0000-ffff\n"
          ∷ codes "    map id=ram address=20-3f:6000-7fff\n"
          ∷ []))
      ∷ [])

  unfoldable pub sufami_turbo_bios_board : Cartridge → Text
  sufami_turbo_bios_board c = join (
      codes "  rom name=program.rom size=0x"
      ∷ hex c.rom_size
      ∷ codes "\n"
      ∷ codes "  map id=rom address=00-1f,80-9f:8000-ffff mask=0x8000\n"
      ∷ codes "  sufamiturbo\n"
      ∷ codes "    map id=rom address=20-3f,a0-bf:8000-ffff mask=0x8000\n"
      ∷ codes "    map id=ram address=60-6f,e0-ef:0000-ffff\n"
      ∷ codes "  sufamiturbo\n"
      ∷ codes "    map id=rom address=40-5f,c0-df:0000-7fff mask=0x8000\n"
      ∷ codes "    map id=rom address=40-5f,c0-df:8000-ffff mask=0x8000\n"
      ∷ codes "    map id=ram address=70-7f,f0-ff:0000-ffff\n"
      ∷ [])

  unfoldable pub super_game_boy_1_bios_board : Cartridge → Text
  super_game_boy_1_bios_board c = join (
      codes "  rom name=program.rom size=0x"
      ∷ hex c.rom_size
      ∷ codes "\n"
      ∷ codes "  map id=rom address=00-7f,80-ff:8000-ffff mask=0x8000\n"
      ∷ codes "  icd2 revision=1\n"
      ∷ codes "    rom name=sgb1.boot.rom size=0x100\n"
      ∷ codes "    map id=io address=00-3f,80-bf:6000-7fff\n"
      ∷ [])

  unfoldable pub super_game_boy_2_bios_board : Cartridge → Text
  super_game_boy_2_bios_board c = join (
      codes "  rom name=program.rom size=0x"
      ∷ hex c.rom_size
      ∷ codes "\n"
      ∷ codes "  map id=rom address=00-7f,80-ff:8000-ffff mask=0x8000\n"
      ∷ codes "  icd2 revision=2\n"
      ∷ codes "    rom name=sgb2.boot.rom size=0x100\n"
      ∷ codes "    map id=io address=00-3f,80-bf:6000-7fff\n"
      ∷ [])

  unfoldable pub cx4_board : Cartridge → Text
  cx4_board c = join (
      codes "  hitachidsp model=HG51B169 frequency=20000000\n"
      ∷ codes "    rom id=program name=program.rom size=0x"
      ∷ hex c.rom_size
      ∷ codes "\n"
      ∷ codes "    ram id=save size=0\n"
      ∷ codes "    rom id=data name=cx4.data.rom size=0xc00\n"
      ∷ codes "    ram id=data size=0xc00\n"
      ∷ codes "    map id=io address=00-3f,80-bf:6000-7fff\n"
      ∷ codes "    map id=rom address=00-7f,80-ff:8000-ffff mask=0x8000\n"
      ∷ codes "    map id=ram address=70-77:0000-7fff\n"
      ∷ [])

  unfoldable pub spc7110_board : Cartridge → Text
  spc7110_board c = join (
      codes "  spc7110\n"
      ∷ codes "    rom id=program name=program.rom size=0x100000\n"
      ∷ codes "    rom id=data name=data.rom size=0x"
      ∷ hex (u32 (c.rom_size + 4294967296 - 0x100000))
      ∷ codes "\n"
      ∷ codes "    ram name=save.ram size=0x"
      ∷ hex c.ram_size
      ∷ codes "\n"
      ∷ codes "    map id=io address=00-3f,80-bf:4800-483f\n"
      ∷ codes "    map id=io address=50:0000-ffff\n"
      ∷ codes "    map id=rom address=00-3f,80-bf:8000-ffff\n"
      ∷ codes "    map id=rom address=c0-ff:0000-ffff\n"
      ∷ codes "    map id=ram address=00-3f,80-bf:6000-7fff mask=0xe000\n"
      ∷ [])

  unfoldable pub sdd1_board : Cartridge → Text
  sdd1_board c = join (
      (join (
        codes "  sdd1\n"
        ∷ codes "    rom name=program.rom size=0x"
        ∷ hex c.rom_size
        ∷ codes "\n"
        ∷ []))
      ∷ (when (ltb 0 c.ram_size)
          (join (codes "    ram name=save.ram size=0x" ∷ hex c.ram_size ∷ codes "\n" ∷ [])))
      ∷ (join (
          codes "    map id=io address=00-3f,80-bf:4800-4807\n"
          ∷ codes "    map id=rom address=00-3f,80-bf:8000-ffff mask=0x8000\n"
          ∷ codes "    map id=rom address=c0-ff:0000-ffff\n"
          ∷ []))
      ∷ (when (ltb 0 c.ram_size) (
          join (
            codes "    map id=ram address=20-3f,a0-bf:6000-7fff mask=0xe000\n"
            ∷ codes "    map id=ram address=70-7f:0000-7fff\n"
            ∷ [])))
      ∷ [])
