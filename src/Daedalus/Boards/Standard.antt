-- ===== src/Daedalus/Boards/Standard.antt =====
-- daedalus/heuristics/super-famicom.cpp: the boards that the type of a cartridge stands for.
use mercurial_magic.Prelude.{ℕ, [], ◌∷◌, Text, codes, ltb, join, when}
use mercurial_magic.Daedalus.Cartridge.{Cartridge}

module _ (hex : ℕ → Text) where
  unfoldable pub lo_rom_board : Text → Cartridge → Text
  lo_rom_board range c = join (
      (join (codes "  rom name=program.rom size=0x" ∷ hex c.rom_size ∷ codes "\n" ∷ []))
      ∷ (when (ltb 0 c.ram_size)
          (join (codes "  ram name=save.ram size=0x" ∷ hex c.ram_size ∷ codes "\n" ∷ [])))
      ∷ (join (codes "  map id=rom address=00-7f,80-ff:8000-ffff mask=0x8000\n" ∷ []))
      ∷ (when (ltb 0 c.ram_size)
          (join (codes "  map id=ram address=70-7f,f0-ff:" ∷ range ∷ codes "\n" ∷ [])))
      ∷ [])

  unfoldable pub hi_rom_board : Cartridge → Text
  hi_rom_board c = join (
      (join (codes "  rom name=program.rom size=0x" ∷ hex c.rom_size ∷ codes "\n" ∷ []))
      ∷ (when (ltb 0 c.ram_size)
          (join (codes "  ram name=save.ram size=0x" ∷ hex c.ram_size ∷ codes "\n" ∷ [])))
      ∷ (join (
          codes "  map id=rom address=00-3f,80-bf:8000-ffff\n"
          ∷ codes "  map id=rom address=40-7f,c0-ff:0000-ffff\n"
          ∷ []))
      ∷ (when (ltb 0 c.ram_size)
          (join (codes "  map id=ram address=10-3f,90-bf:6000-7fff mask=0xe000\n" ∷ [])))
      ∷ [])

  unfoldable pub ex_lo_rom_board : Cartridge → Text
  ex_lo_rom_board c = join (
      (join (codes "  rom name=program.rom size=0x" ∷ hex c.rom_size ∷ codes "\n" ∷ []))
      ∷ (when (ltb 0 c.ram_size)
          (join (codes "  ram name=save.ram size=0x" ∷ hex c.ram_size ∷ codes "\n" ∷ [])))
      ∷ (join (
          codes "  map id=rom address=00-3f,80-bf:8000-ffff mask=0x8000\n"
          ∷ codes "  map id=rom address=40-7f:0000-ffff\n"
          ∷ []))
      ∷ (when (ltb 0 c.ram_size) (
          join (
            codes "  map id=ram address=20-3f,a0-bf:6000-7fff\n"
            ∷ codes "  map id=ram address=70-7f:0000-7fff\n"
            ∷ [])))
      ∷ [])

  unfoldable pub ex_hi_rom_board : Text → Cartridge → Text
  ex_hi_rom_board range c = join (
      (join (codes "  rom name=program.rom size=0x" ∷ hex c.rom_size ∷ codes "\n" ∷ []))
      ∷ (when (ltb 0 c.ram_size)
          (join (codes "  ram name=save.ram size=0x" ∷ hex c.ram_size ∷ codes "\n" ∷ [])))
      ∷ (join (
          codes "  map id=rom address=00-3f:8000-ffff base=0x400000\n"
          ∷ codes "  map id=rom address=40-7f:0000-ffff base=0x400000\n"
          ∷ codes "  map id=rom address=80-bf:8000-ffff mask=0xc00000\n"
          ∷ codes "  map id=rom address=c0-ff:0000-ffff mask=0xc00000\n"
          ∷ []))
      ∷ (when (ltb 0 c.ram_size) (
          join (
            codes "  map id=ram address=20-3f,a0-bf:6000-7fff mask=0xe000\n"
            ∷ codes "  map id=ram address=70-7f:"
            ∷ range
            ∷ codes "\n"
            ∷ [])))
      ∷ [])

  unfoldable pub super_fx_board : Cartridge → Text
  super_fx_board c = join (
      (join (
        codes "  superfx revision=3\n"
        ∷ codes "    rom name=program.rom size=0x"
        ∷ hex c.rom_size
        ∷ codes "\n"
        ∷ []))
      ∷ (when (ltb 0 c.ram_size)
          (join (codes "    ram name=save.ram size=0x" ∷ hex c.ram_size ∷ codes "\n" ∷ [])))
      ∷ (join (
          codes "    map id=io address=00-3f,80-bf:3000-32ff\n"
          ∷ codes "    map id=rom address=00-3f,80-bf:8000-ffff mask=0x8000\n"
          ∷ codes "    map id=rom address=40-5f,c0-df:0000-ffff\n"
          ∷ []))
      ∷ (when (ltb 0 c.ram_size) (
          join (
            codes "    map id=ram address=00-3f,80-bf:6000-7fff size=0x2000\n"
            ∷ codes "    map id=ram address=70-71,f0-f1:0000-ffff\n"
            ∷ [])))
      ∷ [])

  unfoldable pub sa1_board : Cartridge → Text
  sa1_board c = join (
      (join (
        codes "  sa1\n"
        ∷ codes "    rom name=program.rom size=0x"
        ∷ hex c.rom_size
        ∷ codes "\n"
        ∷ []))
      ∷ (when (ltb 0 c.ram_size) (
          join
            (codes "    ram id=bitmap name=save.ram size=0x" ∷ hex c.ram_size ∷ codes "\n" ∷ [])))
      ∷ (join (
          codes "    ram id=internal size=0x800\n"
          ∷ codes "    map id=io address=00-3f,80-bf:2200-23ff\n"
          ∷ codes "    map id=rom address=00-3f,80-bf:8000-ffff\n"
          ∷ codes "    map id=rom address=c0-ff:0000-ffff\n"
          ∷ []))
      ∷ (when (ltb 0 c.ram_size) (
          join (
            codes "    map id=bwram address=00-3f,80-bf:6000-7fff\n"
            ∷ codes "    map id=bwram address=40-4f:0000-ffff\n"
            ∷ [])))
      ∷ (join (codes "    map id=iram address=00-3f,80-bf:3000-37ff\n" ∷ []))
      ∷ [])

  unfoldable pub lo_rom_satellaview_board : Cartridge → Text
  lo_rom_satellaview_board c = join (
      codes "  rom name=program.rom size=0x"
      ∷ hex c.rom_size
      ∷ codes "\n"
      ∷ codes "  ram name=save.ram size=0x"
      ∷ hex c.ram_size
      ∷ codes "\n"
      ∷ codes "  map id=rom address=00-1f:8000-ffff base=0x000000 mask=0x8000\n"
      ∷ codes "  map id=rom address=20-3f:8000-ffff base=0x100000 mask=0x8000\n"
      ∷ codes "  map id=rom address=80-9f:8000-ffff base=0x200000 mask=0x8000\n"
      ∷ codes "  map id=rom address=a0-bf:8000-ffff base=0x100000 mask=0x8000\n"
      ∷ codes "  map id=ram address=70-7f,f0-ff:0000-7fff\n"
      ∷ codes "  satellaview\n"
      ∷ codes "    map id=rom address=c0-ef:0000-ffff\n"
      ∷ [])

  unfoldable pub hi_rom_satellaview_board : Cartridge → Text
  hi_rom_satellaview_board c = join (
      codes "  rom name=program.rom size=0x"
      ∷ hex c.rom_size
      ∷ codes "\n"
      ∷ codes "  ram name=save.ram size=0x"
      ∷ hex c.ram_size
      ∷ codes "\n"
      ∷ codes "  map id=rom address=00-1f,80-9f:8000-ffff\n"
      ∷ codes "  map id=rom address=40-5f,c0-df:0000-ffff\n"
      ∷ codes "  map id=ram address=20-3f,a0-bf:6000-7fff\n"
      ∷ codes "  satellaview\n"
      ∷ codes "    map id=rom address=20-3f,a0-bf:8000-ffff\n"
      ∷ codes "    map id=rom address=60-7f,e0-ff:0000-ffff\n"
      ∷ [])
