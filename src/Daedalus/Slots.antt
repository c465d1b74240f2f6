-- ===== src/Daedalus/Slots.antt =====
-- daedalus/heuristics/sufami-turbo.cpp and bs-memory.cpp: the markup of the small cartridges.
use mercurial_magic.Prelude.{
  ℕ, ◌*◌, Bool, not, List, [], ◌∷◌, Text, codes, join, when, ltb, ◌==◌, if◌then◌else◌, Run, ok,
  ◌>>=◌, u32,
}
use mercurial_magic.Ramus.Memory.{fetch}
use mercurial_magic.Daedalus.Cartridge.{same_memory}

module _ (hex : ℕ → Text) where
  unfoldable pub sufami_turbo_markup : (romsize ramsize : ℕ) (linkable : Bool) → Text
  sufami_turbo_markup romsize ramsize linkable = join (
      codes "cartridge"
      ∷ when linkable (codes " linkable")
      ∷ codes "\n"
      ∷ codes "  rom name=program.rom size=0x"
      ∷ hex romsize
      ∷ codes "\n"
      ∷ when (not (ramsize == 0))
          (join (codes "  ram name=save.ram size=0x" ∷ hex ramsize ∷ codes "\n" ∷ []))
      ∷ [])

  unfoldable pub sufami_turbo_cartridge : List ℕ → (size : ℕ) → Run Text
  sufami_turbo_cartridge image size = if ltb size 0x20000 then ok [] else (do
    header ← same_memory image 0 (codes "BANDAI SFC-ADX")
    if header
        then (do
          rom ← fetch image 0x36
          ram ← fetch image 0x37
          link ← fetch image 0x35
          ok (sufami_turbo_markup (u32 (rom * 0x20000)) (u32 (ram * 0x800)) (not (link == 0x00))))
        else ok [])

  unfoldable pub bs_memory_cartridge : (size : ℕ) → Text
  bs_memory_cartridge size = join (
      codes "cartridge\n"
      ∷ codes "  rom name=program.rom size=0x"
      ∷ hex size
      ∷ codes " type=FlashROM\n"
      ∷ [])
