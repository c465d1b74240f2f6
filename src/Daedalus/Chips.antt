-- ===== src/Daedalus/Chips.antt =====
-- daedalus/heuristics/super-famicom.cpp: the part of readHeader that finds the coprocessors.
pub mod Flags
pub mod Table
pub mod One
use Prim.Native.Nat.{bit_and}
use mercurial_magic.Prelude.{
  ℕ, ◌-◌, ◌*◌, ◌%◌, ◌^◌, Bool, true, not, ◌&&◌, ◌||◌, List, ltb, leb, ◌==◌, if◌then◌else◌, Run, ok,
  ◌>>=◌,
}
use mercurial_magic.Ramus.Memory.{fetch}
use mercurial_magic.Daedalus.Cartridge.{
  Cartridge, Dsp1Type, super_fx, sa1, dsp1_lo_rom_1mb, dsp1_lo_rom_2mb, dsp1_hi_rom,
}

-- What readHeader keeps of the header in its locals.
pub record Header : Type 0 where
  pub index : ℕ
  pub mapper_id : ℕ
  pub rom_type : ℕ
  pub rom_size : ℕ
  pub company : ℕ
  pub region_id : ℕ
  pub complement : ℕ
  pub checksum : ℕ

-- `1024 << (n & 7)`, but no RAM where that is 1024.
unfoldable pub ram_bytes : ℕ → ℕ
ram_bytes n = let ram = 1024 * 2 ^ (n % 8) in if ram == 1024 then 0 else ram

unfoldable pub is_superfx : Header → Bool
is_superfx h =
    h.mapper_id == 0x20
    && (h.rom_type == 0x13 || h.rom_type == 0x14 || h.rom_type == 0x15 || h.rom_type == 0x1a)

-- The RAM of a Super FX board has its size in the extended header.
unfoldable pub detect_superfx : List ℕ → Header → Cartridge → Run Cartridge
detect_superfx image h c =
    if is_superfx h
    then (do
      ram ← fetch image (h.index - 3)
      ok (record c { has_superfx = true; type = super_fx; ram_size = ram_bytes ram }))
    else ok c

unfoldable pub is_sa1 : Header → Bool
is_sa1 h = h.mapper_id == 0x23 && (h.rom_type == 0x32 || h.rom_type == 0x34 || h.rom_type == 0x35)

unfoldable pub detect_sa1 : Header → Cartridge → Cartridge
detect_sa1 h c = if is_sa1 h then record c { has_sa1 = true; type = sa1 } else c

unfoldable pub is_sharprtc : Header → Bool
is_sharprtc h = h.mapper_id == 0x35 && h.rom_type == 0x55

unfoldable pub detect_sharprtc : Header → Cartridge → Cartridge
detect_sharprtc h c = if is_sharprtc h then record c { has_sharprtc = true } else c

unfoldable pub is_sdd1 : Header → Bool
is_sdd1 h = h.mapper_id == 0x32 && (h.rom_type == 0x43 || h.rom_type == 0x45)

unfoldable pub detect_sdd1 : Header → Cartridge → Cartridge
detect_sdd1 h c = if is_sdd1 h then record c { has_sdd1 = true } else c

unfoldable pub is_spc7110 : Header → Bool
is_spc7110 h = h.mapper_id == 0x3a && (h.rom_type == 0xf5 || h.rom_type == 0xf9)

unfoldable pub detect_spc7110 : Header → Cartridge → Cartridge
detect_spc7110 h c =
    if is_spc7110 h then record c { has_spc7110 = true; has_epsonrtc = h.rom_type == 0xf9 } else c

unfoldable pub is_cx4 : Header → Bool
is_cx4 h = h.mapper_id == 0x20 && h.rom_type == 0xf3

unfoldable pub detect_cx4 : Header → Cartridge → Cartridge
detect_cx4 h c = if is_cx4 h then record c { has_cx4 = true } else c

-- The three tests that set has_dsp1.
unfoldable pub is_dsp1_fast : Header → Bool
is_dsp1_fast h = h.mapper_id == 0x30 && h.rom_type == 0x05 && not (h.company == 0xb2)

unfoldable pub is_dsp1_lo : Header → Bool
is_dsp1_lo h = (h.mapper_id == 0x20 || h.mapper_id == 0x21) && h.rom_type == 0x03

unfoldable pub is_dsp1_hi : Header → Bool
is_dsp1_hi h = h.mapper_id == 0x31 && (h.rom_type == 0x03 || h.rom_type == 0x05)

unfoldable pub detect_dsp1 : Header → Cartridge → Cartridge
detect_dsp1 h c =
    let c₁ = if is_dsp1_lo h then record c { has_dsp1 = true } else c in
    let c₂ = if is_dsp1_fast h then record c₁ { has_dsp1 = true } else c₁ in
    if is_dsp1_hi h then record c₂ { has_dsp1 = true } else c₂

unfoldable pub choose_dsp1 : (mapper_id size : ℕ) → Dsp1Type → Dsp1Type
choose_dsp1 mapper_id size old =
    if bit_and mapper_id 0x2f == 0x20 && leb size 0x100000
    then dsp1_lo_rom_1mb
    else if bit_and mapper_id 0x2f == 0x20
    then dsp1_lo_rom_2mb
    else if bit_and mapper_id 0x2f == 0x21
    then dsp1_hi_rom
    else old

unfoldable pub set_dsp1_type : Header → (size : ℕ) → Cartridge → Cartridge
set_dsp1_type h size c =
    if c.has_dsp1 then record c { dsp1_type = choose_dsp1 h.mapper_id size c.dsp1_type } else c

unfoldable pub is_dsp2 : Header → Bool
is_dsp2 h = h.mapper_id == 0x20 && h.rom_type == 0x05

unfoldable pub detect_dsp2 : Header → Cartridge → Cartridge
detect_dsp2 h c = if is_dsp2 h then record c { has_dsp2 = true } else c

unfoldable pub is_dsp3 : Header → Bool
is_dsp3 h = h.mapper_id == 0x30 && h.rom_type == 0x05 && h.company == 0xb2

unfoldable pub detect_dsp3 : Header → Cartridge → Cartridge
detect_dsp3 h c = if is_dsp3 h then record c { has_dsp3 = true } else c

unfoldable pub is_dsp4 : Header → Bool
is_dsp4 h = h.mapper_id == 0x30 && h.rom_type == 0x03

unfoldable pub detect_dsp4 : Header → Cartridge → Cartridge
detect_dsp4 h c = if is_dsp4 h then record c { has_dsp4 = true } else c

unfoldable pub is_obc1 : Header → Bool
is_obc1 h = h.mapper_id == 0x30 && h.rom_type == 0x25

unfoldable pub detect_obc1 : Header → Cartridge → Cartridge
detect_obc1 h c = if is_obc1 h then record c { has_obc1 = true } else c

unfoldable pub is_st010 : Header → Bool
is_st010 h = h.mapper_id == 0x30 && h.rom_type == 0xf6 && leb 10 h.rom_size

unfoldable pub detect_st010 : Header → Cartridge → Cartridge
detect_st010 h c = if is_st010 h then record c { has_st010 = true } else c

unfoldable pub is_st011 : Header → Bool
is_st011 h = h.mapper_id == 0x30 && h.rom_type == 0xf6 && ltb h.rom_size 10

unfoldable pub detect_st011 : Header → Cartridge → Cartridge
detect_st011 h c = if is_st011 h then record c { has_st011 = true } else c

unfoldable pub is_st018 : Header → Bool
is_st018 h = h.mapper_id == 0x30 && h.rom_type == 0xf5

unfoldable pub detect_st018 : Header → Cartridge → Cartridge
detect_st018 h c = if is_st018 h then record c { has_st018 = true } else c

-- The tests behind that of the Super FX, the first one applied first.
unfoldable pub detect_chips : Header → (size : ℕ) → Cartridge → Cartridge
detect_chips h size c = detect_st018 h (
    detect_st011 h (
      detect_st010 h (
        detect_obc1 h (
          detect_dsp4 h (
            detect_dsp3 h (
              detect_dsp2 h (
                set_dsp1_type h size (
                  detect_dsp1 h (
                    detect_cx4 h (
                      detect_spc7110 h
                        (detect_sdd1 h (detect_sharprtc h (detect_sa1 h c)))))))))))))

unfoldable pub detect_coprocessors : List ℕ → Header → (size : ℕ) → Cartridge → Run Cartridge
detect_coprocessors image h size c = do c' ← detect_superfx image h c; ok (detect_chips h size c')
