-- ===== src/Daedalus/SuperFamicom.antt =====
-- daedalus/heuristics/super-famicom.cpp: the constructor of SuperFamicomCartridge.
pub mod Described
pub mod Bare
use mercurial_magic.Prelude.{
  ℕ, ◌-◌, ◌*◌, ◌%◌, Bool, ◌||◌, List, [], ◌∷◌, ◌++◌, Text, codes, join, when, ltb, ◌==◌,
  if◌then◌else◌, drop, Run, ok, ◌>>=◌,
}
use mercurial_magic.Daedalus.Cartridge.{
  Cartridge, Region, ntsc, pal, is, unknown, game_boy, satellaview, sufami_turbo,
  super_game_boy_1_bios, super_game_boy_2_bios, blank_cartridge,
}
use mercurial_magic.Daedalus.Header.{read_header}
use mercurial_magic.Daedalus.Boards.{board}
use mercurial_magic.Daedalus.Extras.{
  sharprtc_section, epsonrtc_section, obc1_section, dsp1_section, dsp2_section, dsp3_section,
  dsp4_section, st010_section, st011_section, st018_section, msu1_section,
}

-- `if(needed) { if((size & mask) == want) firmware_size = want; else firmware_missing = chip; }`,
-- for a mask of `modulus - 1`.
unfoldable pub need_firmware :
    (needed : Bool) (size modulus want : ℕ) (chip : Text) → Cartridge → Cartridge
need_firmware needed size modulus want chip c =
    if needed
    then (if size % modulus == want
        then record c { firmware_size = want }
        else record c { firmware_missing = chip })
    else c

unfoldable pub detect_firmware : (size : ℕ) → Cartridge → Cartridge
detect_firmware size c =
    let c₁ = need_firmware c.has_dsp1 size 0x8000 0x2000 (codes "DSP1") c in
    let c₂ = need_firmware c₁.has_dsp2 size 0x8000 0x2000 (codes "DSP2") c₁ in
    let c₃ = need_firmware c₂.has_dsp3 size 0x8000 0x2000 (codes "DSP3") c₂ in
    let c₄ = need_firmware c₃.has_dsp4 size 0x8000 0x2000 (codes "DSP4") c₃ in
    let c₅ = need_firmware c₄.has_st010 size 0x10000 0xd000 (codes "ST010") c₄ in
    let c₆ = need_firmware c₅.has_st011 size 0x10000 0xd000 (codes "ST011") c₅ in
    let c₇ = need_firmware c₆.has_st018 size 0x40000 0x28000 (codes "ST018") c₆ in
    let c₈ = need_firmware c₇.has_cx4 c₇.rom_size 0x8000 0xc00 (codes "CX4") c₇ in
    let c₉ =
      need_firmware (is c₈.type super_game_boy_1_bios) c₈.rom_size 0x8000 0x100 (codes "SGB1") c₈ in
    need_firmware (is c₉.type super_game_boy_2_bios) c₉.rom_size 0x8000 0x100 (codes "SGB2") c₉

unfoldable pub region_text : Region → Text
region_text ntsc = codes "NTSC"
region_text pal = codes "PAL"

unfoldable pub address_range : Cartridge → Text
address_range c =
    if ltb 0x200000 c.rom_size || ltb (32 * 1024) c.ram_size
    then codes "0000-7fff"
    else codes "0000-ffff"

-- The sections behind that of the board, in their order.
unfoldable pub extra_sections : (has_msu1 : Bool) → Cartridge → Text
extra_sections has_msu1 c = join (
    when c.has_sharprtc sharprtc_section
    ∷ when c.has_epsonrtc epsonrtc_section
    ∷ when c.has_obc1 obc1_section
    ∷ when c.has_dsp1 (dsp1_section c)
    ∷ when c.has_dsp2 dsp2_section
    ∷ when c.has_dsp3 dsp3_section
    ∷ when c.has_dsp4 dsp4_section
    ∷ when c.has_st010 st010_section
    ∷ when c.has_st011 st011_section
    ∷ when c.has_st018 st018_section
    ∷ when has_msu1 msu1_section
    ∷ [])

unfoldable pub is_invalid : Cartridge → Bool
is_invalid c =
    is c.type unknown || is c.type game_boy || is c.type satellaview || is c.type sufami_turbo

-- A copier puts 512 bytes in front of an image.
unfoldable pub has_copier_header : ℕ → Bool
has_copier_header size = size % 0x8000 == 512

module _ (hex : ℕ → Text) where
  -- The markup behind `cartridge region=`.
  unfoldable pub details : (has_msu1 : Bool) → Cartridge → Text
  details has_msu1 c = join (
      region_text c.region
      ∷ codes "\n"
      ∷ board hex (address_range c) c
      ∷ extra_sections has_msu1 c
      ∷ [])

  -- What the constructor does to a cartridge of a valid type.
  unfoldable pub describe : (size : ℕ) (has_msu1 : Bool) → Cartridge → Cartridge
  describe size has_msu1 c =
      let firm = detect_firmware size c in
      record firm { markup = c.markup ++ (codes "cartridge region=" ++ details has_msu1 firm) }

  unfoldable pub read_image : List ℕ → (size : ℕ) → Bool → Run Cartridge
  read_image image size has_msu1 = if ltb size 0x8000 then ok blank_cartridge else (do
    c ← read_header image size blank_cartridge
    ok (if is_invalid c then c else describe size has_msu1 c))

  unfoldable pub super_famicom_cartridge : List ℕ → (size : ℕ) → (has_msu1 : Bool) → Run Cartridge
  super_famicom_cartridge image size has_msu1 =
      if has_copier_header size
      then read_image (drop 512 image) (size - 512) has_msu1
      else read_image image size has_msu1
