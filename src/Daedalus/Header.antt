-- ===== src/Daedalus/Header.antt =====
-- daedalus/heuristics/super-famicom.cpp: readHeader. Its early returns before the boards of
-- standard cartridges give `some` cartridge.
use Prim.Native.Nat.{bit_and}
pub mod Reads
pub mod Special
pub mod Safety
use mercurial_magic.Prelude.{
  ℕ, ◌+◌, ◌-◌, Bool, true, false, ◌&&◌, ◌||◌, Option, none, some, List, [], ◌∷◌, Text, codes, leb,
  ◌==◌, if◌then◌else◌, Run, ok, ◌>>=◌,
}
use mercurial_magic.Ramus.Memory.{fetch}
use mercurial_magic.Daedalus.Cartridge.{
  mapper_field, rom_type_field, rom_size_field, ram_size_field, region_field, company_field,
  complement_field, checksum_field, word_at, same_memory, is, Cartridge, ntsc, pal, game_boy,
  satellaview, sufami_turbo, sufami_turbo_bios, super_game_boy_1_bios, super_game_boy_2_bios,
  campus_challenge_92, powerfest_94, satellaview_bios, lo_rom, hi_rom, ex_lo_rom, ex_hi_rom,
  lo_rom_satellaview, hi_rom_satellaview, unknown,
}
use mercurial_magic.Daedalus.Score.{find_header}
use mercurial_magic.Daedalus.Chips.{Header, ram_bytes, detect_coprocessors}

-- The first bytes of the logo that a Game Boy cartridge shows.
abbrev pub game_boy_logo : List ℕ
game_boy_logo = 0xce ∷ 0xed ∷ 0x66 ∷ 0x66 ∷ 0xcc ∷ 0x0d ∷ 0x00 ∷ 0x0b ∷ []

unfoldable pub is_game_boy : List ℕ → ℕ → Run Bool
is_game_boy image size =
    if leb 0x0140 size then same_memory image 0x0104 game_boy_logo else ok false

unfoldable pub read_fields : List ℕ → ℕ → Run Header
read_fields image index = do
  mapper_id ← fetch image (index + mapper_field)
  rom_type ← fetch image (index + rom_type_field)
  rom_size ← fetch image (index + rom_size_field)
  company ← fetch image (index + company_field)
  region ← fetch image (index + region_field)
  complement ← word_at image (index + complement_field)
  checksum ← word_at image (index + checksum_field)
  ok (record {
    index = index;
    mapper_id = mapper_id;
    rom_type = rom_type;
    rom_size = rom_size;
    company = company;
    region_id = bit_and region 0x7f;
    complement = complement;
    checksum = checksum;
  })

-- The sizes and the region. A header without a ROM size has its sizes swapped.
unfoldable pub set_sizes : Header → (size ram : ℕ) → Cartridge → Cartridge
set_sizes h size ram c = record c {
  rom_size = size;
  ram_size = if h.rom_size == 0 then 0 else ram_bytes ram;
  region = if leb h.region_id 1 || leb 13 h.region_id then ntsc else pal;
}

unfoldable pub is_satellaview_type : ℕ → Bool
is_satellaview_type n = n == 0x00 || n == 0x80 || n == 0x84 || n == 0x9c || n == 0xbc || n == 0xfc

unfoldable pub is_satellaview : List ℕ → ℕ → Run Bool
is_satellaview image index = do
  n13 ← fetch image (index + 0x13)
  if n13 == 0x00 || n13 == 0xff
      then (do
        n14 ← fetch image (index + 0x14)
        if n14 == 0x00
            then (do
              n15 ← fetch image (index + 0x15)
              if is_satellaview_type n15
                  then (do n1a ← fetch image (index + 0x1a); ok (n1a == 0x33 || n1a == 0xff))
                  else ok false)
            else ok false)
      else ok false

-- The titles of the competition cartridges.
abbrev pub campus_title : List ℕ
campus_title =
    0x00 ∷ 0x08 ∷ 0x22 ∷ 0x02 ∷ 0x1c ∷ 0x00 ∷ 0x10 ∷ 0x00 ∷ 0x08 ∷ 0x65 ∷ 0x80 ∷ 0x84 ∷ 0x20 ∷ 0x00
    ∷ 0x22 ∷ 0x25 ∷ 0x00 ∷ 0x83 ∷ 0x0c ∷ 0x80 ∷ 0x10 ∷ []

abbrev pub powerfest_title : List ℕ
powerfest_title =
    0xc9 ∷ 0x80 ∷ 0x80 ∷ 0x44 ∷ 0x15 ∷ 0x00 ∷ 0x62 ∷ 0x09 ∷ 0x29 ∷ 0xa0 ∷ 0x52 ∷ 0x70 ∷ 0x50 ∷ 0x12
    ∷ 0x05 ∷ 0x35 ∷ 0x31 ∷ 0x63 ∷ 0xc0 ∷ 0x22 ∷ 0x01 ∷ []

abbrev pub prehistorik_title : Text
prehistorik_title = codes "PREHISTORIK MAN      "

-- Each competition cartridge is known by its title, its checksums and its size.
unfoldable pub is_campus : Bool → Header → ℕ → Bool
is_campus titled h size =
    titled
    && h.complement == 0x0100
    && h.checksum == 0x2d02
    && (size == 0x1c0000 || size == 0x1c2000)

unfoldable pub is_powerfest : (complement checksum : ℕ) → Bool → Header → ℕ → Bool
is_powerfest complement checksum titled h size =
    titled
    && h.complement == complement
    && h.checksum == checksum
    && (size == 0x240000 || size == 0x242000)

unfoldable pub detect_sufami_turbo : List ℕ → Cartridge → Run (Option Cartridge)
detect_sufami_turbo image c = do
  cart ← same_memory image 0 (codes "BANDAI SFC-ADX")
  if cart
      then (do
        bios ← same_memory image 16 (codes "SFC-ADX BACKUP")
        ok (
            some (record c {
              type = if bios then sufami_turbo_bios else sufami_turbo;
              region = ntsc;
            })))
      else ok none

unfoldable pub detect_super_game_boy : List ℕ → ℕ → Cartridge → Run (Option Cartridge)
detect_super_game_boy image index c = do
  second ← same_memory image index (codes "Super GAMEBOY2")
  if second then ok (some (record c { type = super_game_boy_2_bios })) else (do
    first ← same_memory image index (codes "Super GAMEBOY")
    ok (if first then some (record c { type = super_game_boy_1_bios }) else none))

unfoldable pub detect_competition : List ℕ → Header → ℕ → Cartridge → Run (Option Cartridge)
detect_competition image h size c = do
  campus ← same_memory image h.index campus_title
  if is_campus campus h size then ok (some (record c { type = campus_challenge_92 })) else (do
    powerfest ← same_memory image h.index powerfest_title
    if is_powerfest 0x2011 0xf8c0 powerfest h size
        then ok (some (record c { type = powerfest_94 }))
        else (do
          prehistorik ← same_memory image h.index prehistorik_title
          ok (
              if is_powerfest 0xffff 0x0000 prehistorik h size
              then some (record c { type = powerfest_94 })
              else none)))

-- The cartridges that are not those of a standard board, in the order of the tests.
unfoldable pub detect_special : List ℕ → Header → ℕ → Cartridge → Run (Option Cartridge)
detect_special image h size c = do
  flash ← is_satellaview image h.index
  if flash then ok (some (record c { type = satellaview; region = ntsc })) else (do
    turbo ← detect_sufami_turbo image c
    elim turbo [
      | some c' ↦ ok (some c')
      | none ↦ (do
        bios ← detect_super_game_boy image h.index c
        elim bios [ some c' ↦ ok (some c') | none ↦ detect_competition image h size c ])
    ])

unfoldable pub is_alphanumeric : ℕ → Bool
is_alphanumeric n = leb 0x41 n && leb n 0x5a || leb 0x30 n && leb n 0x39

-- The extended header in front of the header says whether there is a connector.
unfoldable pub has_connector : List ℕ → Header → Run Bool
has_connector image h = do
  n14 ← fetch image (h.index - 14)
  if n14 == 0x5a
      then (do
        n11 ← fetch image (h.index - 11)
        if n11 == 0x4a
            then (do
              n13 ← fetch image (h.index - 13)
              if is_alphanumeric n13
                  then (if h.company == 0x33 then ok true else (do
                    n10 ← fetch image (h.index - 10)
                    n4 ← fetch image (h.index - 4)
                    ok (n10 == 0x00 && n4 == 0x00)))
                  else ok false)
            else ok false)
      else ok false

-- A standard cartridge: no type but `unknown` for a header at no known place.
unfoldable pub standard_type : Header → ℕ → Cartridge → Cartridge
standard_type h size c =
    if h.index == 0x7fc0 && leb 0x401000 size
    then record c { type = ex_lo_rom }
    else if h.index == 0x7fc0 && h.mapper_id == 0x32
    then record c { type = ex_lo_rom }
    else if h.index == 0x7fc0
    then record c { type = lo_rom }
    else if h.index == 0xffc0
    then record c { type = hi_rom }
    else if h.index == 0x40ffc0
    then record c { type = ex_hi_rom }
    else record c { type = unknown }

-- A cartridge with a connector, which may be the base of the others.
unfoldable pub slotted_type : Bool → Header → Cartridge → Cartridge
slotted_type base h c =
    if base
    then record c { has_bsx_slot = true; type = satellaview_bios; region = ntsc }
    else record c {
      has_bsx_slot = true;
      type = if h.index == 0x7fc0 then lo_rom_satellaview else hi_rom_satellaview;
      region = ntsc;
    }

unfoldable pub detect_board : List ℕ → Header → ℕ → Cartridge → Run Cartridge
detect_board image h size c = do
  slot ← has_connector image h
  if slot
      then (do
        base ← same_memory image h.index (codes "Satellaview BS-X     ")
        if base
            then ok (slotted_type true h c)
            else detect_coprocessors image h size (slotted_type false h c))
      else (if is (standard_type h size c).type unknown
          then ok (standard_type h size c)
          else detect_coprocessors image h size (standard_type h size c))

unfoldable pub read_header : List ℕ → ℕ → Cartridge → Run Cartridge
read_header image size c = do
  boy ← is_game_boy image size
  if boy then ok (record c { type = game_boy }) else (do
    index ← find_header image size
    h ← read_fields image index
    ram ← fetch image (index + ram_size_field)
    let c' = set_sizes h size ram c
    special ← detect_special image h size c'
    elim special [ some done ↦ ok done | none ↦ detect_board image h size c' ])
