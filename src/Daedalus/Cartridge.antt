-- ===== src/Daedalus/Cartridge.antt =====
-- daedalus/heuristics/super-famicom.cpp: the state of a SuperFamicomCartridge, and memcmp.
use mercurial_magic.Prelude.{
  ℕ, suc, ◌+◌, Bool, true, false, ◌&&◌, List, [], ◌∷◌, Text, ◌==◌, Run, ok, ◌>>=◌, ◌*◌,
}
use mercurial_magic.Ramus.Memory.{fetch}

-- The offsets of enum HeaderField.
abbrev pub mapper_field : ℕ
mapper_field = 0x15

abbrev pub rom_type_field : ℕ
rom_type_field = 0x16

abbrev pub rom_size_field : ℕ
rom_size_field = 0x17

abbrev pub ram_size_field : ℕ
ram_size_field = 0x18

abbrev pub region_field : ℕ
region_field = 0x19

abbrev pub company_field : ℕ
company_field = 0x1a

abbrev pub complement_field : ℕ
complement_field = 0x1c

abbrev pub checksum_field : ℕ
checksum_field = 0x1e

abbrev pub reset_vector_field : ℕ
reset_vector_field = 0x3c

pub data CartType : Type 0 where
  satellaview_bios sufami_turbo_bios super_game_boy_1_bios super_game_boy_2_bios : CartType
  lo_rom hi_rom ex_lo_rom ex_hi_rom super_fx sa1 : CartType
  lo_rom_satellaview hi_rom_satellaview campus_challenge_92 powerfest_94 : CartType
  unknown game_boy satellaview sufami_turbo : CartType

-- The values of the enumeration, which `==` compares.
unfoldable pub ordinal : CartType → ℕ
ordinal satellaview_bios = 0
ordinal sufami_turbo_bios = 1
ordinal super_game_boy_1_bios = 2
ordinal super_game_boy_2_bios = 3
ordinal lo_rom = 4
ordinal hi_rom = 5
ordinal ex_lo_rom = 6
ordinal ex_hi_rom = 7
ordinal super_fx = 8
ordinal sa1 = 9
ordinal lo_rom_satellaview = 10
ordinal hi_rom_satellaview = 11
ordinal campus_challenge_92 = 12
ordinal powerfest_94 = 13
ordinal unknown = 14
ordinal game_boy = 15
ordinal satellaview = 16
ordinal sufami_turbo = 17

unfoldable pub is : CartType → CartType → Bool
is a b = ordinal a == ordinal b

pub data Region : Type 0 where
  ntsc pal : Region

pub data Dsp1Type : Type 0 where
  dsp1_none dsp1_lo_rom_1mb dsp1_lo_rom_2mb dsp1_hi_rom : Dsp1Type

pub record Cartridge : Type 0 where
  pub markup : Text
  pub rom_size : ℕ
  pub ram_size : ℕ
  pub firmware_size : ℕ
  pub firmware_missing : Text
  pub type : CartType
  pub region : Region
  pub dsp1_type : Dsp1Type
  pub has_bsx_slot : Bool
  pub has_superfx : Bool
  pub has_sa1 : Bool
  pub has_sharprtc : Bool
  pub has_epsonrtc : Bool
  pub has_sdd1 : Bool
  pub has_spc7110 : Bool
  pub has_cx4 : Bool
  pub has_dsp1 : Bool
  pub has_dsp2 : Bool
  pub has_dsp3 : Bool
  pub has_dsp4 : Bool
  pub has_obc1 : Bool
  pub has_st010 : Bool
  pub has_st011 : Bool
  pub has_st018 : Bool

-- The initializers of the fields.
abbrev pub blank_cartridge : Cartridge
blank_cartridge = record {
  markup = [];
  rom_size = 0;
  ram_size = 0;
  firmware_size = 0;
  firmware_missing = [];
  type = unknown;
  region = ntsc;
  dsp1_type = dsp1_none;
  has_bsx_slot = false;
  has_superfx = false;
  has_sa1 = false;
  has_sharprtc = false;
  has_epsonrtc = false;
  has_sdd1 = false;
  has_spc7110 = false;
  has_cx4 = false;
  has_dsp1 = false;
  has_dsp2 = false;
  has_dsp3 = false;
  has_dsp4 = false;
  has_obc1 = false;
  has_st010 = false;
  has_st011 = false;
  has_st018 = false;
}

-- `!memcmp(data + at, bytes, n)`: the whole of both ranges has to be readable.
unfoldable pub same_memory : List ℕ → ℕ → List ℕ → Run Bool
same_memory image at [] = ok true
same_memory image at (b ∷ bytes) = do
  x ← fetch image at
  rest ← same_memory image (suc at) bytes
  ok (x == b && rest)

-- Two bytes, the low one first: `data[at] | data[at + 1] << 8`.
unfoldable pub word_at : List ℕ → ℕ → Run ℕ
word_at image at = do low ← fetch image at; high ← fetch image (at + 1); ok (low + 256 * high)
