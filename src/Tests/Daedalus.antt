-- ===== src/Tests/Daedalus.antt =====
-- daedalus/: concrete images.
use mercurial_magic.Prelude.{
  ℕ, ◌+◌, ◌%◌, ◌≤◌, ◌<◌, ◌≡◌, sym, ◌↔◌, refl, true, false, Bool-cases, inl, inr, none, some, List,
  [], ◌∷◌, ◌++◌, Text, codes, text_eq, text_eq-ne, ◌≢◌, if◌then◌else◌, length, replicate,
  length-append, length-replicate, ok, Safe, arith,
}
use mercurial_magic.Magic.Disk.{Disk}
use mercurial_magic.Daedalus.Cartridge.{
  is, ordinal, Cartridge, campus_challenge_92, blank_cartridge,
}
use mercurial_magic.Daedalus.Host.{Host, Daedalus, node, end}
use mercurial_magic.Daedalus.Score.{score_header, find_header}
use mercurial_magic.Daedalus.Score.Range.{score_header-Safe}
use mercurial_magic.Daedalus.Score.Best.{IsBest, find_header-Safe}
use mercurial_magic.Daedalus.Chips.{Header, detect_coprocessors}
use mercurial_magic.Daedalus.Chips.Table.{
  Chip, flag, has_clock, chip_of, chip_superfx, chip_sa1, chip_sharprtc, chip_sdd1, chip_spc7110,
  chip_cx4, chip_dsp1, chip_dsp2, chip_dsp3, chip_dsp4, chip_obc1, chip_st010, chip_st011,
  chip_st018,
}
use mercurial_magic.Daedalus.Chips.One.{IsClean, detect_coprocessors-chip_of}
use mercurial_magic.Daedalus.Boards.{board}
use mercurial_magic.Daedalus.SuperFamicom.{is_invalid, super_famicom_cartridge}
use mercurial_magic.Daedalus.SuperFamicom.Described.{
  IsDescribed, super_famicom_cartridge-Safe, super_famicom_cartridge-append,
}
use mercurial_magic.Daedalus.SuperFamicom.Bare.{IsCompetition, board-eq_nil_iff}
use mercurial_magic.Daedalus.Manifests.{bs_memory_manifest, sufami_turbo_manifest}
use mercurial_magic.Daedalus.Import.{
  Rom, import_loop, import_file, bs_memory_import, sufami_turbo_import,
}
use mercurial_magic.Daedalus.Import.Slices.{IsImported, import_loop-Safe}
use mercurial_magic.Daedalus.Import.Foreign.{sufami_turbo_import-foreign}
use mercurial_magic.Daedalus.Import.Outcome.{IsOutcome, import_file-Safe}
use mercurial_magic.Daedalus.Import.Folder.{
  HasCartridge, bs_folder, st_folder, bs_memory_import-HasCartridge, bs_memory_import-no_folder,
  sufami_turbo_import-HasCartridge,
}

abbrev hex_text : ℕ → Text
hex_text n = (n % 16 + 48) ∷ []

-- A header of the Super FX, whose reset vector is 0x8000, with its checksum.
abbrev test_header : List ℕ
test_header =
    replicate 21 0x41
    ++ (0x20 ∷ 0x13 ∷ 0x0a ∷ 0x05 ∷ 0x01 ∷ 0x33 ∷ 0x00 ∷ 0xfe ∷ 0xff ∷ 0x01 ∷ 0x00 ∷ [])
    ++ replicate 28 0
    ++ (0x00 ∷ 0x80 ∷ 0 ∷ 0 ∷ [])

abbrev test_image : List ℕ
test_image = replicate 0x7fc0 0x78 ++ test_header

length-test_image : length test_image ≡ 0x8000
length-test_image =
    omega (
      arith,
      length-append (replicate 0x7fc0 0x78) test_header,
      length-replicate {A = ℕ} 0x7fc0 0x78,
    )

abbrev card : Cartridge
card = blank_cartridge

super_famicom_cartridge-Safe_example :
    Safe IsDescribed (super_famicom_cartridge hex_text test_image 0x8000 true)
super_famicom_cartridge-Safe_example =
    super_famicom_cartridge-Safe hex_text true test_image 0x8000 (omega (arith, length-test_image))

super_famicom_cartridge-append_example :
    super_famicom_cartridge hex_text (replicate 512 0 ++ test_image) 0x8200 false
    ≡ super_famicom_cartridge hex_text test_image 0x8000 false
super_famicom_cartridge-append_example =
    super_famicom_cartridge-append hex_text false (replicate 512 0) test_image 0x8000
      (length-replicate {A = ℕ} 512 0) (omega arith)

find_header-Safe_example : Safe (IsBest test_image 0x8000) (find_header test_image 0x8000)
find_header-Safe_example =
    find_header-Safe test_image 0x8000 (omega (arith, length-test_image)) (omega arith)

score_header-Safe_example :
    Safe
      (λ score. (score ≤ 20) × (0x8000 < 0x7fc0 + 64 → score ≡ 0))
      (score_header test_image 0x8000 0x7fc0)
score_header-Safe_example =
    score_header-Safe test_image 0x8000 0x7fc0 (omega (arith, length-test_image)) refl (omega arith)

abbrev superfx_header : Header
superfx_header = record {
  index = 0x7fc0;
  mapper_id = 0x20;
  rom_type = 0x13;
  rom_size = 0x0a;
  company = 0x33;
  region_id = 1;
  complement = 0xfffe;
  checksum = 1;
}

blank_flags : (k : Chip) → flag k blank_cartridge ≡ false
blank_flags chip_superfx = refl
blank_flags chip_sa1 = refl
blank_flags chip_sharprtc = refl
blank_flags chip_sdd1 = refl
blank_flags chip_spc7110 = refl
blank_flags chip_cx4 = refl
blank_flags chip_dsp1 = refl
blank_flags chip_dsp2 = refl
blank_flags chip_dsp3 = refl
blank_flags chip_dsp4 = refl
blank_flags chip_obc1 = refl
blank_flags chip_st010 = refl
blank_flags chip_st011 = refl
blank_flags chip_st018 = refl

blank-IsClean : IsClean 0 blank_cartridge
blank-IsClean = record {
  unmarked = refl;
  unflagged = blank_flags;
  without_clock = refl;
  sized = refl;
  small = omega arith;
}

detect_coprocessors-chip_of_example :
    Safe
      (λ c'.
        ((k : Chip) → (flag k c' ≡ true) ↔ (chip_of superfx_header ≡ some k))
        × (c'.has_epsonrtc ≡ has_clock superfx_header))
      (detect_coprocessors test_image superfx_header 0 blank_cartridge)
detect_coprocessors-chip_of_example =
    detect_coprocessors-chip_of test_image superfx_header 0 blank_cartridge
      (omega (arith, length-test_image)) blank-IsClean

abbrev campus_cart : Cartridge
campus_cart = record blank_cartridge { type = campus_challenge_92; rom_size = 0x1c0000 }

board-eq_nil_iff_example :
    (board hex_text (codes "0000-ffff") campus_cart ≡ []) ↔ IsCompetition campus_challenge_92
unfolding is_invalid is ordinal
board-eq_nil_iff_example =
    board-eq_nil_iff hex_text (codes "0000-ffff") campus_cart refl refl refl refl

-- The image's first two bytes, and a ROM that is larger than the rest.
abbrev two_roms : List Rom
two_roms =
    (record { name = codes "program.rom"; size = 2 })
    ∷ (record { name = codes "data.rom"; size = 5 })
    ∷ []

abbrev four_bytes : List ℕ
four_bytes = 1 ∷ 2 ∷ 3 ∷ 4 ∷ []

abbrev one_file : Disk
one_file path = if text_eq path (codes "game.bs") then some four_bytes else none

abbrev idle : Daedalus
idle = record { error_message = []; missing_files = []; disk = one_file; folders = λ path. false }

abbrev test_host : Host
test_host = record {
  prefix = λ path. codes "game";
  path = λ path. [];
  suffix = λ path. codes ".bs";
  forward = λ path. path;
  hex = hex_text;
  sha256 = λ bytes. hex_text (length bytes);
  ends_with = λ text end. false;
  natural = length;
  text_at = λ n name. [];
  board = λ markup. node [] [] end;
  unzip = λ bytes. none;
  library = codes "lib/";
  directory_exists = λ path. true;
  creates = λ path. true;
  readable = λ path. true;
  files = λ path. [];
  match = λ pattern names. [];
  writable = λ path. true;
}

import_loop-Safe_example :
    Safe
      (IsImported test_host (codes "lib/") four_bytes two_roms 1 idle)
      (import_loop test_host (codes "lib/") four_bytes two_roms 1 idle)
import_loop-Safe_example =
    import_loop-Safe test_host (codes "lib/") four_bytes two_roms 1 idle (omega arith) (omega arith)

one_file_small :
    (path : Text) (bytes : List ℕ) → one_file path ≡ some bytes → length bytes < 4294967296
one_file_small path bytes h = elim (Bool-cases (text_eq path (codes "game.bs"))) [
  | inl same ↦ let found : four_bytes ≡ bytes = cc (rw same at h) in rw (sym found) (omega arith)
  | inr differ ↦ let bad = rw differ at h in cc bad
]

import_file-Safe_example : Safe IsOutcome (import_file test_host (codes "game.bs") idle)
import_file-Safe_example =
    import_file-Safe test_host (codes "game.bs") idle (λ archive name bytes files e. cc e)
      one_file_small

-- With the folders of both cartridges.
abbrev with_folders : Daedalus
with_folders = record idle { folders = λ path. true }

bs_memory_import-HasCartridge_example :
    HasCartridge test_host
      (bs_folder test_host (codes "game.bs"))
      (bs_memory_manifest test_host four_bytes (codes "game.bs"))
      four_bytes
      (bs_memory_import test_host four_bytes (codes "game.bs") with_folders)
bs_memory_import-HasCartridge_example =
    bs_memory_import-HasCartridge test_host four_bytes (codes "game.bs") with_folders
      (record { there = refl; manifest_opens = refl; rom_opens = refl })

bs_memory_import-no_folder_example :
    bs_memory_import test_host four_bytes (codes "game.bs") idle
    ≡ (bs_folder test_host (codes "game.bs"), record idle { error_message = [] })
bs_memory_import-no_folder_example =
    bs_memory_import-no_folder test_host four_bytes (codes "game.bs") idle refl

abbrev turbo_data : List ℕ
turbo_data = replicate 0x20000 1

length-turbo_data : length turbo_data ≡ 0x20000
length-turbo_data = length-replicate {A = ℕ} 0x20000 1

sufami_turbo_import-HasCartridge_example :
    (r : Text × Daedalus) × (markup : Text) × (sufami_turbo_import test_host
        (codes "BANDAI SFC-ADX" ++ turbo_data)
        (codes "game.st")
        with_folders
      ≡ ok r)
    × (sufami_turbo_manifest test_host (codes "BANDAI SFC-ADX" ++ turbo_data) (codes "game.st")
        ≡ ok markup)
    × HasCartridge test_host
        (st_folder test_host (codes "game.st"))
        markup
        (codes "BANDAI SFC-ADX" ++ turbo_data)
        r
sufami_turbo_import-HasCartridge_example =
    sufami_turbo_import-HasCartridge test_host turbo_data (codes "game.st") with_folders
      (omega (arith, length-append (codes "BANDAI SFC-ADX") turbo_data, length-turbo_data))
      (record { there = refl; manifest_opens = refl; rom_opens = refl })

sufami_turbo_import-foreign_example :
    (r : Text × Daedalus) × (sufami_turbo_import test_host four_bytes (codes "game.st") idle ≡ ok r)
    × (r.0 ≡ [])
    × (r.1.error_message ≢ [])
    × (r.1.disk ≡ idle.disk)
sufami_turbo_import-foreign_example =
    sufami_turbo_import-foreign test_host four_bytes (codes "game.st") idle
      (text_eq-ne four_bytes (codes "BANDAI SFC-ADX") refl)
