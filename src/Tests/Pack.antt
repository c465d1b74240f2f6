-- ===== src/Tests/Pack.antt =====
-- MercurialMagic/ on small packs, with functions on texts that do for their names.
use mercurial_magic.Prelude.{
  ℕ, ◌+◌, ◌*◌, ◌≡◌, refl, true, false, none, some, List, [], ◌∷◌, ◌++◌, replicate, Text, codes,
  text_eq, text_eq-ne, ◌==◌, if◌then◌else◌, ok,
}
use mercurial_magic.Ramus.Memory.{fetch}
use mercurial_magic.Ramus.Bps.Format.{encode_patch}
use mercurial_magic.Magic.{Program, ZipFile, Nall, game_pak}
use mercurial_magic.Magic.Disk.{Disk, put_file}
use mercurial_magic.Magic.Validate.{
  is_empty, source_checksum, find, fetch_file, validate_rom_patch, validate_pack, show_rom,
  take_patch,
}
use mercurial_magic.Magic.Validate.Sound.{IsAccepted, validate_pack-IsAccepted}
use mercurial_magic.Magic.Validate.Stale.{validate_pack-keeps_patch}
use mercurial_magic.Magic.Track.{
  is_digit, first_digit, digit_run, track_digits, track_id, is_converted, is_audio,
}
use mercurial_magic.Magic.Window.{error, judge, change_pack}
use mercurial_magic.Magic.Window.Button.{IsIdle, error-IsIdle, change_pack-IsAccepted}
use mercurial_magic.Magic.Track.Digits.{track_digits-append}
use mercurial_magic.Magic.Export.{stop, export_path, export_loop}
use mercurial_magic.Magic.Export.Copies.{tracks, export_loop-copies}
use mercurial_magic.Magic.Begin.{StrictResult, success, begin_export}
use mercurial_magic.Magic.Begin.Patched.{
  patched_rom, game_pak_destination, begin_export-encode_patch,
}
use mercurial_magic.Tests.{byte_sum, blank}
use mercurial_magic.Tests.Bps.{sample, own_sum, rom_bytes, sample-Patches, sample-sum}

-- From the last dot on, and up to the last slash.
abbrev suffix_of : Text → Text
suffix_of [] = []
suffix_of (c ∷ cs) =
    let rest = suffix_of cs in if is_empty rest then (if c == b'.' then c ∷ cs else []) else rest

abbrev dir_of : Text → Text
dir_of [] = []
dir_of (c ∷ cs) =
    let rest = dir_of cs in if is_empty rest then (if c == b'/' then c ∷ [] else []) else c ∷ rest

abbrev sum : List ℕ → ℕ
sum [] = 0
sum (b ∷ bs) = b + sum bs

abbrev pub texts : Nall
texts = record {
  suffix = suffix_of;
  dir = dir_of;
  path = dir_of;
  prefix = λ s. s;
  matches = text_eq;
  natural = λ s. elim s [ [] ↦ 0 | c ∷ cs ↦ if is_digit c then c * 1 else 0 ];
  slashes = λ s. s;
  print = λ n. n ∷ [];
  writable = λ path. true;
  hex = λ n. n ∷ [];
  crc32 = sum;
}

abbrev data_file : ZipFile
data_file = record { name = codes "msu1.rom"; contents = 1 ∷ [] }

abbrev track_file : ZipFile
track_file = record { name = codes "game-3.pcm"; contents = 5 ∷ 6 ∷ [] }

abbrev rom_file : ZipFile
rom_file = record { name = codes "program.rom"; contents = 7 ∷ [] }

-- The checksum of `rom_bytes` stands twelve bytes before the end.
abbrev sum_file : ZipFile
sum_file = record { name = codes "patch.bps"; contents = 0 ∷ 116 ∷ replicate 11 0 }

abbrev pub started : List ZipFile → Program
started files = record {
  export_method = game_pak;
  create_manifest = false;
  sd2snes_force_manifest = false;
  violate_bps = false;
  icarus = false;
  daedalus = false;
  valid = false;
  pack = files;
  patch_contents = [];
  zip_index = 0;
  track_ids = [];
  destination = codes "out/";
  pack_path = codes "in/p.zip";
  rom_path = codes "rom";
  output_name = codes "game";
  rom_label = [];
  rom_enabled = false;
  tabs_enabled = true;
  export_enabled = false;
  exit_text = [];
  status = [];
  progress = 0;
  dialogs = [];
}

abbrev pub files_on_disk : Disk
files_on_disk path =
    if text_eq path (codes "in/p.zip")
    then some []
    else if text_eq path (codes "rom")
    then some rom_bytes
    else none

abbrev pub opening : List ZipFile → List ZipFile → List ℕ → List ZipFile
opening files before archive = files

abbrev patch_pack : List ZipFile
patch_pack = data_file ∷ sum_file ∷ []

abbrev checked : Program
checked = record (started patch_pack) {
  patch_contents = sum_file.contents;
  rom_label = codes "ROM path:";
  rom_enabled = true;
}

validate_patch_pack :
    validate_pack texts (opening patch_pack) files_on_disk (started []) ≡ ok (true, checked)
unfolding validate_pack validate_rom_patch show_rom take_patch fetch_file find source_checksum fetch
validate_patch_pack = refl

validate_pack-IsAccepted_example : IsAccepted texts files_on_disk checked
validate_pack-IsAccepted_example =
    validate_pack-IsAccepted texts (opening patch_pack) files_on_disk (started []) checked
      validate_patch_pack

-- The same program, on a pack with a ROM and no patch afterwards.
abbrev rom_pack : List ZipFile
rom_pack = data_file ∷ rom_file ∷ []

abbrev stale : Program
stale = record checked {
  pack = rom_pack;
  rom_label = codes "No ROM needed";
  rom_enabled = false;
  rom_path = [];
}

validate_rom_pack : validate_pack texts (opening rom_pack) files_on_disk checked ≡ ok (true, stale)
unfolding validate_pack show_rom take_patch fetch_file find
validate_rom_pack = refl

no_patch_file : fetch_file texts stale (codes "patch.bps") ≡ none
unfolding fetch_file find
no_patch_file = refl

validate_pack-keeps_patch_example :
    (stale.patch_contents ≡ checked.patch_contents) × (stale.rom_path ≡ [])
validate_pack-keeps_patch_example =
    validate_pack-keeps_patch texts (opening rom_pack) files_on_disk checked stale validate_rom_pack
      no_patch_file

track_digits-append_example : track_digits (codes "game-12.pcm") ≡ codes "12"
track_digits-append_example =
    track_digits-append (codes "game-") b'1' (codes "2") b'.' (codes "pcm")
      (refl, (refl, (refl, (refl, (refl, tt))))) refl (refl, tt) refl

-- An export of three files.
abbrev three_files : List ZipFile
three_files = data_file ∷ track_file ∷ rom_file ∷ []

abbrev track_path : Text
track_path = codes "out/track-" ++ (51 ∷ codes ".pcm")

export_loop-copies_example :
    (p' : Program) × (disk' : Disk) × (export_loop texts
        (opening [])
        (λ disk path. disk)
        4
        files_on_disk
        (started three_files)
      ≡ ok (stop, p', disk'))
    × (p'.zip_index ≡ 3)
    × (p'.track_ids ≡ [] ++ tracks texts three_files)
    × (disk' (export_path texts (started three_files) track_file) ≡ (
        if texts.writable (export_path texts (started three_files) track_file)
        then some (5 ∷ 6 ∷ [])
        else files_on_disk (export_path texts (started three_files) track_file)))
unfolding is_converted export_path is_audio track_id track_digits first_digit digit_run
export_loop-copies_example =
    export_loop-copies texts (opening []) (λ disk path. disk) (data_file ∷ []) (rom_file ∷ [])
      track_file files_on_disk (started three_files) refl refl (refl, (refl, (refl, tt))) refl
      (text_eq-ne _ _ refl, tt)

-- A pack with the sample patch, for a longer ROM.
abbrev bps_file : ZipFile
bps_file = record { name = codes "patch.bps"; contents = encode_patch sample own_sum }

abbrev ready : Program
ready = record (started (data_file ∷ bps_file ∷ [])) {
  violate_bps = true;
  patch_contents = encode_patch sample own_sum;
}

abbrev never : Disk → List ℕ → Text → Text → StrictResult × Disk
never disk patch rom target_path = (success, disk)

begin_export-encode_patch_example :
    (p' : Program) × (begin_export byte_sum blank
        (λ path. (true, true))
        texts
        (opening [])
        never
        files_on_disk
        ready
      ≡ ok (
        true,
        p',
        put_file files_on_disk
            (game_pak_destination texts ready ++ codes "program.rom")
            (patched_rom sample rom_bytes),
      ))
    × (p'.zip_index ≡ 0)
    × (p'.pack ≡ ready.pack)
    × (p'.destination ≡ game_pak_destination texts ready)
begin_export-encode_patch_example =
    begin_export-encode_patch byte_sum blank (λ path. (true, true)) texts (opening []) never sample
      own_sum rom_bytes files_on_disk ready data_file (bps_file ∷ []) refl refl refl refl refl
      (text_eq-ne _ _ refl) refl sample-Patches sample-sum

-- The same pack, chosen in the window.
abbrev chosen : Program
chosen = record checked { valid = true; export_enabled = true; output_name = codes "in/p.zip" }

choose_patch_pack : change_pack texts (opening patch_pack) files_on_disk (started []) ≡ ok chosen
unfolding change_pack judge validate_pack validate_rom_patch show_rom take_patch fetch_file find
    source_checksum fetch
choose_patch_pack = refl

change_pack-IsAccepted_example :
    IsAccepted texts files_on_disk chosen × (is_empty chosen.output_name ≡ false)
change_pack-IsAccepted_example =
    change_pack-IsAccepted texts (opening patch_pack) files_on_disk (started []) chosen
      choose_patch_pack refl

error-IsIdle_example :
    (p' : Program) × (error texts (opening rom_pack) files_on_disk (codes "no") ready ≡ ok p')
    × IsIdle p'
    × ((before : List Text) × (p'.dialogs ≡ codes "no" ∷ before))
error-IsIdle_example = error-IsIdle texts (opening rom_pack) files_on_disk (codes "no") ready
