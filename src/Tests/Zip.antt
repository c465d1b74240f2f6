-- ===== src/Tests/Zip.antt =====
-- ramus/encode/zip.hpp: an archive of one short file.
use mercurial_magic.Prelude.{ℕ, ◌≡◌, refl, some, List, [], ◌∷◌, Text, codes, length, All, ok, arith}
use mercurial_magic.Ramus.Zip.{
  Tm, Zip, open_zip, close_zip, append, append_compressed, write_fields, local_fields, writel,
  print_text, write_directory, directory_fields, end_fields,
}
use mercurial_magic.Ramus.Memory.{fetch}
use mercurial_magic.Ramus.Deflate.{
  flush, push_bits, bitmirror, literal, max_length, max_distance, search_entry, match_length,
  match_distance, current_length, match_rounds, match, start_block, finish_block, hash, same_bytes,
  extend, find_match, put, compress_loop, literals, compress,
}
use mercurial_magic.Ramus.Zip.Reader.{Member, read_archive}
use mercurial_magic.Ramus.Zip.Appends.{
  File, append_all, IsReadable, AllFiles, read_archive-append_all,
}

abbrev count_bytes : List ℕ → ℕ
count_bytes bytes = length bytes

abbrev unchanged : Text → Text
unchanged text = text

abbrev noon : Tm
noon = record { tm_year = 117; tm_mon = 5; tm_mday = 15; tm_hour = 12; tm_min = 30; tm_sec = 10 }

-- Three bytes, and one behind them.
abbrev one_text : List File
one_text = (record { filename = codes "a.txt"; source = codes "abc\n"; size = 3 }) ∷ []

one_text-IsReadable : All (IsReadable count_bytes unchanged) one_text
one_text-IsReadable = (
  record {
    octets = (omega arith, (omega arith, (omega arith, (omega arith, tt))));
    readable = omega arith;
    short_name = omega arith;
    short_size = omega arith;
    without_zero = (omega arith, (omega arith, (omega arith, (omega arith, (omega arith, tt)))));
  },
  tt,
)

abbrev one_archive : Zip
one_archive = record {
  fp =
      80 ∷ 75 ∷ 3 ∷ 4 ∷ 20 ∷ 0 ∷ 0 ∷ 0 ∷ 8 ∷ 0 ∷ 197 ∷ 99 ∷ 207 ∷ 74 ∷ 3 ∷ 0 ∷ 0 ∷ 0 ∷ 5 ∷ 0 ∷ 0 ∷ 0
      ∷ 3 ∷ 0 ∷ 0 ∷ 0 ∷ 5 ∷ 0 ∷ 0 ∷ 0 ∷ 97 ∷ 46 ∷ 116 ∷ 120 ∷ 116 ∷ 75 ∷ 76 ∷ 74 ∷ 6 ∷ 0 ∷ [];
  dos_time = 25541;
  dos_date = 19151;
  directory =
      (record {
        filename = codes "a.txt";
        checksum = 3;
        compressed_size = 5;
        uncompressed_size = 3;
        offset = 0;
      })
      ∷ [];
}

append_all-one_text : append_all count_bytes unchanged one_text (open_zip noon) ≡ ok one_archive
unfolding append_all append open_zip append_compressed write_fields local_fields writel flush
    push_bits bitmirror literal max_length max_distance search_entry match_length match_distance
    current_length match_rounds match start_block finish_block hash same_bytes extend find_match put
    compress_loop literals compress fetch print_text
append_all-one_text = refl

length-one_archive : length (close_zip one_archive) ≡ 113
unfolding close_zip write_directory write_fields directory_fields end_fields writel print_text
length-one_archive = refl

read_archive-append_all_example :
    (ms : List Member) × (read_archive (close_zip one_archive) ≡ some ms)
    × AllFiles count_bytes unchanged one_text ms
read_archive-append_all_example =
    read_archive-append_all count_bytes unchanged noon one_text one_archive one_text-IsReadable
      (omega arith) append_all-one_text (omega (arith, length-one_archive))
