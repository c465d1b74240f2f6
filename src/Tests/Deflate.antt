-- ===== src/Tests/Deflate.antt =====
-- ramus/encode/deflate.hpp on a few bytes.
use mercurial_magic.Prelude.{
  ℕ, ◌≡◌, refl, List, [], ◌∷◌, ◌++◌, codes, length, ok, fault, take, Bool, arith, ◌≤◌,
}
use mercurial_magic.Ramus.Memory.{fetch}
use mercurial_magic.Ramus.Deflate.Stream.{bits_of, bits_of_bytes, stream, IsReady, push_bits-stream}
use mercurial_magic.Ramus.Deflate.Inflate.{inflate}
use mercurial_magic.Ramus.Deflate.Codes.{Appends}
use mercurial_magic.Ramus.Deflate.Pairs.{IsPair, match-IsPair}
use mercurial_magic.Ramus.Deflate.RoundTrip.{empty_buffer, inflate-compress}
use mercurial_magic.Ramus.Deflate.{
  BitBuffer, flush, push_bits, bitmirror, literal, max_length, max_distance, search_entry,
  match_length, match_distance, current_length, match_rounds, match, start_block, finish_block,
  hash, same_bytes, extend, find_match, put, compress_loop, literals, compress,
}

-- The text, and a byte behind it.
abbrev text : List ℕ
text = codes "abcabcabcabcabcxyzabcq" ++ 200 ∷ 0 ∷ []

compress-text :
    compress text 23
    ≡ ok (record {
      bytes = 75 ∷ 76 ∷ 74 ∷ 70 ∷ 70 ∷ 21 ∷ 149 ∷ 85 ∷ 64 ∷ 110 ∷ 225 ∷ 9 ∷ 0 ∷ [];
      bit_queue = 0;
      bit_count = 5;
    })
unfolding flush push_bits bitmirror literal max_length max_distance search_entry match_length
    match_distance current_length match_rounds match start_block finish_block hash same_bytes extend
    find_match put compress_loop literals compress fetch
compress-text = refl

-- Without a byte behind it, a match up to the end reads outside the buffer.
compress_end : compress (codes "aaaaaaa") 7 ≡ fault
unfolding flush push_bits bitmirror literal max_length max_distance search_entry match_length
    match_distance current_length match_rounds match start_block finish_block hash same_bytes extend
    find_match put compress_loop literals compress fetch
compress_end = refl

inflate-compress_example :
    (buffer : BitBuffer) × (compress text 23 ≡ ok buffer)
    × (inflate (bits_of_bytes buffer.bytes) ≡ ok (take 23 text))
inflate-compress_example = inflate-compress text 23 (ground arith) (omega arith)

empty-IsReady : IsReady empty_buffer
empty-IsReady = record { few = omega arith; small = omega arith }

match-IsPair_example :
    (bits : List Bool) × Appends empty_buffer bits (match empty_buffer 1000 20)
    × IsPair 20 1000 bits
    × (1 ≤ length bits)
match-IsPair_example = match-IsPair empty_buffer 1000 20 empty-IsReady (omega arith) (omega arith)

push_bits-stream_example :
    (s' : BitBuffer) × (push_bits 777 10 empty_buffer ≡ ok s')
    × (stream s' ≡ stream empty_buffer ++ bits_of 10 777)
    × IsReady s'
push_bits-stream_example =
    push_bits-stream 777 10 empty_buffer empty-IsReady (omega arith) (omega arith)
