-- ===== src/Ramus/Deflate.antt =====
-- ramus/encode/deflate.hpp: DEFLATE with one block of fixed Huffman codes.
pub mod Stream
pub mod Inflate
pub mod Codes
pub mod Matches
pub mod Pairs
pub mod Extend
pub mod Writes
pub mod Blocks
pub mod RoundTrip
use mercurial_magic.Prelude.{
  ℕ, zero, suc, ◌+◌, ◌-◌, ◌*◌, ◌/◌, ◌%◌, ◌^◌, Bool, true, false, not, ◌&&◌, Option, none, some,
  List, [], ◌∷◌, ◌++◌, length, get_or, ltb, leb, ◌==◌, if◌then◌else◌, u32, Run, ok, fault, stuck,
  ◌>>=◌,
}
use mercurial_magic.Ramus.Memory.{fetch}

pub record BitBuffer : Type 0 where
  pub bytes : List ℕ
  pub bit_queue : ℕ
  pub bit_count : ℕ

-- while(bitCount >= 8) { ... }, which makes a round for each full byte
unfoldable pub flush : ℕ → BitBuffer → BitBuffer
flush zero s = s
flush (suc rounds) s = flush rounds (record {
  bytes = s.bytes ++ s.bit_queue % 256 ∷ [];
  bit_queue = s.bit_queue / 256;
  bit_count = s.bit_count - 8;
})

-- `|=` of bits above those of the queue is their sum. A failed assertion is a fault.
unfoldable pub push_bits : ℕ → ℕ → BitBuffer → Run BitBuffer
push_bits bits n s =
    if ltb 32 (s.bit_count + n)
    then fault
    else let count = s.bit_count + n in
      ok (
        flush (count / 8)
          (record s { bit_queue = u32 (s.bit_queue + bits * 2 ^ s.bit_count); bit_count = count }))

-- Bit i goes to bit 7 - i.
unfoldable pub bitmirror : ℕ → ℕ
bitmirror input =
    input % 2 * 128
    + input / 2 % 2 * 64
    + input / 4 % 2 * 32
    + input / 8 % 2 * 16
    + input / 16 % 2 * 8
    + input / 32 % 2 * 4
    + input / 64 % 2 * 2
    + input / 128 % 2

unfoldable pub literal : BitBuffer → ℕ → Run BitBuffer
literal buffer c =
    if leb c 143
    then push_bits (bitmirror ((0x30 + c) % 256)) 8 buffer
    else push_bits (bitmirror ((0x90 - 144 + c) % 256) * 2 + 1) 9 buffer

abbrev pub lens : List ℕ
lens =
    3 ∷ 4 ∷ 5 ∷ 6 ∷ 7 ∷ 8 ∷ 9 ∷ 10 ∷ 11 ∷ 13 ∷ 15 ∷ 17 ∷ 19 ∷ 23 ∷ 27 ∷ 31 ∷ 35 ∷ 43 ∷ 51 ∷ 59 ∷ 67
    ∷ 83 ∷ 99 ∷ 115 ∷ 131 ∷ 163 ∷ 195 ∷ 227 ∷ 258 ∷ []

abbrev pub lext : List ℕ
lext =
    0 ∷ 0 ∷ 0 ∷ 0 ∷ 0 ∷ 0 ∷ 0 ∷ 0 ∷ 1 ∷ 1 ∷ 1 ∷ 1 ∷ 2 ∷ 2 ∷ 2 ∷ 2 ∷ 3 ∷ 3 ∷ 3 ∷ 3 ∷ 4 ∷ 4 ∷ 4 ∷ 4
    ∷ 5 ∷ 5 ∷ 5 ∷ 5 ∷ 0 ∷ []

abbrev pub dists : List ℕ
dists =
    1 ∷ 2 ∷ 3 ∷ 4 ∷ 5 ∷ 7 ∷ 9 ∷ 13 ∷ 17 ∷ 25 ∷ 33 ∷ 49 ∷ 65 ∷ 97 ∷ 129 ∷ 193 ∷ 257 ∷ 385 ∷ 513 ∷ 769
    ∷ 1025 ∷ 1537 ∷ 2049 ∷ 3073 ∷ 4097 ∷ 6145 ∷ 8193 ∷ 12289 ∷ 16385 ∷ 24577 ∷ []

abbrev pub dext : List ℕ
dext =
    0 ∷ 0 ∷ 0 ∷ 0 ∷ 1 ∷ 1 ∷ 2 ∷ 2 ∷ 3 ∷ 3 ∷ 4 ∷ 4 ∷ 5 ∷ 5 ∷ 6 ∷ 6 ∷ 7 ∷ 7 ∷ 8 ∷ 8 ∷ 9 ∷ 9 ∷ 10 ∷ 10
    ∷ 11 ∷ 11 ∷ 12 ∷ 12 ∷ 13 ∷ 13 ∷ []

-- The largest length, or distance, of an entry of the tables.
unfoldable pub max_length : ℕ → ℕ
max_length middle =
    if middle == 27
    then get_or lens 28 0 - 1
    else get_or lens middle 0 + 2 ^ get_or lext middle 0 - 1

unfoldable pub max_distance : ℕ → ℕ
max_distance middle = get_or dists middle 0 + 2 ^ get_or dext middle 0 - 1

-- The two searches, for the entry from `table` up to `top` that has `n`; `low` is `left + 1`.
unfoldable pub search_entry : ℕ → List ℕ → (ℕ → ℕ) → ℕ → ℕ → ℕ → Run ℕ
search_entry zero table top n low right = stuck
search_entry (suc fuel) table top n low right =
    let middle = (right + low - 1) / 2 in
    let lower = search_entry fuel table top n low middle in
    let upper = search_entry fuel table top n (middle + 1) right in
    if not (ltb low right)
    then fault
    else if ltb n (get_or table middle 0)
    then lower
    else if ltb (top middle) n
    then upper
    else ok middle

-- The codes of a length of at most 258 bytes, and of a distance.
unfoldable pub match_length : BitBuffer → ℕ → Run BitBuffer
match_length buffer n = do
  middle ← search_entry 29 lens max_length n 0 29
  let symbol = middle + 257
  buffer₁ ←
      if leb symbol 279
      then push_bits (bitmirror ((symbol - 256) * 2)) 7 buffer
      else push_bits (bitmirror (symbol + 0xc0 - 280)) 8 buffer
  push_bits (n - get_or lens (symbol - 257) 0) (get_or lext (symbol - 257) 0) buffer₁

unfoldable pub match_distance : BitBuffer → ℕ → Run BitBuffer
match_distance buffer distance = do
  symbol ← search_entry 30 dists max_distance distance 0 30
  buffer₁ ← push_bits (bitmirror (symbol * 8)) 5 buffer
  push_bits (distance - get_or dists symbol 0) (get_or dext symbol 0) buffer₁

-- length > 260 ? 258 : (length <= 258 ? length : length - 3)
unfoldable pub current_length : ℕ → ℕ
current_length n = if ltb 260 n then 258 else if leb n 258 then n else n - 3

-- while(length > 0) { ... }, which makes `length` shorter in each round
unfoldable pub match_rounds : ℕ → BitBuffer → ℕ → ℕ → Run BitBuffer
match_rounds zero buffer distance n = if n == 0 then ok buffer else stuck
match_rounds (suc fuel) buffer distance n =
    let round = (do
      buffer₁ ← match_length buffer (current_length n)
      buffer₂ ← match_distance buffer₁ distance
      match_rounds fuel buffer₂ distance (n - current_length n)) in
    if n == 0 then ok buffer else round

unfoldable pub match : BitBuffer → ℕ → ℕ → Run BitBuffer
match buffer distance n = match_rounds n buffer distance n

unfoldable pub start_block : BitBuffer → Run BitBuffer
start_block buffer = do buffer₁ ← push_bits 1 1 buffer; push_bits 1 2 buffer₁

unfoldable pub finish_block : BitBuffer → Run BitBuffer
finish_block buffer = do buffer₁ ← push_bits 0 7 buffer; push_bits 0 7 buffer₁

-- ((v >> 12) - v) & 4095, on an int
unfoldable pub hash : List ℕ → ℕ → Run ℕ
hash source p = do
  a ← fetch source p
  b ← fetch source (p + 1)
  c ← fetch source (p + 2)
  let v = a * 65536 + b * 256 + c
  ok ((v / 4096 + 16777216 - v) % 4096)

-- memory::compare, as far as it tells whether `n` bytes are the same
unfoldable pub same_bytes : ℕ → List ℕ → ℕ → ℕ → Run Bool
same_bytes zero source p q = ok true
same_bytes (suc n) source p q = do
  x ← fetch source p
  y ← fetch source q
  let rest = same_bytes n source (p + 1) (q + 1)
  if x == y then rest else ok false

-- The loop that makes a match longer: `p` is `source`, `q` is `m`. A round raises `n` to 258 at most.
unfoldable pub extend : ℕ → List ℕ → ℕ → ℕ → ℕ → ℕ → Run ℕ
extend zero source size p q n = stuck
extend (suc fuel) source size p q n = do
  x ← fetch source p
  y ← fetch source q
  let rest = extend fuel source size (p + 1) (q + 1) (n + 1)
  if x == y && ltb n 258 && ltb p size then rest else ok n

-- What a bucket of the hash table offers at `p`: the length of a match with the place `q`, or none.
unfoldable pub find_match : List ℕ → ℕ → ℕ → Option ℕ → Run (Option (ℕ × ℕ))
find_match source size p none = ok none
find_match source size p (some q) = do
  same ← if ltb q p && leb (p - q) 32768 then same_bytes 3 source p q else ok false
  if same then (do n ← extend 256 source size (p + 3) (q + 3) 3; ok (some (q, n))) else ok none

abbrev pub HashTable : Type 0
HashTable = ℕ → Option ℕ

unfoldable pub put : HashTable → ℕ → ℕ → HashTable
put table bucket p other = if bucket == other then some p else table other

-- while(source < end - MIN_MATCH); a round moves `source` on.
unfoldable pub compress_loop : ℕ → List ℕ → ℕ → HashTable → ℕ → BitBuffer → Run (ℕ × BitBuffer)
compress_loop zero source size table p buffer = stuck
compress_loop (suc fuel) source size table p buffer =
    let round = (do
      bucket ← hash source p
      found ← find_match source size p (table bucket)
      elim found [
        | some (q, n) ↦ do
          buffer' ← match buffer (p - q) n
          compress_loop fuel source size (put table bucket p) (p + n) buffer'
        | none ↦ do
          c ← fetch source p
          buffer' ← literal buffer c
          compress_loop fuel source size (put table bucket p) (p + 1) buffer'
      ]) in
    if ltb (p + 3) size then round else ok (p, buffer)

-- while(source < end) literal(buffer, *source++); `n` is `end - source`.
unfoldable pub literals : ℕ → List ℕ → ℕ → BitBuffer → Run BitBuffer
literals zero source p buffer = ok buffer
literals (suc n) source p buffer = do
  c ← fetch source p
  buffer' ← literal buffer c
  literals n source (p + 1) buffer'

-- The memory from `source` on is a list, of which `size` bytes are to be compressed.
unfoldable pub compress : List ℕ → ℕ → Run BitBuffer
compress source size = do
  buffer ← start_block (record { bytes = []; bit_queue = 0; bit_count = 0 })
  (p, buffer₁) ← compress_loop (suc size) source size (λ bucket. none) 0 buffer
  buffer₂ ← literals (size - p) source p buffer₁
  finish_block buffer₂
