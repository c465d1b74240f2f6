-- ===== src/Ramus/Deflate/Pairs.antt =====
-- ramus/encode/deflate.hpp: `match`, and what a reader makes of its bits.
use mercurial_magic.Prelude.{
  ℕ, zero, suc, ◌+◌, ◌-◌, ◌^◌, ◌≤◌, ◌<◌, ◌≡◌, refl, ◌∙◌, Bool, false, List, [], ◌++◌, append_assoc,
  length, get_or, leb, ◌==◌, arith, ok, ◌>>=◌, >>=-eq-ok, Bool-cases, inl, inr, ltb-of_le,
}
use mercurial_magic.Ramus.Deflate.{
  BitBuffer, lens, lext, dists, dext, match_length, match_distance, current_length, match_rounds,
  match,
}
use mercurial_magic.Ramus.Deflate.Stream.{bits_of, IsReady}
use mercurial_magic.Ramus.Deflate.Inflate.{
  read_code, read_symbol, length_base, distance_base, read_match, read_number-bits_of,
  read_code-append, read_symbol-append,
}
use mercurial_magic.Ramus.Deflate.Codes.{Appends, whole_symbol-eq}
use mercurial_magic.Ramus.Deflate.Matches.{
  length_found, distance_found, length_code, distance_code, length_bits, distance_bits,
  length_symbol, length_base-lens, length_extra-lext, distance_symbol, distance_base-dists,
  distance_extra-dext, Appends-bind, match_length-stream, match_distance-stream,
}

read_symbol-length_code :
    (m : ℕ) (rest : List Bool) → m < 29 → read_symbol (length_code m ++ rest) ≡ ok (m + 257, rest)
read_symbol-length_code m rest h =
    read_symbol-append (length_code m) rest (m + 257) []
      (whole_symbol-eq _ (m + 257) (length_symbol m h) (omega arith))

read_code-distance_code :
    (m : ℕ) (rest : List Bool) → m < 30 → read_code 5 0 (distance_code m ++ rest) ≡ ok (m, rest)
read_code-distance_code m rest h =
    read_code-append 5 0 (distance_code m) rest m []
      (whole_symbol-eq _ m (distance_symbol m h) (omega arith))

read_match-bits :
    (n l d m : ℕ) (rest : List Bool)
    → l < 29
    → m < 30
    → get_or lens l 0 ≤ n
    → n - get_or lens l 0 < 2 ^ get_or lext l 0
    → get_or dists m 0 ≤ d
    → d - get_or dists m 0 < 2 ^ get_or dext m 0
    → read_match
        (l + 257)
        (bits_of (get_or lext l 0) (n - get_or lens l 0) ++ (distance_bits d m ++ rest))
      ≡ ok ((n, d), rest)
unfolding read_match
read_match-bits n l d m rest hl hm from_n fits_n from_d fits_d =
    let both_n : length_base (l + 257) + (n - get_or lens l 0) ≡ n =
      omega (arith, length_base-lens l hl) in
    let both_d : distance_base m + (d - get_or dists m 0) ≡ d =
      omega (arith, distance_base-dists m hm) in
    rw
      (
        length_extra-lext l hl,
        read_number-bits_of (get_or lext l 0) (n - get_or lens l 0) (distance_bits d m ++ rest)
            fits_n,
        append_assoc (distance_code m) (bits_of (get_or dext m 0) (d - get_or dists m 0)) rest,
        read_code-distance_code m (bits_of (get_or dext m 0) (d - get_or dists m 0) ++ rest) hm,
        distance_extra-dext m hm,
        read_number-bits_of (get_or dext m 0) (d - get_or dists m 0) rest fits_d,
        both_n,
        both_d,
      )
      refl

-- Bits that a reader reads as a match of `n` bytes at a distance.
abbrev pub IsPair : ℕ → ℕ → List Bool → Type 0
IsPair n d bits =
    (rest : List Bool)
    → (symbol : ℕ) × (left : List Bool) × (read_symbol (bits ++ rest) ≡ ok (symbol, left))
      × (256 < symbol)
      × (read_match symbol left ≡ ok ((n, d), rest))

read-IsPair :
    (n l d m : ℕ)
    → l < 29
    → m < 30
    → get_or lens l 0 ≤ n
    → n - get_or lens l 0 < 2 ^ get_or lext l 0
    → get_or dists m 0 ≤ d
    → d - get_or dists m 0 < 2 ^ get_or dext m 0
    → IsPair n d (length_bits n l ++ distance_bits d m)
read-IsPair n l d m hl hm from_n fits_n from_d fits_d rest =
    let extra = bits_of (get_or lext l 0) (n - get_or lens l 0) in
    let shape : (length_bits n l ++ distance_bits d m) ++ rest
        ≡ length_code l ++ (extra ++ (distance_bits d m ++ rest)) =
      append_assoc (length_bits n l) (distance_bits d m) rest
      ∙ append_assoc (length_code l) extra (distance_bits d m ++ rest) in
    (
      l + 257,
      extra ++ (distance_bits d m ++ rest),
      rw shape (read_symbol-length_code l (extra ++ (distance_bits d m ++ rest)) hl),
      omega arith,
      read_match-bits n l d m rest hl hm from_n fits_n from_d fits_d,
    )

length_code-not_empty : (l : ℕ) (rest : List Bool) → 1 ≤ length (length_code l ++ rest)
length_code-not_empty l rest = elim (Bool-cases (leb (l + 257) 279)) [
  | inl short ↦ rw short (omega arith)
  | inr long ↦ rw long (omega arith)
]

match_rounds-zero : (fuel : ℕ) (s : BitBuffer) (d : ℕ) → match_rounds fuel s d 0 ≡ ok s
unfolding match_rounds
match_rounds-zero zero s d = refl
match_rounds-zero (suc fuel) s d = refl

-- A length that fits a code takes one round.
match_once :
    (s s' : BitBuffer) (d n : ℕ)
    → (3 ≤ n) × (n ≤ 258)
    → (match_length s n >>= λ b. match_distance b d) ≡ ok s'
    → match s d n ≡ ok s'
unfolding match match_rounds current_length
match_once s s' d zero (low, high) run = absurd (omega arith)
match_once s s' d (suc k) (low, high) run =
    let (s₁, first, second) = >>=-eq-ok (match_length s (suc k)) (λ b. match_distance b d) run in
    let whole : current_length (suc k) ≡ suc k =
      rw (current_length, ltb-of_le 260 (suc k) (omega arith)) (ground arith) in
    let some_left : (suc k == 0) ≡ false = ground arith in
    let none_left : suc k - suc k ≡ 0 = omega arith in
    rw (some_left, whole, first, second, none_left) (match_rounds-zero k s' d)

-- For a length of 3 to 258 bytes and a distance of 1 to 32768, `match` returns, on a buffer with
-- fewer than eight bits waiting, and appends bits to the buffer's stream that a reader, whatever
-- follows them, reads as a symbol for a length and then as that length and that distance.
pub match-IsPair :
    (s : BitBuffer) (d n : ℕ)
    → IsReady s
    → (3 ≤ n) × (n ≤ 258)
    → (1 ≤ d) × (d ≤ 32768)
    → (bits : List Bool) × Appends s bits (match s d n) × IsPair n d bits × (1 ≤ length bits)
match-IsPair s d n ready (low, high) (near, far) =
    let (l, found_n, hl, from_n, fits_n) = length_found n low high in
    let (m, found_d, hm, from_d, fits_d) = distance_found d near far in
    let (s', run, appended, ready') =
      Appends-bind s (length_bits n l) (distance_bits d m) (match_length s n)
        (λ b. match_distance b d) (match_length-stream s n l ready hl found_n fits_n)
        (λ b ready₁. match_distance-stream b d m ready₁ hm found_d fits_d) in
    (
      length_bits n l ++ distance_bits d m,
      (s', match_once s s' d n (low, high) run, appended, ready'),
      read-IsPair n l d m hl hm from_n fits_n from_d fits_d,
      rw
          (append_assoc (length_code l) (bits_of (get_or lext l 0) (n - get_or lens l 0))
            (distance_bits d m))
          (length_code-not_empty l _),
    )
