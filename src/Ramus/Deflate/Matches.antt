-- ===== src/Ramus/Deflate/Matches.antt =====
-- ramus/encode/deflate.hpp: the searches of `match`, and the bits of a match.
use mercurial_magic.Prelude.{
  ℕ, ◌+◌, ◌-◌, ◌*◌, ◌/◌, ◌^◌, ◌≤◌, ◌<◌, ◌≡◌, refl, ap, ◌∙◌, Bool, List, ◌++◌, append_assoc, get_or,
  ltb, leb, if◌then◌else◌, arith, ok, fault, stuck, Run, ◌>>=◌, Bool-cases, inl, inr, same_table-eq,
  ltb→lt, ltb-false→le,
}
use mercurial_magic.Ramus.Deflate.{
  BitBuffer, push_bits, bitmirror, lens, lext, dists, dext, max_length, max_distance, search_entry,
  match_length, match_distance,
}
use mercurial_magic.Ramus.Deflate.Stream.{bits_of, stream, IsReady, push_bits-stream}
use mercurial_magic.Ramus.Deflate.Inflate.{
  read_code, read_symbol, length_extra, length_base, distance_extra, distance_base,
}
use mercurial_magic.Ramus.Deflate.Codes.{Appends, whole_symbol}

-- Whether a search has found an entry with `n` in its range.
abbrev hits : List ℕ → List ℕ → ℕ → ℕ → Run ℕ → ℕ
hits table extra size n fault = 0
hits table extra size n stuck = 0
hits table extra size n (ok m) =
    if ltb m size
    then (if ltb n (get_or table m 0)
        then 0
        else if ltb (n - get_or table m 0) (2 ^ get_or extra m 0)
        then 1
        else 0)
    else 0

abbrev pub Hits : List ℕ → List ℕ → ℕ → ℕ → Run ℕ → Type 0
Hits table extra size n run =
    (m : ℕ) × (run ≡ ok m)
    × (m < size)
    × (get_or table m 0 ≤ n)
    × (n - get_or table m 0 < 2 ^ get_or extra m 0)

hits-Hits :
    (table extra : List ℕ) (size n : ℕ) (run : Run ℕ)
    → hits table extra size n run ≡ 1
    → Hits table extra size n run
hits-Hits table extra size n fault h = absurd (omega arith)
hits-Hits table extra size n stuck h = absurd (omega arith)
hits-Hits table extra size n (ok m) h = elim (Bool-cases (ltb m size)) [
  | inr beyond ↦ let bad = rw beyond at h in absurd (omega (arith, bad))
  | inl entry ↦ elim (Bool-cases (ltb n (get_or table m 0))) [
    | inl below ↦ let bad = rw (entry, below) at h in absurd (omega (arith, bad))
    | inr from ↦ elim (Bool-cases (ltb (n - get_or table m 0) (2 ^ get_or extra m 0))) [
      | inr above ↦ let bad = rw (entry, from, above) at h in absurd (omega (arith, bad))
      | inl inside ↦
          (m, refl, ltb→lt m size entry, ltb-false→le n (get_or table m 0) from, ltb→lt _ _ inside)
    ]
  ]
]

length_hits :
    (k : ℕ) → k < 256 → hits lens lext 29 (k + 3) (search_entry 29 lens max_length (k + 3) 0 29) ≡ 1
unfolding search_entry max_length
length_hits =
    same_table-eq (λ k. hits lens lext 29 (k + 3) (search_entry 29 lens max_length (k + 3) 0 29))
      (λ k. 1) 256 refl

distance_hits :
    (k : ℕ)
    → k < 32768
    → hits dists dext 30 (k + 1) (search_entry 30 dists max_distance (k + 1) 0 30) ≡ 1
unfolding search_entry max_distance
distance_hits =
    same_table-eq
      (λ k. hits dists dext 30 (k + 1) (search_entry 30 dists max_distance (k + 1) 0 30)) (λ k. 1)
      32768 refl

-- The codes of a symbol for lengths, and of one for distances.
abbrev pub length_code : ℕ → List Bool
length_code m =
    if leb (m + 257) 279
    then bits_of 7 (bitmirror ((m + 257 - 256) * 2))
    else bits_of 8 (bitmirror (m + 257 + 0xc0 - 280))

abbrev pub distance_code : ℕ → List Bool
distance_code m = bits_of 5 (bitmirror (m * 8))

-- What the tables of the two programs say of each symbol.
pub length_symbol : (m : ℕ) → m < 29 → whole_symbol (read_symbol (length_code m)) ≡ m + 257
unfolding read_symbol read_code bitmirror
length_symbol =
    same_table-eq (λ m. whole_symbol (read_symbol (length_code m))) (λ m. m + 257) 29 refl

length_fits :
    (m : ℕ)
    → m < 29
    → (if leb (m + 257) 279
        then bitmirror ((m + 257 - 256) * 2) / 128
        else bitmirror (m + 257 + 0xc0 - 280) / 256)
      ≡ 0
unfolding bitmirror
length_fits =
    same_table-eq
      (λ m.
        if leb (m + 257) 279
        then bitmirror ((m + 257 - 256) * 2) / 128
        else bitmirror (m + 257 + 0xc0 - 280) / 256)
      (λ m. 0) 29 refl

pub length_base-lens : (m : ℕ) → m < 29 → length_base (m + 257) ≡ get_or lens m 0
unfolding length_base
length_base-lens = same_table-eq (λ m. length_base (m + 257)) (λ m. get_or lens m 0) 29 refl

pub length_extra-lext : (m : ℕ) → m < 29 → length_extra (m + 257) ≡ get_or lext m 0
unfolding length_extra
length_extra-lext = same_table-eq (λ m. length_extra (m + 257)) (λ m. get_or lext m 0) 29 refl

lext_few : (m : ℕ) → m < 29 → get_or lext m 0 / 24 ≡ 0
lext_few = same_table-eq (λ m. get_or lext m 0 / 24) (λ m. 0) 29 refl

pub distance_symbol : (m : ℕ) → m < 30 → whole_symbol (read_code 5 0 (distance_code m)) ≡ m
unfolding read_code bitmirror
distance_symbol =
    same_table-eq (λ m. whole_symbol (read_code 5 0 (distance_code m))) (λ m. m) 30 refl

distance_fits : (m : ℕ) → m < 30 → bitmirror (m * 8) / 32 ≡ 0
unfolding bitmirror
distance_fits = same_table-eq (λ m. bitmirror (m * 8) / 32) (λ m. 0) 30 refl

pub distance_base-dists : (m : ℕ) → m < 30 → distance_base m ≡ get_or dists m 0
unfolding distance_base
distance_base-dists = same_table-eq distance_base (λ m. get_or dists m 0) 30 refl

pub distance_extra-dext : (m : ℕ) → m < 30 → distance_extra m ≡ get_or dext m 0
unfolding distance_extra
distance_extra-dext = same_table-eq distance_extra (λ m. get_or dext m 0) 30 refl

dext_few : (m : ℕ) → m < 30 → get_or dext m 0 / 24 ≡ 0
dext_few = same_table-eq (λ m. get_or dext m 0 / 24) (λ m. 0) 30 refl

-- A second call behind a first one.
pub Appends-bind :
    (s : BitBuffer) (xs ys : List Bool) (run : Run BitBuffer) (next : BitBuffer → Run BitBuffer)
    → Appends s xs run
    → ((s' : BitBuffer) → IsReady s' → Appends s' ys (next s'))
    → Appends s (xs ++ ys) (run >>= next)
Appends-bind s xs ys run next (s₁, done, stream₁, ready₁) k =
    let (s₂, done₂, stream₂, ready₂) = k s₁ ready₁ in
    (
      s₂,
      rw done done₂,
      stream₂ ∙ (ap (λ zs. zs ++ ys) stream₁ ∙ append_assoc (stream s) xs ys),
      ready₂,
    )

push_length_code :
    (s : BitBuffer) (m : ℕ)
    → IsReady s
    → m < 29
    → Appends s (length_code m) (
        if leb (m + 257) 279
        then push_bits (bitmirror ((m + 257 - 256) * 2)) 7 s
        else push_bits (bitmirror (m + 257 + 0xc0 - 280)) 8 s)
push_length_code s m ready h = elim (Bool-cases (leb (m + 257) 279)) [
  | inl short ↦
      let small = rw short at (length_fits m h) in
      rw short (push_bits-stream _ 7 s ready (omega arith) (omega (arith, small)))
  | inr long ↦
      let small = rw long at (length_fits m h) in
      rw long (push_bits-stream _ 8 s ready (omega arith) (omega (arith, small)))
]

-- The bits for a length and a distance by their entries in the tables.
abbrev pub length_bits : ℕ → ℕ → List Bool
length_bits n m = length_code m ++ bits_of (get_or lext m 0) (n - get_or lens m 0)

abbrev pub distance_bits : ℕ → ℕ → List Bool
distance_bits d m = distance_code m ++ bits_of (get_or dext m 0) (d - get_or dists m 0)

pub match_length-stream :
    (s : BitBuffer) (n m : ℕ)
    → IsReady s
    → m < 29
    → search_entry 29 lens max_length n 0 29 ≡ ok m
    → n - get_or lens m 0 < 2 ^ get_or lext m 0
    → Appends s (length_bits n m) (match_length s n)
unfolding match_length
match_length-stream s n m ready h found fits =
    let back : m + 257 - 257 ≡ m = omega arith in
    rw (match_length, found, back)
      (Appends-bind s (length_code m) _ _ _ (push_length_code s m ready h)
        (λ s' ready'. push_bits-stream _ _ s' ready' (omega (arith, lext_few m h)) fits))

pub match_distance-stream :
    (s : BitBuffer) (d m : ℕ)
    → IsReady s
    → m < 30
    → search_entry 30 dists max_distance d 0 30 ≡ ok m
    → d - get_or dists m 0 < 2 ^ get_or dext m 0
    → Appends s (distance_bits d m) (match_distance s d)
unfolding match_distance
match_distance-stream s d m ready h found fits =
    rw (match_distance, found)
      (Appends-bind s (distance_code m) _ _ _
        (push_bits-stream (bitmirror (m * 8)) 5 s ready (omega arith)
          (omega (arith, distance_fits m h)))
        (λ s' ready'. push_bits-stream _ _ s' ready' (omega (arith, dext_few m h)) fits))

-- Both searches find an entry.
pub length_found :
    (n : ℕ) → 3 ≤ n → n ≤ 258 → Hits lens lext 29 n (search_entry 29 lens max_length n 0 29)
length_found n low high =
    let back : n - 3 + 3 ≡ n = omega arith in
    hits-Hits lens lext 29 n _ (rw back at (length_hits (n - 3) (omega arith)))

pub distance_found :
    (d : ℕ) → 1 ≤ d → d ≤ 32768 → Hits dists dext 30 d (search_entry 30 dists max_distance d 0 30)
distance_found d near far =
    let back : d - 1 + 1 ≡ d = omega arith in
    hits-Hits dists dext 30 d _ (rw back at (distance_hits (d - 1) (omega arith)))
