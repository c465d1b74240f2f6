-- ===== src/Ramus/Deflate/Writes.antt =====
-- ramus/encode/deflate.hpp: what bits of a literal, and of a match, make a reader write.
use mercurial_magic.Prelude.{
  ℕ, zero, suc, ◌+◌, ◌-◌, ◌≤◌, ◌<◌, ◌≡◌, refl, ap, ◌∙◌, Bool, false, some, List, [], ◌++◌,
  append_assoc, length, length-append, length-take_le, get_or, take, leb, ◌==◌, arith, Bool-cases,
  inl, inr, ltb-of_le, lt→ltb,
}
use mercurial_magic.Ramus.Deflate.Inflate.{inflate_symbols}
use mercurial_magic.Ramus.Deflate.Codes.{literal_bits, read_symbol-literal_bits}
use mercurial_magic.Ramus.Deflate.Pairs.{IsPair}
use mercurial_magic.Ramus.Deflate.Extend.{take-snoc, repeat_from-take, IsOffer}

-- Bits that take a reader from the first p bytes of the source to the first p', in some rounds.
abbrev pub Writes : List ℕ → ℕ → ℕ → List Bool → Type 0
Writes source p p' bits =
    (k : ℕ) × (k ≤ length bits)
    × ((total fuel : ℕ) (rest : List Bool)
        → total ≡ k + fuel
        → inflate_symbols total (bits ++ rest) (take p source)
          ≡ inflate_symbols fuel rest (take p' source))

pub Writes-none : (source : List ℕ) (p : ℕ) → Writes source p p []
Writes-none source p = (
  0,
  omega arith,
  λ total fuel rest e. ap (λ (f : ℕ). inflate_symbols f rest (take p source)) (e ∙ omega arith),
)

pub Writes-append :
    (source : List ℕ) (p q r : ℕ) (xs ys : List Bool)
    → Writes source p q xs
    → Writes source q r ys
    → Writes source p r (xs ++ ys)
Writes-append source p q r xs ys (k, few, first) (l, few', second) = (
  k + l,
  omega (arith, length-append xs ys),
  λ total fuel rest e.
      rw (append_assoc xs ys rest)
        (first total (l + fuel) (ys ++ rest) (omega arith) ∙ second (l + fuel) fuel rest refl),
)

literal_bits-not_empty : (c : ℕ) → 1 ≤ length (literal_bits c)
literal_bits-not_empty c = elim (Bool-cases (leb c 143)) [
  | inl low ↦ rw low (omega arith)
  | inr high ↦ rw high (omega arith)
]

inflate_literal :
    (source : List ℕ) (p : ℕ) (total fuel : ℕ) (rest : List Bool)
    → p < length source
    → get_or source p 0 < 256
    → total ≡ 1 + fuel
    → inflate_symbols total (literal_bits (get_or source p 0) ++ rest) (take p source)
      ≡ inflate_symbols fuel rest (take (p + 1) source)
unfolding inflate_symbols
inflate_literal source p zero fuel rest room small e = absurd (omega arith)
inflate_literal source p (suc total) fuel rest room small e =
    let same : total ≡ fuel = omega arith in
    rw
      (
        read_symbol-literal_bits (get_or source p 0) rest small,
        lt→ltb (get_or source p 0) 256 small,
        ← take-snoc p source room,
        same,
      )
      refl

pub Writes-literal :
    (source : List ℕ) (p : ℕ)
    → p < length source
    → get_or source p 0 < 256
    → Writes source p (p + 1) (literal_bits (get_or source p 0))
Writes-literal source p room small = (
  1,
  literal_bits-not_empty (get_or source p 0),
  λ total fuel rest e. inflate_literal source p total fuel rest room small e,
)

pub inflate_pair :
    (source : List ℕ) (size p q n : ℕ) (bits : List Bool) (total fuel : ℕ) (rest : List Bool)
    → size < length source
    → IsOffer source size p (some (q, n))
    → IsPair n (p - q) bits
    → total ≡ 1 + fuel
    → inflate_symbols total (bits ++ rest) (take p source)
      ≡ inflate_symbols fuel rest (take (p + n) source)
unfolding inflate_symbols
inflate_pair source size p q n bits zero fuel rest readable offer pair e = absurd (omega arith)
inflate_pair source size p q n bits (suc total) fuel rest readable
      (before, near, low, high, room, equal) pair e =
    let (symbol, left, read, big, told) = pair rest in
    let same : total ≡ fuel = omega arith in
    let out : length (take p source) ≡ p = length-take_le p source (omega arith) in
    let place : p - (p - q) ≡ q = omega arith in
    let other : (symbol == 256) ≡ false = ground arith in
    rw
      (
        read,
        ltb-of_le symbol 256 (omega arith),
        other,
        told,
        out,
        ltb-of_le p (p - q) (omega arith),
        place,
        repeat_from-take source n p q before (omega arith) equal,
        same,
      )
      refl
