-- ===== src/Ramus/Deflate/Extend.antt =====
-- ramus/encode/deflate.hpp: the comparison of two places of the source, and a match by its copy.
use mercurial_magic.Prelude.{
  ℕ, zero, suc, ◌+◌, ◌-◌, ◌≤◌, ◌<◌, ◌≡◌, refl, ap, ◌∙◌, Bool, true, false, ◌&&◌, Option, none, some,
  List, [], ◌∷◌, ◌++◌, length, get_or, take, ltb, leb, ◌==◌, arith, ok, Bool-cases, inl, inr,
  ==_iff,
}
use mercurial_magic.Ramus.Memory.{fetch}
use mercurial_magic.Ramus.Bps.Format.{repeat_from}
use mercurial_magic.Ramus.Deflate.{same_bytes, extend, find_match}

pub fetch-get_or : (xs : List ℕ) (i : ℕ) → i < length xs → fetch xs i ≡ ok (get_or xs i 0)
unfolding fetch
fetch-get_or [] i h = absurd (omega arith)
fetch-get_or (x ∷ xs) zero h = refl
fetch-get_or (x ∷ xs) (suc i) h = fetch-get_or xs i (omega arith)

pub take-snoc :
    (n : ℕ) (xs : List ℕ) → n < length xs → take (n + 1) xs ≡ take n xs ++ get_or xs n 0 ∷ []
take-snoc n [] h = absurd (omega arith)
take-snoc zero (x ∷ xs) h = refl
take-snoc (suc n) (x ∷ xs) h =
    let next : suc n + 1 ≡ suc (n + 1) = omega arith in
    rw next (ap (◌∷◌ x) (take-snoc n xs (omega arith)))

get_or-take : (n : ℕ) (xs : List ℕ) (i : ℕ) → i < n → get_or (take n xs) i 0 ≡ get_or xs i 0
get_or-take zero xs i h = absurd (omega arith)
get_or-take (suc n) [] i h = refl
get_or-take (suc n) (x ∷ xs) zero h = refl
get_or-take (suc n) (x ∷ xs) (suc i) h = get_or-take n xs i (omega arith)

-- The same `n` bytes from two places on.
abbrev pub Same : List ℕ → ℕ → ℕ → ℕ → Type 0
Same source p q zero = Unit {0}
Same source p q (suc n) = (get_or source p 0 ≡ get_or source q 0) × Same source (p + 1) (q + 1) n

Same-three :
    (source : List ℕ) (p q k : ℕ)
    → Same source p q 3
    → Same source (p + 3) (q + 3) k
    → Same source p q (suc (suc (suc k)))
Same-three source p q k (a, (b, (c, end))) more =
    let from_p : p + 3 ≡ p + 1 + 1 + 1 = omega arith in
    let from_q : q + 3 ≡ q + 1 + 1 + 1 = omega arith in (a, (b, (c, rw (from_p, from_q) at more)))

test_true :
    (x y n p size : ℕ)
    → (x == y && ltb n 258 && ltb p size) ≡ true
    → (x ≡ y) × (n < 258) × (p < size)
test_true x y n p size h = ground arith

-- A copy from a place in the output so far is what stands next in the source.
pub repeat_from-take :
    (source : List ℕ) (n p q : ℕ)
    → q < p
    → p + n ≤ length source
    → Same source p q n
    → repeat_from n q (take p source) ≡ take (p + n) source
unfolding repeat_from
repeat_from-take source zero p q before room same = let e : p + 0 ≡ p = omega arith in rw e refl
repeat_from-take source (suc n) p q before room (first, same) =
    let e : p + suc n ≡ p + 1 + n = omega arith in
    rw (e, get_or-take p source q before, ← first, ← take-snoc p source (omega arith))
      (repeat_from-take source n (p + 1) (q + 1) (omega arith) (omega arith) same)

same_bytes-Same :
    (source : List ℕ) (n p q : ℕ)
    → p + n ≤ length source
    → q + n ≤ length source
    → (b : Bool) × (same_bytes n source p q ≡ ok b) × (b ≡ true → Same source p q n)
unfolding same_bytes
same_bytes-Same source zero p q hp hq = (true, refl, λ e. tt)
same_bytes-Same source (suc n) p q hp hq =
    let x = fetch-get_or source p (omega arith) in
    let y = fetch-get_or source q (omega arith) in
    let (b, rest, same) = same_bytes-Same source n (p + 1) (q + 1) (omega arith) (omega arith) in
    elim (Bool-cases (get_or source p 0 == get_or source q 0)) [
      | inl equal ↦
          (b, rw (x, y, equal) rest, λ e. ((==_iff _ (get_or source q 0)).0 equal, same e))
      | inr differ ↦ (false, rw (x, y, differ) refl, λ e. cc e)
    ]

module _ (source : List ℕ) (size : ℕ) (readable : size < length source) where
  extend-Same :
      (fuel p q n : ℕ)
      → 259 ≤ n + fuel
      → n ≤ 258
      → p ≤ size
      → q < p
      → (k : ℕ) × (extend fuel source size p q n ≡ ok (n + k))
        × (n + k ≤ 258)
        × (p + k ≤ size)
        × Same source p q k
  unfolding extend
  extend-Same zero p q n enough most inside before = absurd (omega arith)
  extend-Same (suc fuel) p q n enough most inside before =
      let x = fetch-get_or source p (omega arith) in
      let y = fetch-get_or source q (omega arith) in
      let none_more : n ≡ n + 0 = omega arith in
      elim (Bool-cases (get_or source p 0 == get_or source q 0 && ltb n 258 && ltb p size)) [
        | inr last ↦ (0, rw (x, y, last) (ap ok none_more), omega arith, omega arith, tt)
        | inl more ↦
            let (equal, below, inner) =
              test_true (get_or source p 0) (get_or source q 0) n p size more in
            let (k, rest, limit, room, same) =
              extend-Same fuel (p + 1) (q + 1) (n + 1) (omega arith) (omega arith) (omega arith)
                (omega arith) in
            let next : n + 1 + k ≡ n + suc k = omega arith in
            (suc k, rw (x, y, more) (rest ∙ ap ok next), omega arith, omega arith, (equal, same))
      ]

-- What a bucket's offer is: nothing, or a match of three to 258 bytes with an earlier place.
abbrev pub IsOffer : List ℕ → ℕ → ℕ → Option (ℕ × ℕ) → Type 0
IsOffer source size p none = Unit {0}
IsOffer source size p (some (q, n)) =
    (q < p) × (p - q ≤ 32768) × (3 ≤ n) × (n ≤ 258) × (p + n ≤ size) × Same source p q n

pub find_match-IsOffer :
    (source : List ℕ) (size p : ℕ) (bucket : Option ℕ)
    → size < length source
    → p + 3 < size
    → (offer : Option (ℕ × ℕ)) × (find_match source size p bucket ≡ ok offer)
      × IsOffer source size p offer
unfolding find_match
find_match-IsOffer source size p none readable room = (none, refl, tt)
find_match-IsOffer source size p (some q) readable room =
    elim (Bool-cases (ltb q p && leb (p - q) 32768)) [
      | inr far ↦ (none, rw far refl, tt)
      | inl near ↦
          let close : (q < p) × (p - q ≤ 32768) = ground arith in
          let (b, compared, same) = same_bytes-Same source 3 p q (omega arith) (omega arith) in
          elim (Bool-cases b) [
            | inr differ ↦ (none, rw (near, compared, differ) refl, tt)
            | inl equal ↦
                let (k, extended, most, inside, more) =
                  extend-Same source size readable 256 (p + 3) (q + 3) 3 (omega arith) (omega arith)
                    (omega arith) (omega arith) in
                let total : 3 + k ≡ suc (suc (suc k)) = omega arith in
                (
                  some (q, 3 + k),
                  rw (near, compared, equal, extended) refl,
                  (
                    close.0,
                    close.1,
                    omega arith,
                    most,
                    omega arith,
                    rw total (Same-three source p q k (same equal) more),
                  ),
                )
          ]
    ]
