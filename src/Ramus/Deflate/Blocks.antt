-- ===== src/Ramus/Deflate/Blocks.antt =====
-- ramus/encode/deflate.hpp: the loops of `compress`, and what a reader makes of their bits.
use mercurial_magic.Prelude.{
  ℕ, zero, suc, ◌+◌, ◌-◌, ◌*◌, ◌/◌, ◌%◌, ◌≤◌, ◌<◌, ◌≡◌, refl, sym, ap, ◌∙◌, Bool, Option, none,
  some, List, [], ◌∷◌, ◌++◌, append_assoc, append-nil, length, get_or, All, IsByte, ltb, arith, ok,
  Bool-cases, inl, inr, ltb→lt, lt→ltb,
}
use mercurial_magic.Ramus.Deflate.{
  BitBuffer, literal, match, hash, find_match, put, HashTable, compress_loop, literals,
}
use mercurial_magic.Ramus.Deflate.Stream.{stream, IsReady}
use mercurial_magic.Ramus.Deflate.Codes.{literal_bits, literal-stream}
use mercurial_magic.Ramus.Deflate.Pairs.{match-IsPair}
use mercurial_magic.Ramus.Deflate.Extend.{fetch-get_or, IsOffer, find_match-IsOffer}
use mercurial_magic.Ramus.Deflate.Writes.{
  Writes, Writes-none, Writes-append, Writes-literal, inflate_pair,
}

-- A loop that has got from p to p' in the source and has appended bits that say so.
abbrev pub Advances : List ℕ → ℕ → BitBuffer → ℕ → BitBuffer → Type 0
Advances source p s p' s' =
    (bits : List Bool) × (stream s' ≡ stream s ++ bits) × IsReady s' × Writes source p p' bits

Advances-none : (source : List ℕ) (p : ℕ) (s : BitBuffer) → IsReady s → Advances source p s p s
Advances-none source p s ready = ([], sym (append-nil (stream s)), ready, Writes-none source p)

Advances-append :
    (source : List ℕ) (p q r : ℕ) (s₁ s₂ s₃ : BitBuffer)
    → Advances source p s₁ q s₂
    → Advances source q s₂ r s₃
    → Advances source p s₁ r s₃
Advances-append source p q r s₁ s₂ s₃ (xs, stream₂, ready₂, first) (ys, stream₃, ready₃, second) = (
  xs ++ ys,
  stream₃ ∙ (ap (λ zs. zs ++ ys) stream₂ ∙ append_assoc (stream s₁) xs ys),
  ready₃,
  Writes-append source p q r xs ys first second,
)

get_or-IsByte : (xs : List ℕ) (i : ℕ) → All IsByte xs → get_or xs i 0 < 256
get_or-IsByte [] i octets = omega arith
get_or-IsByte (x ∷ xs) zero (octet, octets) = omega arith
get_or-IsByte (x ∷ xs) (suc i) (octet, octets) = get_or-IsByte xs i octets

module _ (source : List ℕ) (octets : All IsByte source) where
  literal-Advances :
      (p : ℕ) (s : BitBuffer)
      → p < length source
      → IsReady s
      → (s' : BitBuffer) × (literal s (get_or source p 0) ≡ ok s') × Advances source p s (p + 1) s'
  literal-Advances p s room ready =
      let c = get_or source p 0 in
      let (s', run, appended, ready') = literal-stream s c ready in
      (
        s',
        run,
        (
          literal_bits c,
          appended,
          ready',
          Writes-literal source p room (get_or-IsByte source p octets),
        ),
      )

  pub literals-Advances :
      (n p : ℕ) (s : BitBuffer)
      → p + n ≤ length source
      → IsReady s
      → (s' : BitBuffer) × (literals n source p s ≡ ok s') × Advances source p s (p + n) s'
  unfolding literals
  literals-Advances zero p s room ready =
      let none_left : p ≡ p + 0 = omega arith in
      (s, refl, rw (← none_left) (Advances-none source p s ready))
  literals-Advances (suc n) p s room ready =
      let (s₁, run, first) = literal-Advances p s (omega arith) ready in
      let (s₂, rest, second) = literals-Advances n (p + 1) s₁ (omega arith) first.2 in
      let total : p + 1 + n ≡ p + suc n = omega arith in
      (
        s₂,
        rw (fetch-get_or source p (omega arith), run) rest,
        rw total at (Advances-append source p (p + 1) (p + 1 + n) s s₁ s₂ first second),
      )

  module _ (size : ℕ) (readable : size < length source) where
    match-Advances :
        (p q n : ℕ) (s : BitBuffer)
        → IsOffer source size p (some (q, n))
        → IsReady s
        → (s' : BitBuffer) × (match s (p - q) n ≡ ok s') × Advances source p s (p + n) s'
    match-Advances p q n s offer ready =
        let (before, near, low, high, room, equal) = offer in
        let (bits, (s', run, appended, ready'), pair, some_bits) =
          match-IsPair s (p - q) n ready (low, high) (omega arith, near) in
        (
          s',
          run,
          (
            bits,
            appended,
            ready',
            (
              1,
              some_bits,
              λ total fuel rest e.
                  inflate_pair source size p q n bits total fuel rest readable offer pair e,
            ),
          ),
        )

    hash-ok : (p : ℕ) → p + 3 < size → (bucket : ℕ) × (hash source p ≡ ok bucket)
    unfolding hash
    hash-ok p room =
        let v =
          get_or source p 0 * 65536 + get_or source (p + 1) 0 * 256 + get_or source (p + 2) 0 in
        (
          (v / 4096 + 16777216 - v) % 4096,
          rw
              (
                hash,
                fetch-get_or source p (omega arith),
                fetch-get_or source (p + 1) (omega arith),
                fetch-get_or source (p + 2) (omega arith),
              )
              refl,
        )

    -- The loop ends, somewhere up to the source's end.
    abbrev pub Reaches : ℕ → HashTable → ℕ → BitBuffer → Type 0
    Reaches fuel table p s =
        (p' : ℕ) × (s' : BitBuffer) × (compress_loop fuel source size table p s ≡ ok (p', s'))
        × (p' ≤ size)
        × Advances source p s p' s'

    -- A round with what the bucket has offered, and the rest of the loop.
    round-Reaches :
        (fuel : ℕ) (table : HashTable) (p : ℕ) (s : BitBuffer) (bucket : ℕ) (offer : Option (ℕ × ℕ))
        → p + 3 < size
        → hash source p ≡ ok bucket
        → find_match source size p (table bucket) ≡ ok offer
        → IsOffer source size p offer
        → IsReady s
        → ((p₁ : ℕ) (s₁ : BitBuffer)
            → p < p₁
            → p₁ ≤ size
            → IsReady s₁
            → Reaches fuel (put table bucket p) p₁ s₁)
        → Reaches (suc fuel) table p s
    unfolding compress_loop
    round-Reaches fuel table p s bucket none room hashed found good ready loop =
        let more = lt→ltb (p + 3) size room in
        let (s₁, run, first) = literal-Advances p s (omega arith) ready in
        let (p', s', rest, inside, second) = loop (p + 1) s₁ (omega arith) (omega arith) first.2 in
        (
          p',
          s',
          rw (more, hashed, found, fetch-get_or source p (omega arith), run) rest,
          inside,
          Advances-append source p (p + 1) p' s s₁ s' first second,
        )
    round-Reaches fuel table p s bucket (some (q, n)) room hashed found good ready loop =
        let more = lt→ltb (p + 3) size room in
        let (before, near, low, high, end, equal) = good in
        let (s₁, run, first) = match-Advances p q n s good ready in
        let (p', s', rest, inside, second) = loop (p + n) s₁ (omega arith) end first.2 in
        (
          p',
          s',
          rw (more, hashed, found, run) rest,
          inside,
          Advances-append source p (p + n) p' s s₁ s' first second,
        )

    pub compress_loop-Reaches :
        (fuel : ℕ) (table : HashTable) (p : ℕ) (s : BitBuffer)
        → size < p + fuel
        → p ≤ size
        → IsReady s
        → Reaches fuel table p s
    unfolding compress_loop
    compress_loop-Reaches zero table p s enough inside ready = absurd (omega arith)
    compress_loop-Reaches (suc fuel) table p s enough inside ready =
        elim (Bool-cases (ltb (p + 3) size)) [
          | inr close ↦ (p, s, rw close refl, inside, Advances-none source p s ready)
          | inl more ↦
              let room = ltb→lt (p + 3) size more in
              let (bucket, hashed) = hash-ok p room in
              let (offer, found, good) =
                find_match-IsOffer source size p (table bucket) readable room in
              round-Reaches fuel table p s bucket offer room hashed found good ready
                (λ p₁ s₁ further inside₁ ready₁.
                  compress_loop-Reaches fuel (put table bucket p) p₁ s₁ (omega arith) inside₁
                    ready₁)
        ]
