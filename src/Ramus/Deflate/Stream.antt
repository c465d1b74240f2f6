-- ===== src/Ramus/Deflate/Stream.antt =====
-- ramus/encode/deflate.hpp: the bit buffer as a sequence of bits, the lowest bit of a byte first.
use mercurial_magic.Prelude.{
  ℕ, zero, suc, ◌+◌, ◌-◌, ◌*◌, ◌/◌, ◌%◌, ◌^◌, ◌≤◌, ◌<◌, ◌≡◌, refl, sym, ap, ◌∙◌, Bool, List, [],
  ◌∷◌, ◌++◌, append_assoc, append-nil, ◌==◌, arith, ok, u32, ltb-of_le,
}
use native.Mathlib.Nat.{pow-suc, pow-le-pow_right}
use mercurial_magic.Ramus.Deflate.{BitBuffer, flush, push_bits}

abbrev pub bits_of : ℕ → ℕ → List Bool
bits_of zero v = []
bits_of (suc n) v = (v % 2 == 1) ∷ bits_of n (v / 2)

abbrev pub bits_of_bytes : List ℕ → List Bool
bits_of_bytes [] = []
bits_of_bytes (b ∷ bs) = bits_of 8 b ++ bits_of_bytes bs

-- The bits in a buffer: those of its bytes, and those that wait.
abbrev pub stream : BitBuffer → List Bool
stream s = bits_of_bytes s.bytes ++ bits_of s.bit_count s.bit_queue

bits_of_bytes-snoc :
    (bs : List ℕ) (b : ℕ) → bits_of_bytes (bs ++ b ∷ []) ≡ bits_of_bytes bs ++ bits_of 8 b
bits_of_bytes-snoc [] b = append-nil (bits_of 8 b)
bits_of_bytes-snoc (x ∷ bs) b =
    ap (λ ys. bits_of 8 x ++ ys) (bits_of_bytes-snoc bs b)
    ∙ sym (append_assoc (bits_of 8 x) (bits_of_bytes bs) (bits_of 8 b))

-- A number's bits are those of its low part and those of its high part.
split_half : (c q b v : ℕ) → v ≡ q + b * 2 ^ suc c → (v % 2 ≡ q % 2) × (v / 2 ≡ q / 2 + b * 2 ^ c)
split_half c q b v h = omega (arith, ap (λ (t : ℕ). b * t) (pow-suc 2 c))

bits_of-add :
    (c n q b m v : ℕ)
    → q < 2 ^ c
    → m ≡ c + n
    → v ≡ q + b * 2 ^ c
    → bits_of m v ≡ bits_of c q ++ bits_of n b
bits_of-add zero n q b m v h em ev =
    let same : m ≡ n = omega arith in let value : v ≡ b = omega arith in rw (same, value) refl
bits_of-add (suc c) n q b zero v h em ev = absurd (omega arith)
bits_of-add (suc c) n q b (suc m) v h em ev =
    let (low, half) = split_half c q b v ev in
    rw (low, bits_of-add c n (q / 2) b m (v / 2) (omega (arith, pow-suc 2 c)) (omega arith) half)
      refl

pow_add : (c k n : ℕ) → n ≡ c + k → 2 ^ n ≡ 2 ^ c * 2 ^ k
pow_add c zero n h = let same : n ≡ c = omega arith in rw same (omega arith)
pow_add c (suc k) zero h = absurd (omega arith)
pow_add c (suc k) (suc n) h =
    omega (arith, pow-suc 2 n, pow_add c k n (omega arith), ap (λ (t : ℕ). 2 ^ c * t) (pow-suc 2 k))

-- The buffer after a round of `flush`.
abbrev next_byte : BitBuffer → BitBuffer
next_byte s = record {
  bytes = s.bytes ++ s.bit_queue % 256 ∷ [];
  bit_queue = s.bit_queue / 256;
  bit_count = s.bit_count - 8;
}

stream-next_byte : (s : BitBuffer) → 8 ≤ s.bit_count → stream (next_byte s) ≡ stream s
stream-next_byte s full =
    let low = s.bit_queue % 256 in
    let high = bits_of (s.bit_count - 8) (s.bit_queue / 256) in
    ap (λ ys. ys ++ high) (bits_of_bytes-snoc s.bytes low)
    ∙ (append_assoc (bits_of_bytes s.bytes) (bits_of 8 low) high
        ∙ ap (λ ys. bits_of_bytes s.bytes ++ ys)
            (sym (
              bits_of-add 8 (s.bit_count - 8) low (s.bit_queue / 256) s.bit_count s.bit_queue
                (omega arith) (omega arith) (omega arith))))

flush-stream :
    (k : ℕ) (s : BitBuffer)
    → 8 * k ≤ s.bit_count
    → s.bit_queue < 2 ^ s.bit_count
    → (stream (flush k s) ≡ stream s)
      × ((flush k s).bit_count ≡ s.bit_count - 8 * k)
      × ((flush k s).bit_queue < 2 ^ (flush k s).bit_count)
unfolding flush
flush-stream zero s enough small = (refl, omega arith, small)
flush-stream (suc k) s enough small =
    let count = s.bit_count - 8 in
    let power : 2 ^ s.bit_count ≡ 2 ^ count * 256 = pow_add count 8 s.bit_count (omega arith) in
    let (same, less, bound) = flush-stream k (next_byte s) (omega arith) (omega arith) in
    (same ∙ stream-next_byte s (omega arith), omega (arith, less), bound)

below_product : (q b p n : ℕ) → q < p → b < n → q + b * p < p * n
below_product q b p n hq hb =
    let parts : n ≡ b + 1 + (n - 1 - b) = omega arith in omega (arith, ap (λ (t : ℕ). p * t) parts)

-- Between calls fewer than eight bits wait.
pub record IsReady (s : BitBuffer) : Type 0 where
  pub few : s.bit_count < 8
  pub small : s.bit_queue < 2 ^ s.bit_count

-- On a buffer with fewer than eight bits waiting, `pushBits` of n bits, at most 24, returns, and
-- appends them to the buffer's sequence of bits, the lowest first; fewer than eight wait behind it.
pub push_bits-stream :
    (bits n : ℕ) (s : BitBuffer)
    → IsReady s
    → n ≤ 24
    → bits < 2 ^ n
    → (s' : BitBuffer) × (push_bits bits n s ≡ ok s')
      × (stream s' ≡ stream s ++ bits_of n bits)
      × IsReady s'
unfolding push_bits
push_bits-stream bits n s ready short fits =
    let count = s.bit_count + n in
    let queue = s.bit_queue + bits * 2 ^ s.bit_count in
    let whole : queue < 2 ^ count = omega (
      arith,
      below_product s.bit_queue bits (2 ^ s.bit_count) (2 ^ n) ready.small fits,
      pow_add s.bit_count n count refl,
    ) in
    let word : u32 queue ≡ queue =
      let most : 2 ^ count ≤ 2 ^ 31 =
        pow-le-pow_right {n = 2} (omega arith) {i = count} {j = 31} (omega (arith, ready.few)) in
      omega arith in
    let filled : BitBuffer = record s { bit_queue = queue; bit_count = count } in
    let (same, less, bound) = flush-stream (count / 8) filled (omega arith) whole in
    (
      flush (count / 8) filled,
      rw (ltb-of_le 32 count (omega (arith, ready.few)), word) refl,
      same
          ∙ (ap (λ ys. bits_of_bytes s.bytes ++ ys)
                (bits_of-add s.bit_count n s.bit_queue bits count queue ready.small refl refl)
              ∙ sym (
                  append_assoc (bits_of_bytes s.bytes) (bits_of s.bit_count s.bit_queue)
                    (bits_of n bits))),
      record { few = omega (arith, less); small = bound },
    )
