-- ===== src/Ramus/Adler32/Formula.antt =====
-- ramus/hash/adler-32.hpp: the checksum by its definition, as two sums over all bytes.
use mercurial_magic.Prelude.{
  ℕ, ◌+◌, ◌*◌, ◌/◌, ◌%◌, ◌<◌, ◌≡◌, ap, ◌∙◌, List, [], ◌∷◌, length, All, IsByte, arith,
}
use mercurial_magic.Ramus.Adler32.{Adler32, reset, input, input_bytes, output, value}

abbrev pub sum : List ℕ → ℕ
sum [] = 0
sum (x ∷ xs) = x + sum xs

-- Each byte counts as often as it and its followers are in the buffer.
abbrev pub weighted : List ℕ → ℕ
weighted [] = 0
weighted (x ∷ xs) = (length xs + 1) * x + weighted xs

-- A multiple of the modulus may be taken out of a factor.
reduce_factor : (b n t w : ℕ) → (b + n * (t % 65521) + w) % 65521 ≡ (b + n * t + w) % 65521
reduce_factor b n t w =
    let parts : t ≡ t % 65521 + t / 65521 * 65521 = omega arith in
    let times : n * t ≡ n * (t % 65521 + t / 65521 * 65521) = ap (λ (k : ℕ). n * k) parts in
    omega (arith, times)

input_bytes-sums :
    (xs : List ℕ) (s : Adler32)
    → s.a < 65521
    → s.b < 65521
    → ((input_bytes xs s).a ≡ (s.a + sum xs) % 65521)
      × ((input_bytes xs s).b ≡ (s.b + length xs * s.a + weighted xs) % 65521)
unfolding input_bytes input
input_bytes-sums [] s ha hb = (omega arith, omega arith)
input_bytes-sums (x ∷ xs) s ha hb =
    let (first, second) = input_bytes-sums xs (input x s) (omega arith) (omega arith) in
    (
      omega (arith, first),
      second ∙ omega (arith, reduce_factor s.b (length xs + 1) (s.a + x) (weighted xs)),
    )

-- The 32 bits of the checksum of a buffer: above, the sum of the bytes, each as often as it has
-- bytes from itself to the end, and of the number of bytes; below, one more than the sum of the
-- bytes; both modulo 65521.
pub value-input_bytes :
    (bytes : List ℕ)
    → value (input_bytes bytes reset)
      ≡ (length bytes + weighted bytes) % 65521 * 65536 + (1 + sum bytes) % 65521
unfolding value
value-input_bytes bytes =
    let (first, second) = input_bytes-sums bytes reset (omega arith) (omega arith) in
    omega (arith, first, second)

abbrev pub big_endian : ℕ → List ℕ → ℕ
big_endian n [] = n
big_endian n (x ∷ xs) = big_endian (n * 256 + x) xs

-- After any bytes, the checksum is written as four bytes, which are its 32 bits with the highest
-- byte first.
pub output-value :
    (bytes : List ℕ)
    → All IsByte (output (input_bytes bytes reset))
      × (length (output (input_bytes bytes reset)) ≡ 4)
      × (big_endian 0 (output (input_bytes bytes reset)) ≡ value (input_bytes bytes reset))
unfolding output value
output-value bytes =
    let (first, second) = input_bytes-sums bytes reset (omega arith) (omega arith) in
    (
      (omega (arith, second), (omega arith, (omega (arith, first), (omega arith, tt)))),
      omega arith,
      omega arith,
    )
