-- ===== src/Ramus/Bps/Number.antt =====
-- ramus/patch/bps-ignore-size.hpp: `decode` on the numbers of the format.
use mercurial_magic.Prelude.{
  ℕ, zero, suc, ◌+◌, ◌-◌, ◌*◌, ◌/◌, ◌%◌, ◌^◌, ◌≤◌, ◌<◌, ◌≡◌, refl, ap, ◌∙◌, List, [], ◌∷◌, ◌++◌,
  length, ltb, ok, arith, u64, append-cons, length-snoc, Bool-cases, inl, inr, low_bits, top_bit,
  ltb→lt, ltb-false→le,
}
use Prim.Native.Nat.{bit_and}
use native.Mathlib.Nat.{pow-suc}
use mercurial_magic.Ramus.Memory.Laws.{fetch-append}
use mercurial_magic.Ramus.Bps.{Crc32, Cursor, read, decode_loop, decode}
use mercurial_magic.Ramus.Bps.Format.{encode_rounds, encode_number}

-- A byte of a number, with and without the top bit.
last_group : (v : ℕ) → v < 128 → (bit_and (128 + v) 0x7f ≡ v) × (bit_and (128 + v) 0x80 ≡ 128)
last_group v h = (
  omega (arith, low_bits (128 + v) (omega arith)),
  omega (arith, top_bit (128 + v) (omega arith)),
)

inner_group : (g : ℕ) → g < 128 → (bit_and g 0x7f ≡ g) × (bit_and g 0x80 ≡ 0)
inner_group g h = (omega (arith, low_bits g (omega arith)), omega (arith, top_bit g (omega arith)))

-- No round of `decode` wraps around.
add_group :
    (acc g shift : ℕ)
    → acc + g * shift < 18446744073709551616
    → u64 (acc + g * shift) ≡ acc + g * shift
add_group acc g shift h = omega arith

add_shift :
    (acc g shift : ℕ)
    → acc + g * shift + 128 * shift < 18446744073709551616
    → (u64 (acc + g * shift + u64 (shift * 128)) ≡ acc + g * shift + 128 * shift)
      × (u64 (shift * 128) ≡ 128 * shift)
add_shift acc g shift h = omega arith

-- The lowest group and the rest, both from `shift` on.
split_groups :
    (acc v shift : ℕ)
    → 128 ≤ v
    → acc + v % 128 * shift + 128 * shift + (v / 128 - 1) * (128 * shift) ≡ acc + v * shift
split_groups acc v shift h =
    let parts : v ≡ (v / 128 - 1) * 128 + 128 + v % 128 = omega arith in
    omega (arith, ap (λ (t : ℕ). t * shift) parts)

module _ {S : Type 0} (crc : Crc32 S) where
  -- The checksum's state after some bytes, and the cursor that has read `front`.
  abbrev pub input_all : S → List ℕ → S
  input_all s [] = s
  input_all s (b ∷ bs) = input_all (crc.input s b) bs

  abbrev pub cursor_at : List ℕ → Cursor S
  cursor_at front = record { offset = length front; checksum = input_all crc.init front }

  pub input_all-snoc :
      (s : S) (bs : List ℕ) (b : ℕ) → input_all s (bs ++ b ∷ []) ≡ crc.input (input_all s bs) b
  input_all-snoc s [] b = refl
  input_all-snoc s (x ∷ bs) b = input_all-snoc (crc.input s x) bs b

  pub read-at :
      (front : List ℕ) (x : ℕ) (rest : List ℕ)
      → length front + 1 < 4294967296
      → read crc (front ++ x ∷ rest) (cursor_at front) ≡ ok (x, cursor_at (front ++ x ∷ []))
  unfolding read
  read-at front x rest h =
      rw (fetch-append front x rest, length-snoc front x, input_all-snoc crc.init front x)
        (ap
          (λ (o : ℕ).
            ok (x, record { offset = o; checksum = crc.input (input_all crc.init front) x }))
          (omega arith))

  -- A last group, and a group with another one behind it.
  decode_last :
      (fuel v acc shift : ℕ) (front rest : List ℕ)
      → v < 128
      → acc + v * shift < 18446744073709551616
      → length front + 1 < 4294967296
      → decode_loop crc (suc fuel) (front ++ (128 + v) ∷ rest) acc shift (cursor_at front)
        ≡ ok (acc + v * shift, cursor_at (front ++ (128 + v) ∷ []))
  unfolding decode_loop
  decode_last fuel v acc shift front rest hv fits short =
      let (low, top) = last_group v hv in
      rw (read-at front (128 + v) rest short, low, top, add_group acc v shift fits) refl

  decode_inner :
      (fuel g acc shift : ℕ) (front rest : List ℕ)
      → g < 128
      → acc + g * shift + 128 * shift < 18446744073709551616
      → length front + 1 < 4294967296
      → decode_loop crc (suc fuel) (front ++ g ∷ rest) acc shift (cursor_at front)
        ≡ decode_loop crc fuel
            (front ++ g ∷ rest)
            (acc + g * shift + 128 * shift)
            (128 * shift)
            (cursor_at (front ++ g ∷ []))
  unfolding decode_loop
  decode_inner fuel g acc shift front rest hg fits short =
      let (low, top) = inner_group g hg in
      let (sum, times) = add_shift acc g shift fits in
      rw (read-at front g rest short, low, top, add_group acc g shift (omega arith), sum, times)
        refl

  -- `acc` counts what was read, and `v` counts from `shift` on.
  decode_loop-encode_rounds :
      (k v acc shift fuel : ℕ) (front rest : List ℕ)
      → v < 128 ^ suc k
      → k < fuel
      → acc + v * shift < 18446744073709551616
      → length front + k + 1 < 4294967296
      → decode_loop crc fuel (front ++ (encode_rounds k v ++ rest)) acc shift (cursor_at front)
        ≡ ok (acc + v * shift, cursor_at (front ++ encode_rounds k v))
  unfolding encode_rounds
  decode_loop-encode_rounds k v acc shift zero front rest hv hf fits short = absurd (omega arith)
  decode_loop-encode_rounds zero v acc shift (suc fuel) front rest hv hf fits short =
      let small : v % 128 ≡ v = omega arith in
      rw small (decode_last fuel v acc shift front rest (omega arith) fits (omega arith))
  decode_loop-encode_rounds (suc k) v acc shift (suc fuel) front rest hv hf fits short =
      elim (Bool-cases (ltb v 128)) [
        | inl small ↦
            rw small
              (decode_last fuel v acc shift front rest (ltb→lt v 128 small) fits (omega arith))
        | inr more ↦
            let big : 128 ≤ v = ltb-false→le v 128 more in
            let sum = split_groups acc v shift big in
            rw (more, append-cons front (v % 128) (encode_rounds k (v / 128 - 1)))
              (decode_inner fuel (v % 128) acc shift front (encode_rounds k (v / 128 - 1) ++ rest)
                  (omega arith) (omega (arith, split_groups acc v shift big)) (omega arith)
                ∙ rw (append-cons front (v % 128) (encode_rounds k (v / 128 - 1) ++ rest), ← sum)
                    (decode_loop-encode_rounds k (v / 128 - 1) (acc + v % 128 * shift + 128 * shift)
                      (128 * shift) fuel (front ++ v % 128 ∷ []) rest
                      (omega (arith, pow-suc 128 (suc k))) (omega arith) (rw sum fits)
                      (omega (arith, length-snoc front (v % 128)))))
      ]

length-encode_rounds :
    (k v : ℕ) → (1 ≤ length (encode_rounds k v)) × (length (encode_rounds k v) ≤ k + 1)
unfolding encode_rounds
length-encode_rounds zero v = omega arith
length-encode_rounds (suc k) v = ground (arith, length-encode_rounds k (v / 128 - 1))

pub length-encode_number :
    (v : ℕ) → (1 ≤ length (encode_number v)) × (length (encode_number v) ≤ 10)
unfolding encode_number
length-encode_number v = omega (arith, length-encode_rounds 9 v)

module _ {S : Type 0} (crc : Crc32 S) where
  -- From the place in a patch at which a 64-bit number was encoded, `decode` returns that number,
  -- with the cursor behind it and all bytes up to there in the checksum. The patch has nine bytes
  -- at least from its start, and the number starts more than ten bytes before the offset's limit.
  pub decode-encode_number :
      (v : ℕ) (front rest : List ℕ)
      → v < 18446744073709551616
      → length front + 10 < 4294967296
      → 9 ≤ length (front ++ (encode_number v ++ rest))
      → decode crc (front ++ (encode_number v ++ rest)) (cursor_at crc front)
        ≡ ok (v, cursor_at crc (front ++ encode_number v))
  unfolding decode encode_number
  decode-encode_number v front rest hv short long =
      let start : 0 + v * 1 ≡ v = omega arith in
      decode_loop-encode_rounds crc 9 v 0 1 _ front rest (omega arith) (omega arith) (omega arith)
        (omega arith)
      ∙ ap (λ (n : ℕ). ok (n, cursor_at crc (front ++ encode_number v))) start
