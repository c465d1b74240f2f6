-- ===== src/Prelude/Bits.antt =====
-- Bit operations over a byte, checked at every value.
use Prim.Native.Nat.{ℕ, zero, suc, ◌*◌, ◌/◌, ◌%◌, ◌<◌, bit_and}
use mathlib.Core.Path.{◌≡◌, refl}
use mathlib.Core.Logic.{inl, inr}
use mathlib.Core.Bool.{Bool, true, false, ◌&&◌}
use native.Mathlib.Omega.{arith}
use mercurial_magic.Prelude.Tests.{◌==◌, ==_iff, ltb, ltb→lt, ltb-false→le, Bool-cases}

abbrev pub same_table : (f g : ℕ → ℕ) → ℕ → Bool
same_table f g zero = true
same_table f g (suc size) = same_table f g size && f size == g size

both : (a b : Bool) → (a && b) ≡ true → (a ≡ true) × (b ≡ true)
both true b h = (refl, h)
both false b h = cc h

-- Two functions with the same table agree at each of its inputs.
pub same_table-eq :
    (f g : ℕ → ℕ) (size : ℕ) → same_table f g size ≡ true → (i : ℕ) → i < size → f i ≡ g i
same_table-eq f g zero table i small = absurd (omega arith)
same_table-eq f g (suc size) table i small =
    let (before, last) = both (same_table f g size) (f size == g size) table in
    elim (Bool-cases (ltb i size)) [
      | inl less ↦ same_table-eq f g size before i (ltb→lt i size less)
      | inr other ↦
          let top : i ≡ size = omega (arith, ltb-false→le i size other) in
          rw top ((==_iff (f size) (g size)).0 last)
    ]

pub low_bits : (b : ℕ) → b < 256 → bit_and b 0x7f ≡ b % 128
low_bits = same_table-eq (λ b. bit_and b 0x7f) (λ b. b % 128) 256 refl

pub top_bit : (b : ℕ) → b < 256 → bit_and b 0x80 ≡ b / 128 * 128
top_bit = same_table-eq (λ b. bit_and b 0x80) (λ b. b / 128 * 128) 256 refl
