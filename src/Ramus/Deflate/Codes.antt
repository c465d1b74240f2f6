-- ===== src/Ramus/Deflate/Codes.antt =====
-- ramus/encode/deflate.hpp: the codes of single symbols.
use mercurial_magic.Prelude.{
  ℕ, ◌+◌, ◌-◌, ◌*◌, ◌%◌, ◌<◌, ◌≡◌, refl, Bool, List, [], ◌∷◌, ◌++◌, leb, if◌then◌else◌, arith, ok,
  fault, stuck, Run, Bool-cases, inl, inr, same_table-eq,
}
use mercurial_magic.Ramus.Deflate.{BitBuffer, bitmirror, literal}
use mercurial_magic.Ramus.Deflate.Stream.{bits_of, stream, IsReady, push_bits-stream}
use mercurial_magic.Ramus.Deflate.Inflate.{read_code, read_symbol, read_symbol-append}

-- A call that appends some bits to the stream of a buffer.
abbrev pub Appends : BitBuffer → List Bool → Run BitBuffer → Type 0
Appends s bits run = (s' : BitBuffer) × (run ≡ ok s') × (stream s' ≡ stream s ++ bits) × IsReady s'

abbrev pub literal_bits : ℕ → List Bool
literal_bits c =
    if leb c 143
    then bits_of 8 (bitmirror ((0x30 + c) % 256))
    else bits_of 9 (bitmirror ((0x90 - 144 + c) % 256) * 2 + 1)

bitmirror-IsByte : (v : ℕ) → bitmirror v < 256
unfolding bitmirror
bitmirror-IsByte v = omega arith

pub literal-stream : (s : BitBuffer) (c : ℕ) → IsReady s → Appends s (literal_bits c) (literal s c)
unfolding literal
literal-stream s c ready = elim (Bool-cases (leb c 143)) [
  | inl low ↦ rw (literal, low) (push_bits-stream _ 8 s ready (omega arith) (bitmirror-IsByte _))
  | inr high ↦
      rw (literal, high)
        (push_bits-stream _ 9 s ready (omega arith)
          (omega (arith, bitmirror-IsByte ((0x90 - 144 + c) % 256))))
]

-- The symbol that all of some bits are, or a number that is none.
abbrev pub whole_symbol : Run (ℕ × List Bool) → ℕ
whole_symbol fault = 999
whole_symbol stuck = 999
whole_symbol (ok (v, [])) = v
whole_symbol (ok (v, b ∷ bits)) = 999

pub whole_symbol-eq :
    (run : Run (ℕ × List Bool)) (v : ℕ) → whole_symbol run ≡ v → v < 999 → run ≡ ok (v, [])
whole_symbol-eq fault v h small = absurd (omega arith)
whole_symbol-eq stuck v h small = absurd (omega arith)
whole_symbol-eq (ok (w, [])) v h small = rw h refl
whole_symbol-eq (ok (w, b ∷ bits)) v h small = absurd (omega arith)

literal_table : (c : ℕ) → c < 256 → whole_symbol (read_symbol (literal_bits c)) ≡ c
unfolding read_symbol read_code bitmirror
literal_table = same_table-eq (λ c. whole_symbol (read_symbol (literal_bits c))) (λ c. c) 256 refl

pub read_symbol-literal_bits :
    (c : ℕ) (rest : List Bool) → c < 256 → read_symbol (literal_bits c ++ rest) ≡ ok (c, rest)
read_symbol-literal_bits c rest h =
    read_symbol-append (literal_bits c) rest c []
      (whole_symbol-eq _ c (literal_table c h) (omega arith))
