-- ===== src/Ramus/Deflate/Inflate.antt =====
-- A reader of DEFLATE blocks with fixed codes, after RFC 1951, section 3.2: what ramus/encode/deflate.hpp
-- writes for. Bits that are no block are a fault.
use mercurial_magic.Prelude.{
  ℕ, zero, suc, ◌+◌, ◌-◌, ◌*◌, ◌/◌, ◌%◌, ◌^◌, ◌<◌, ◌≡◌, refl, ap, Bool, true, false, List, [], ◌∷◌,
  ◌++◌, length, ltb, leb, ◌==◌, if◌then◌else◌, arith, ok, fault, stuck, Run, ◌>>=◌, ==_iff,
  Bool-cases, inl, inr,
}
use native.Mathlib.Nat.{pow-suc}
use mercurial_magic.Ramus.Bps.Format.{repeat_from}
use mercurial_magic.Ramus.Deflate.Stream.{bits_of}

abbrev pub bit : Bool → ℕ
bit false = 0
bit true = 1

-- A number, from its lowest bit on, and a code, from its highest bit on.
unfoldable pub read_number : ℕ → List Bool → Run (ℕ × List Bool)
read_number zero bits = ok (0, bits)
read_number (suc n) [] = fault
read_number (suc n) (b ∷ bits) = do (v, rest) ← read_number n bits; ok (bit b + 2 * v, rest)

unfoldable pub read_code : ℕ → ℕ → List Bool → Run (ℕ × List Bool)
read_code zero acc bits = ok (acc, bits)
read_code (suc n) acc [] = fault
read_code (suc n) acc (b ∷ bits) = read_code n (2 * acc + bit b) bits

-- Seven bits up to 0010111; eight from 00110000 and from 11000000; nine from 110010000.
unfoldable pub read_symbol : List Bool → Run (ℕ × List Bool)
read_symbol bits = do
  (seven, bits₁) ← read_code 7 0 bits
  if leb seven 23 then ok (256 + seven, bits₁) else do
    (eight, bits₂) ← read_code 1 seven bits₁
    if leb eight 191
        then ok (eight - 48, bits₂)
        else if leb eight 199
        then ok (280 + eight - 192, bits₂)
        else do (nine, bits₃) ← read_code 1 eight bits₂; ok (144 + nine - 400, bits₃)

-- The extra bits of a length's symbol and its shortest length; and of a distance's.
unfoldable pub length_extra : ℕ → ℕ
length_extra symbol = if leb symbol 264 then 0 else if symbol == 285 then 0 else (symbol - 261) / 4

unfoldable pub length_base : ℕ → ℕ
length_base symbol =
    if leb symbol 264
    then symbol - 254
    else if symbol == 285
    then 258
    else ((symbol - 261) % 4 + 4) * 2 ^ ((symbol - 261) / 4) + 3

unfoldable pub distance_extra : ℕ → ℕ
distance_extra symbol = if ltb symbol 4 then 0 else symbol / 2 - 1

unfoldable pub distance_base : ℕ → ℕ
distance_base symbol =
    if ltb symbol 4 then symbol + 1 else (symbol % 2 + 2) * 2 ^ (symbol / 2 - 1) + 1

-- The length and the distance behind a length's symbol.
unfoldable pub read_match : ℕ → List Bool → Run ((ℕ × ℕ) × List Bool)
read_match symbol bits = do
  (more, bits₁) ← read_number (length_extra symbol) bits
  (code, bits₂) ← read_code 5 0 bits₁
  (far, bits₃) ← read_number (distance_extra code) bits₂
  ok ((length_base symbol + more, distance_base code + far), bits₃)

-- The symbols of a block, up to the end mark, on the output so far. Each round reads a symbol.
unfoldable pub inflate_symbols : ℕ → List Bool → List ℕ → Run (List ℕ)
inflate_symbols zero bits out = stuck
inflate_symbols (suc fuel) bits out = do
  (symbol, bits₁) ← read_symbol bits
  let plain = inflate_symbols fuel bits₁ (out ++ symbol ∷ [])
  let copied = (do
    ((n, distance), bits₂) ← read_match symbol bits₁
    let rest = inflate_symbols fuel bits₂ (repeat_from n (length out - distance) out)
    if ltb (length out) distance then fault else rest)
  if ltb symbol 256 then plain else if symbol == 256 then ok out else copied

-- A last block with fixed codes.
unfoldable pub inflate : List Bool → Run (List ℕ)
inflate bits = do
  (final, bits₁) ← read_number 1 bits
  (kind, bits₂) ← read_number 2 bits₁
  let symbols = inflate_symbols (length bits) bits₂ []
  if final == 1 then (if kind == 1 then symbols else fault) else fault

bit-half : (v : ℕ) → bit (v % 2 == 1) + 2 * (v / 2) ≡ v
bit-half v = elim (Bool-cases (v % 2 == 1)) [
  | inl odd ↦ rw odd (omega (arith, (==_iff (v % 2) 1).0 odd))
  | inr even ↦ rw even (ground arith)
]

pub read_number-bits_of :
    (n v : ℕ) (rest : List Bool) → v < 2 ^ n → read_number n (bits_of n v ++ rest) ≡ ok (v, rest)
unfolding read_number
read_number-bits_of zero v rest h = let none_left : 0 ≡ v = omega arith in rw none_left refl
read_number-bits_of (suc n) v rest h =
    rw (read_number-bits_of n (v / 2) rest (omega (arith, pow-suc 2 n)))
      (ap (λ (k : ℕ). ok (k, rest)) (bit-half v))

-- A reader that leaves some bits leaves them, and what follows them, where more follows.
abbrev pub Extends : List Bool → Run (ℕ × List Bool) → Run (ℕ × List Bool) → Type 0
Extends rest run run' =
    (v : ℕ) (left : List Bool) → run ≡ ok (v, left) → run' ≡ ok (v, left ++ rest)

Extends-ok : (v : ℕ) (left rest : List Bool) → Extends rest (ok (v, left)) (ok (v, left ++ rest))
Extends-ok v left rest w last h = cc h

Extends-bind :
    (rest : List Bool) (run run' : Run (ℕ × List Bool)) (next : ℕ × List Bool → Run (ℕ × List Bool))
    → Extends rest run run'
    → ((v : ℕ) (left : List Bool) → Extends rest (next (v, left)) (next (v, left ++ rest)))
    → Extends rest (run >>= next) (run' >>= next)
Extends-bind rest fault run' next e k w last h = cc h
Extends-bind rest stuck run' next e k w last h = cc h
Extends-bind rest (ok (v, left)) run' next e k w last h = rw (e v left refl) (k v left w last h)

Extends-if :
    (rest : List Bool) (b : Bool) (x y x' y' : Run (ℕ × List Bool))
    → Extends rest x x'
    → Extends rest y y'
    → Extends rest (if b then x else y) (if b then x' else y')
Extends-if rest true x y x' y' e e' = e
Extends-if rest false x y x' y' e e' = e'

pub read_code-append :
    (n acc : ℕ) (bits rest : List Bool)
    → Extends rest (read_code n acc bits) (read_code n acc (bits ++ rest))
unfolding read_code
read_code-append zero acc bits rest = Extends-ok acc bits rest
read_code-append (suc n) acc [] rest = λ v left h. cc h
read_code-append (suc n) acc (b ∷ bits) rest = read_code-append n (2 * acc + bit b) bits rest

pub read_symbol-append :
    (bits rest : List Bool) → Extends rest (read_symbol bits) (read_symbol (bits ++ rest))
unfolding read_symbol
read_symbol-append bits rest =
    Extends-bind rest _ _ _ (read_code-append 7 0 bits rest) λ seven bits₁.
      Extends-if rest (leb seven 23) _ _ _ _ (Extends-ok _ bits₁ rest) (
        Extends-bind rest _ _ _ (read_code-append 1 seven bits₁ rest) λ eight bits₂.
          Extends-if rest (leb eight 191) _ _ _ _ (Extends-ok _ bits₂ rest) (
            Extends-if rest (leb eight 199) _ _ _ _ (Extends-ok _ bits₂ rest) (
              Extends-bind rest _ _ _ (read_code-append 1 eight bits₂ rest)
                λ nine bits₃. Extends-ok _ bits₃ rest)))
