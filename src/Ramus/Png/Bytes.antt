-- ===== src/Ramus/Png/Bytes.antt =====
-- ramus/encode/png.hpp: the bytes of a filtered pixel.
use mercurial_magic.Prelude.{
  ℕ, ◌+◌, ◌-◌, ◌*◌, ◌/◌, ◌%◌, ◌<◌, ◌≡◌, refl, sym, ap, ◌∙◌, Bool, true, false, ◌&&◌, List, [], ◌∷◌,
  leb, ltb, if◌then◌else◌, arith,
}
use mercurial_magic.Ramus.Png.{
  get_byte, put_byte, dist, paeth, filter_byte, filter_bytes, bytes_per_pixel, emit,
}

paeth_bound : (a b c : ℕ) → a < 256 → b < 256 → c < 256 → paeth a b c < 256
unfolding paeth
paeth_bound a b c ha hb hc = ground arith

-- The distance of two numbers.
abbrev pub apart : (m n : ℕ) → ℕ
apart m n = (m - n) + (n - m)

-- The predictor of the filter Paeth, after the PNG specification: of the bytes to the left, above,
-- and above the left one, the first that is nearest to `a + b - c`. From there b is as far as a is
-- from c.
abbrev pub predictor : (a b c : ℕ) → ℕ
predictor a b c =
    let pa = apart b c in
    let pb = apart a c in
    let pc = apart (a + b) (2 * c) in
    if ltb pc pa && ltb pc pb then c else if ltb pb pa then b else a

dist_left : (a b c : ℕ) → dist (a + b) (c + a) ≡ apart b c
unfolding dist
dist_left a b c = ground arith

dist_above : (a b c : ℕ) → dist (a + b) (c + b) ≡ apart a c
unfolding dist
dist_above a b c = ground arith

dist_corner : (a b c : ℕ) → dist (a + b) (c + c) ≡ apart (a + b) (2 * c)
unfolding dist
dist_corner a b c = ground arith

nearest :
    (pa pb pc a b c : ℕ)
    → (if leb pa pb && leb pa pc then a else if leb pb pc then b else c)
      ≡ (if ltb pc pa && ltb pc pb then c else if ltb pb pa then b else a)
nearest pa pb pc a b c = ground arith

paeth_lem : (a b c : ℕ) → paeth a b c ≡ predictor a b c
unfolding paeth
paeth_lem a b c =
    rw (dist_left a b c, dist_above a b c, dist_corner a b c)
      (nearest (apart b c) (apart a c) (apart (a + b) (2 * c)) a b c)

-- The channels of a pixel: red, green, blue, and alpha if there is.
abbrev pub channels : (alpha : Bool) (pixel : ℕ) → List ℕ
channels alpha pixel =
    pixel / 65536 % 256
    ∷ pixel / 256 % 256
    ∷ pixel % 256
    ∷ (if alpha then pixel / 16777216 % 256 ∷ [] else [])

pub emit_lem : (alpha : Bool) (pixel : ℕ) → emit alpha pixel ≡ channels alpha pixel
unfolding emit get_byte
emit_lem alpha pixel =
    let blue : pixel / 1 % 256 ≡ pixel % 256 = omega arith in
    ap
      (λ (b : ℕ).
        pixel / 65536 % 256
        ∷ pixel / 256 % 256
        ∷ b
        ∷ (if alpha then pixel / 16777216 % 256 ∷ [] else []))
      blue

get_byte_bound : (pixel i : ℕ) → get_byte pixel i < 256
unfolding get_byte
get_byte_bound pixel i = omega arith

get_byte-put_byte :
    (pixel byte : ℕ)
    → byte < 256
    → (get_byte (put_byte pixel 0 byte) 0 ≡ byte)
      × (get_byte (put_byte pixel 1 byte) 1 ≡ byte)
      × (get_byte (put_byte pixel 2 byte) 2 ≡ byte)
      × (get_byte (put_byte pixel 3 byte) 3 ≡ byte)
unfolding get_byte put_byte
get_byte-put_byte pixel byte h = (omega arith, omega arith, omega arith, omega arith)

put_low :
    (pixel byte : ℕ)
    → byte < 256
    → (get_byte (put_byte pixel 0 byte) 1 ≡ get_byte pixel 1)
      × (get_byte (put_byte pixel 0 byte) 2 ≡ get_byte pixel 2)
      × (get_byte (put_byte pixel 0 byte) 3 ≡ get_byte pixel 3)
      × (get_byte (put_byte pixel 1 byte) 2 ≡ get_byte pixel 2)
      × (get_byte (put_byte pixel 1 byte) 3 ≡ get_byte pixel 3)
      × (get_byte (put_byte pixel 2 byte) 3 ≡ get_byte pixel 3)
unfolding get_byte put_byte
put_low pixel byte h =
    (omega arith, omega arith, omega arith, omega arith, omega arith, omega arith)

put_high :
    (pixel byte : ℕ)
    → byte < 256
    → (get_byte (put_byte pixel 1 byte) 0 ≡ get_byte pixel 0)
      × (get_byte (put_byte pixel 2 byte) 0 ≡ get_byte pixel 0)
      × (get_byte (put_byte pixel 3 byte) 0 ≡ get_byte pixel 0)
      × (get_byte (put_byte pixel 2 byte) 1 ≡ get_byte pixel 1)
      × (get_byte (put_byte pixel 3 byte) 1 ≡ get_byte pixel 1)
      × (get_byte (put_byte pixel 3 byte) 2 ≡ get_byte pixel 2)
unfolding get_byte put_byte
put_high pixel byte h =
    (omega arith, omega arith, omega arith, omega arith, omega arith, omega arith)

-- A byte less its prediction.
abbrev pub shifted : (i ac bc cc current : ℕ) → ℕ
shifted i ac bc cc current =
    (get_byte current i + 256 - paeth (get_byte ac i) (get_byte bc i) (get_byte cc i)) % 256

shifted_bound : (i ac bc cc current : ℕ) → shifted i ac bc cc current < 256
shifted_bound i ac bc cc current = omega arith

module _ (ac bc cc p : ℕ) where
  abbrev first : ℕ
  first = filter_byte 0 ac bc cc p

  abbrev second : ℕ
  second = filter_byte 1 ac bc cc first

  abbrev third : ℕ
  third = filter_byte 2 ac bc cc second

  abbrev fourth : ℕ
  fourth = filter_byte 3 ac bc cc third

  bytes_first :
      (get_byte first 0 ≡ shifted 0 ac bc cc p)
      × (get_byte first 1 ≡ get_byte p 1)
      × (get_byte first 2 ≡ get_byte p 2)
      × (get_byte first 3 ≡ get_byte p 3)
  unfolding filter_byte
  bytes_first =
      let small = shifted_bound 0 ac bc cc p in
      let own = get_byte-put_byte p (shifted 0 ac bc cc p) small in
      let (b1, b2, b3, _, _, _) = put_low p (shifted 0 ac bc cc p) small in (own.0, b1, b2, b3)

  bytes_second :
      (get_byte second 0 ≡ shifted 0 ac bc cc p)
      × (get_byte second 1 ≡ shifted 1 ac bc cc p)
      × (get_byte second 2 ≡ get_byte p 2)
      × (get_byte second 3 ≡ get_byte p 3)
  unfolding filter_byte
  bytes_second =
      let (a0, a1, a2, a3) = bytes_first in
      let small = shifted_bound 1 ac bc cc first in
      let (_, own, _, _) = get_byte-put_byte first (shifted 1 ac bc cc first) small in
      let (_, _, _, b2, b3, _) = put_low first (shifted 1 ac bc cc first) small in
      let (b0, _, _, _, _, _) = put_high first (shifted 1 ac bc cc first) small in
      (
        b0 ∙ a0,
        own ∙ ap (λ b. (b + 256 - paeth (get_byte ac 1) (get_byte bc 1) (get_byte cc 1)) % 256) a1,
        b2 ∙ a2,
        b3 ∙ a3,
      )

  bytes_third :
      (get_byte third 0 ≡ shifted 0 ac bc cc p)
      × (get_byte third 1 ≡ shifted 1 ac bc cc p)
      × (get_byte third 2 ≡ shifted 2 ac bc cc p)
      × (get_byte third 3 ≡ get_byte p 3)
  unfolding filter_byte
  bytes_third =
      let (a0, a1, a2, a3) = bytes_second in
      let small = shifted_bound 2 ac bc cc second in
      let (_, _, own, _) = get_byte-put_byte second (shifted 2 ac bc cc second) small in
      let (_, _, _, _, _, b3) = put_low second (shifted 2 ac bc cc second) small in
      let (_, b0, _, b1, _, _) = put_high second (shifted 2 ac bc cc second) small in
      (
        b0 ∙ a0,
        b1 ∙ a1,
        own ∙ ap (λ b. (b + 256 - paeth (get_byte ac 2) (get_byte bc 2) (get_byte cc 2)) % 256) a2,
        b3 ∙ a3,
      )

  bytes_fourth :
      (get_byte fourth 0 ≡ shifted 0 ac bc cc p)
      × (get_byte fourth 1 ≡ shifted 1 ac bc cc p)
      × (get_byte fourth 2 ≡ shifted 2 ac bc cc p)
      × (get_byte fourth 3 ≡ shifted 3 ac bc cc p)
  unfolding filter_byte
  bytes_fourth =
      let (a0, a1, a2, a3) = bytes_third in
      let small = shifted_bound 3 ac bc cc third in
      let (_, _, _, own) = get_byte-put_byte third (shifted 3 ac bc cc third) small in
      let (_, _, b0, _, b1, b2) = put_high third (shifted 3 ac bc cc third) small in
      (
        b0 ∙ a0,
        b1 ∙ a1,
        b2 ∙ a2,
        own ∙ ap (λ b. (b + 256 - paeth (get_byte ac 3) (get_byte bc 3) (get_byte cc 3)) % 256) a3,
      )

  -- The channels of a filtered pixel.
  pub emit-filter_bytes :
      (alpha : Bool)
      → emit alpha (filter_bytes (bytes_per_pixel alpha) 0 ac bc cc p)
        ≡ shifted 2 ac bc cc p
          ∷ shifted 1 ac bc cc p
          ∷ shifted 0 ac bc cc p
          ∷ (if alpha then shifted 3 ac bc cc p ∷ [] else [])
  unfolding emit filter_bytes bytes_per_pixel
  emit-filter_bytes true = let (a0, a1, a2, a3) = bytes_fourth in rw (a0, a1, a2, a3) refl
  emit-filter_bytes false = let (a0, a1, a2, a3) = bytes_third in rw (a0, a1, a2) refl

-- What a reader adds to a filtered byte gives the byte.
pub shifted_back :
    (i ac bc cc p : ℕ)
    → (shifted i ac bc cc p + predictor (get_byte ac i) (get_byte bc i) (get_byte cc i)) % 256
      ≡ get_byte p i
shifted_back i ac bc cc p =
    let byte = get_byte_bound p i in
    let same = paeth_lem (get_byte ac i) (get_byte bc i) (get_byte cc i) in
    let guess =
      paeth_bound (get_byte ac i) (get_byte bc i) (get_byte cc i) (get_byte_bound ac i)
        (get_byte_bound bc i) (get_byte_bound cc i) in
    let back : (shifted i ac bc cc p + paeth (get_byte ac i) (get_byte bc i) (get_byte cc i)) % 256
        ≡ get_byte p i =
      omega arith in
    ap (λ (g : ℕ). (shifted i ac bc cc p + g) % 256) (sym same) ∙ back
