-- ===== src/Ramus/Png.antt =====
-- ramus/encode/png.hpp: the filtered image data of PNG::create.
pub mod Bytes
pub mod Rows
pub mod Image
use mercurial_magic.Prelude.{
  ℕ, zero, suc, ◌+◌, ◌-◌, ◌*◌, ◌/◌, ◌%◌, ◌^◌, Bool, ◌&&◌, ◌||◌, List, [], ◌∷◌, ◌++◌, ltb, leb, ◌==◌,
  if◌then◌else◌, Run, ok, ◌>>=◌,
}
use mercurial_magic.Ramus.Memory.{fetch}

-- `(uint8_t)(pixel >> (i << 3))`
unfoldable pub get_byte : (pixel i : ℕ) → ℕ
get_byte pixel i = pixel / 256 ^ i % 256

-- `pixel &= ~0 ^ 0xff << (i << 3)`, and then the byte in its place.
unfoldable pub put_byte : (pixel i byte : ℕ) → ℕ
put_byte pixel i byte = pixel - get_byte pixel i * 256 ^ i + byte * 256 ^ i

unfoldable pub dist : (m n : ℕ) → ℕ
dist m n = if leb m n then n - m else m - n

-- Filter::Paeth. The distance of `a + b - c`, which may be negative, from a, b and c.
unfoldable pub paeth : (a b c : ℕ) → ℕ
paeth a b c =
    let pa = dist (a + b) (c + a) in
    let pb = dist (a + b) (c + b) in
    let pc = dist (a + b) (c + c) in
    if leb pa pb && leb pa pc then a else if leb pb pc then b else c

unfoldable pub filter_byte : (i ac bc cc current : ℕ) → ℕ
filter_byte i ac bc cc current =
    put_byte current i
      ((get_byte current i + 256 - paeth (get_byte ac i) (get_byte bc i) (get_byte cc i)) % 256)

-- The bytes from `i` on, `n` of them.
unfoldable pub filter_bytes : (n i ac bc cc current : ℕ) → ℕ
filter_bytes zero i ac bc cc current = current
filter_bytes (suc n) i ac bc cc current =
    filter_bytes n (i + 1) ac bc cc (filter_byte i ac bc cc current)

unfoldable pub bytes_per_pixel : (alpha : Bool) → ℕ
bytes_per_pixel alpha = if alpha then 4 else 3

-- Red, green, blue, and alpha if there is.
unfoldable pub emit : (alpha : Bool) (pixel : ℕ) → List ℕ
emit alpha pixel =
    get_byte pixel 2
    ∷ get_byte pixel 1
    ∷ get_byte pixel 0
    ∷ (if alpha then get_byte pixel 3 ∷ [] else [])

-- `y * width` in 32 bits: where the row `y` starts.
unfoldable pub row_start : (width y : ℕ) → ℕ
row_start width y = y * width % 4294967296

module _ (alpha : Bool) (image : List ℕ) (width : ℕ) where
  unfoldable pub filter_row : (n y x : ℕ) → Run (List ℕ)
  filter_row zero y x = ok []
  filter_row (suc n) y x = do
    ac ← (if x == 0 then ok 0 else fetch image (row_start width y + x - 1))
    bc ← (if y == 0 then ok 0 else fetch image (row_start width y + x - width))
    cc ← (if x == 0 || y == 0 then ok 0 else fetch image (row_start width y + x - width - 1))
    current ← fetch image (row_start width y + x)
    rest ← filter_row n y (x + 1)
    ok (emit alpha (filter_bytes (bytes_per_pixel alpha) 0 ac bc cc current) ++ rest)

  -- A row starts with the number of Filter::Paeth.
  unfoldable pub filter_rows : (n y : ℕ) → Run (List ℕ)
  filter_rows zero y = ok []
  filter_rows (suc n) y = do
    row ← filter_row width y 0
    rest ← filter_rows n (y + 1)
    ok (4 ∷ row ++ rest)
