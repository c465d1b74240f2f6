-- ===== src/Ramus/Png/Image.antt =====
-- ramus/encode/png.hpp: the filtered rows of a whole image.
use mercurial_magic.Prelude.{
  ℕ, zero, suc, ◌+◌, ◌-◌, ◌*◌, ◌≤◌, ◌<◌, ◌≡◌, refl, ap, ◌∙◌, Bool, false, Option, none, some, List,
  [], ◌∷◌, ◌++◌, ◌==◌, if◌then◌else◌, length, replicate, ok, arith,
}
use native.Mathlib.Nat.{suc-mul}
use mercurial_magic.Ramus.Png.{bytes_per_pixel, filter_rows}
use mercurial_magic.Ramus.Png.Bytes.{channels}
use mercurial_magic.Ramus.Png.Rows.{unfilter_row, pixels, current, above, filter_row-IsFiltered}

-- Each row starts with the number of its filter. The pixel `blank` stands outside the image.
abbrev pub unfilter_rows :
    (size : ℕ) (blank : List ℕ) (n : ℕ) (over : List (List ℕ))
    → List ℕ
    → Option (List (List (List ℕ)))
unfilter_rows size blank zero over bytes = some []
unfilter_rows size blank (suc n) over [] = none
unfilter_rows size blank (suc n) over (kind ∷ bytes) =
    let (row, rest) = unfilter_row size blank blank over bytes in
    if kind == 4
    then elim (unfilter_rows size blank n row rest) [ none ↦ none | some rows ↦ some (row ∷ rows) ]
    else none

pixels-ext :
    (alpha : Bool) (f g : ℕ → ℕ) (start n : ℕ)
    → ((x : ℕ) → f x ≡ g x)
    → pixels alpha f start n ≡ pixels alpha g start n
pixels-ext alpha f g start zero h = refl
pixels-ext alpha f g start (suc n) h = rw (h start, pixels-ext alpha f g (start + 1) n h) refl

pixels-replicate :
    (alpha : Bool) (start n : ℕ) → pixels alpha (λ x. 0) start n ≡ replicate n (channels alpha 0)
pixels-replicate alpha start zero = refl
pixels-replicate alpha start (suc n) =
    ap (◌∷◌ (channels alpha 0)) (pixels-replicate alpha (start + 1) n)

next_rows :
    (size : ℕ) (blank : List ℕ) (n : ℕ) (over row : List (List ℕ)) (bytes rest : List ℕ)
    (rs : List (List (List ℕ)))
    → unfilter_row size blank blank over bytes ≡ (row, rest)
    → unfilter_rows size blank n row rest ≡ some rs
    → unfilter_rows size blank (suc n) over (4 ∷ bytes) ≡ some (row ∷ rs)
next_rows size blank n over row bytes rest rs h k =
    rw (unfilter_rows, h, k) (ap (λ (found : List (List ℕ) × List ℕ). some (found.0 ∷ rs)) h)

module _ (alpha : Bool) (image : List ℕ) (width : ℕ) where
  -- The rows of the image, from `y` on.
  abbrev pub rows : (y n : ℕ) → List (List (List ℕ))
  rows y zero = []
  rows y (suc n) = pixels alpha (current alpha image width y) 0 width ∷ rows (y + 1) n

  next_row :
      (y : ℕ)
      → pixels alpha (above alpha image width (y + 1)) 0 width
        ≡ pixels alpha (current alpha image width y) 0 width
  next_row y =
      pixels-ext alpha (above alpha image width (y + 1)) (current alpha image width y) 0 width (λ x.
        let more : (y + 1 == 0) ≡ false = ground arith in
        let product : (y + 1) * width ≡ y * width + width =
          ap (λ k. k * width) (omega arith) ∙ suc-mul y width in
        let place : (y + 1) * width + x - width ≡ y * width + x = omega (arith, product) in
        rw (more, place) refl)

  filter_rows-rows :
      (n y : ℕ)
      → y * width + n * width < 4294967296
      → y * width + n * width ≤ length image
      → (bytes : List ℕ) × (filter_rows alpha image width n y ≡ ok bytes)
        × (unfilter_rows
              (bytes_per_pixel alpha)
              (channels alpha 0)
              n
              (pixels alpha (above alpha image width y) 0 width)
              bytes
            ≡ some (rows y n))
  unfolding filter_rows
  filter_rows-rows zero y small h = ([], refl, refl)
  filter_rows-rows (suc n) y small h =
      let product : suc n * width ≡ n * width + width = suc-mul n width in
      let next : (y + 1) * width ≡ y * width + width =
        ap (λ k. k * width) (omega arith) ∙ suc-mul y width in
      let row =
        filter_row-IsFiltered alpha image width y width 0 (omega (arith, product))
          (omega (arith, product)) in
      let (rest, returned, unfiltered) =
        filter_rows-rows n (y + 1) (omega (arith, product, next)) (omega (arith, product, next)) in
      let below = rw (next_row y) at unfiltered in
      (
        4 ∷ row.bytes ++ rest,
        rw (row.returned, returned) refl,
        next_rows _ _ n _ _ (row.bytes ++ rest) rest (rows (y + 1) n) (row.unfiltered rest) below,
      )

  -- For an image of fewer than 2^32 pixels, as many as its width and its height say, the filter
  -- reads only inside it and returns, and from its bytes a reader of rows with the filter Paeth,
  -- after the specification of PNG, gets the channels of all pixels: red, green, blue, and alpha if
  -- there is.
  pub unfilter_rows-filter_rows :
      (height : ℕ)
      → height * width < 4294967296
      → height * width ≤ length image
      → (bytes : List ℕ) × (filter_rows alpha image width height 0 ≡ ok bytes)
        × (unfilter_rows
              (bytes_per_pixel alpha)
              (channels alpha 0)
              height
              (replicate width (channels alpha 0))
              bytes
            ≡ some (rows 0 height))
  unfilter_rows-filter_rows height small h =
      let nothing : 0 * width ≡ 0 = omega arith in
      let (bytes, returned, unfiltered) =
        filter_rows-rows height 0 (omega (arith, nothing)) (omega (arith, nothing)) in
      (bytes, returned, rw (pixels-replicate alpha 0 width) at unfiltered)
