-- ===== src/Ramus/Png/Rows.antt =====
-- ramus/encode/png.hpp: a reader of filtered rows, as the PNG specification describes it, gets the
-- pixels back.
use mercurial_magic.Prelude.{
  ℕ, zero, suc, ◌+◌, ◌-◌, ◌*◌, ◌%◌, ◌≤◌, ◌<◌, ◌≡◌, refl, Bool, true, false, ◌||◌, List, [], ◌∷◌,
  ◌++◌, append_assoc, ◌==◌, if◌then◌else◌, length, get_or, take, drop, take-append, drop-append,
  Run, ok, arith,
}
use mercurial_magic.Ramus.Memory.{fetch}
use mercurial_magic.Ramus.Deflate.Extend.{fetch-get_or}
use mercurial_magic.Ramus.Png.{filter_bytes, bytes_per_pixel, emit, filter_row, row_start}
use mercurial_magic.Ramus.Png.Bytes.{
  predictor, channels, emit_lem, shifted, emit-filter_bytes, shifted_back,
}

-- Channel by channel, with the pixels to the left, above, and above the left one.
abbrev pub unfilter_pixel : (left up upleft raw : List ℕ) → List ℕ
unfilter_pixel (a ∷ left) (b ∷ up) (c ∷ upleft) (x ∷ raw) =
    (x + predictor a b c) % 256 ∷ unfilter_pixel left up upleft raw
unfilter_pixel left up upleft raw = []

-- The pixels of a row, and the bytes behind it. Outside the image the pixels are zero.
abbrev pub unfilter_row :
    (size : ℕ) (left upleft : List ℕ) (above : List (List ℕ)) → List ℕ → List (List ℕ) × List ℕ
unfilter_row size left upleft [] bytes = ([], bytes)
unfilter_row size left upleft (up ∷ above) bytes =
    let pixel = unfilter_pixel left up upleft (take size bytes) in
    let (pixels, rest) = unfilter_row size pixel up above (drop size bytes) in
    (pixel ∷ pixels, rest)

-- Pixels from `start` on, as their channels.
abbrev pub pixels : (alpha : Bool) (value : ℕ → ℕ) (start n : ℕ) → List (List ℕ)
pixels alpha value start zero = []
pixels alpha value start (suc n) = channels alpha (value start) ∷ pixels alpha value (start + 1) n

length-emit : (alpha : Bool) (p : ℕ) → length (emit alpha p) ≡ bytes_per_pixel alpha
unfolding emit bytes_per_pixel
length-emit true p = refl
length-emit false p = refl

unfilter_pixel-shifted :
    (alpha : Bool) (ac bc kc p : ℕ)
    → unfilter_pixel (emit alpha ac) (emit alpha bc) (emit alpha kc) (
        shifted 2 ac bc kc p
        ∷ shifted 1 ac bc kc p
        ∷ shifted 0 ac bc kc p
        ∷ (if alpha then shifted 3 ac bc kc p ∷ [] else []))
      ≡ emit alpha p
unfolding emit
unfilter_pixel-shifted true ac bc kc p =
    rw
      (
        shifted_back 2 ac bc kc p,
        shifted_back 1 ac bc kc p,
        shifted_back 0 ac bc kc p,
        shifted_back 3 ac bc kc p,
      )
      refl
unfilter_pixel-shifted false ac bc kc p =
    rw (shifted_back 2 ac bc kc p, shifted_back 1 ac bc kc p, shifted_back 0 ac bc kc p) refl

unfilter_pixel-emit :
    (alpha : Bool) (ac bc kc p : ℕ)
    → unfilter_pixel
        (channels alpha ac)
        (channels alpha bc)
        (channels alpha kc)
        (emit alpha (filter_bytes (bytes_per_pixel alpha) 0 ac bc kc p))
      ≡ channels alpha p
unfilter_pixel-emit alpha ac bc kc p =
    let back = unfilter_pixel-shifted alpha ac bc kc p in
    rw (emit-filter_bytes ac bc kc p alpha)
      (rw (emit_lem alpha ac, emit_lem alpha bc, emit_lem alpha kc, emit_lem alpha p) at back)

module _ (alpha : Bool) (image : List ℕ) (width y : ℕ) where
  -- The pixels of the row and of the one above, and the neighbours of a pixel.
  abbrev pub current : ℕ → ℕ
  current x = get_or image (y * width + x) 0

  abbrev pub above : ℕ → ℕ
  above x = if y == 0 then 0 else get_or image (y * width + x - width) 0

  abbrev pub left : ℕ → ℕ
  left x = if x == 0 then 0 else get_or image (y * width + x - 1) 0

  abbrev pub above_left : ℕ → ℕ
  above_left x = if x == 0 || y == 0 then 0 else get_or image (y * width + x - width - 1) 0

  read_if :
      (outside : Bool) (i : ℕ)
      → i < length image
      → (if outside then ok 0 else fetch image i) ≡ ok (if outside then 0 else get_or image i 0)
  read_if true i h = refl
  read_if false i h = fetch-get_or image i h

  left-next : (x : ℕ) → left (x + 1) ≡ current x
  left-next x =
      let more : (x + 1 == 0) ≡ false = ground arith in
      let back : y * width + (x + 1) - 1 ≡ y * width + x = omega arith in rw (more, back) refl

  above_left-next : (x : ℕ) → above_left (x + 1) ≡ above x
  above_left-next x =
      let more : (x + 1 == 0) ≡ false = ground arith in
      let back : y * width + (x + 1) - width - 1 ≡ y * width + x - width = omega arith in
      rw (more, back) refl

  pub record IsFiltered (n x : ℕ) (m : Run (List ℕ)) : Type 0 where
    pub bytes : List ℕ
    pub returned : m ≡ ok bytes
    pub unfiltered :
        (rest : List ℕ)
        → unfilter_row
            (bytes_per_pixel alpha)
            (channels alpha (left x))
            (channels alpha (above_left x))
            (pixels alpha above x n)
            (bytes ++ rest)
          ≡ (pixels alpha current x n, rest)

  -- One pixel in front of others.
  unfilter_next :
      (n x : ℕ) (bytes rest : List ℕ)
      → unfilter_row
          (bytes_per_pixel alpha)
          (channels alpha (current x))
          (channels alpha (above x))
          (pixels alpha above (x + 1) n)
          (bytes ++ rest)
        ≡ (pixels alpha current (x + 1) n, rest)
      → unfilter_row
          (bytes_per_pixel alpha)
          (channels alpha (left x))
          (channels alpha (above_left x))
          (pixels alpha above x (suc n))
          ((emit alpha (
                filter_bytes
                  (bytes_per_pixel alpha)
                  0
                  (left x)
                  (above x)
                  (above_left x)
                  (current x))
              ++ bytes)
            ++ rest)
        ≡ (pixels alpha current x (suc n), rest)
  unfilter_next n x bytes rest h =
      let pixel =
        emit alpha
          (filter_bytes (bytes_per_pixel alpha) 0 (left x) (above x) (above_left x) (current x)) in
      let size : length pixel ≡ bytes_per_pixel alpha = length-emit alpha _ in
      rw
        (
          append_assoc pixel bytes rest,
          take-append pixel (bytes ++ rest) (bytes_per_pixel alpha) size,
          drop-append pixel (bytes ++ rest) (bytes_per_pixel alpha) size,
          unfilter_pixel-emit alpha (left x) (above x) (above_left x) (current x),
          h,
        )
        refl

  pub filter_row-IsFiltered :
      (n x : ℕ)
      → y * width < 4294967296
      → y * width + x + n ≤ length image
      → IsFiltered n x (filter_row alpha image width n y x)
  unfolding filter_row row_start
  filter_row-IsFiltered zero x small h = record {
    bytes = [];
    returned = refl;
    unfiltered = λ rest. refl;
  }
  filter_row-IsFiltered (suc n) x small h =
      let more = filter_row-IsFiltered n (x + 1) small (omega arith) in
      let start : y * width % 4294967296 ≡ y * width = omega arith in
      let here = fetch-get_or image (y * width + x) (omega arith) in
      record {
        bytes =
            emit alpha
              (filter_bytes (bytes_per_pixel alpha) 0 (left x) (above x) (above_left x) (current x))
            ++ more.bytes;
        returned =
            rw
              (
                start,
                read_if (x == 0) (y * width + x - 1) (omega arith),
                read_if (y == 0) (y * width + x - width) (omega arith),
                read_if (x == 0 || y == 0) (y * width + x - width - 1) (omega arith),
                here,
                more.returned,
              )
              refl;
        unfiltered = λ rest.
            unfilter_next n x more.bytes rest
              (rw (left-next x, above_left-next x) at (more.unfiltered rest));
      }
