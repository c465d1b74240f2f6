-- ===== src/Tests/Png.antt =====
-- ramus/encode/png.hpp: an image of two rows.
use mercurial_magic.Prelude.{ℕ, ◌≡◌, true, some, List, [], ◌∷◌, replicate, ok, arith}
use mercurial_magic.Ramus.Png.{bytes_per_pixel, filter_rows}
use mercurial_magic.Ramus.Png.Bytes.{channels}
use mercurial_magic.Ramus.Png.Image.{unfilter_rows, rows, unfilter_rows-filter_rows}

abbrev four_pixels : List ℕ
four_pixels = 0xff102030 ∷ 0x80402010 ∷ 0 ∷ 0x7f80ff01 ∷ []

unfilter_rows-filter_rows_example :
    (bytes : List ℕ) × (filter_rows true four_pixels 2 2 0 ≡ ok bytes)
    × (unfilter_rows
          (bytes_per_pixel true)
          (channels true 0)
          2
          (replicate 2 (channels true 0))
          bytes
        ≡ some (rows true four_pixels 2 0 2))
unfilter_rows-filter_rows_example =
    unfilter_rows-filter_rows true four_pixels 2 2 (omega arith) (omega arith)
