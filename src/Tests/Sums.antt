-- ===== src/Tests/Sums.antt =====
-- ramus/hash/adler-32.hpp on a few bytes.
use mercurial_magic.Prelude.{◌+◌, ◌*◌, ◌%◌, ◌≡◌, refl, [], ◌∷◌, codes, All, IsByte, length}
use mercurial_magic.Ramus.Adler32.{reset, input, input_bytes, output, value}
use mercurial_magic.Ramus.Adler32.Formula.{
  sum, weighted, big_endian, value-input_bytes, output-value,
}

-- The checksum of this word is a known one.
value-wikipedia : value (input_bytes (codes "Wikipedia") reset) ≡ 0x11e60398
unfolding value input_bytes input
value-wikipedia = refl

value-input_bytes_example :
    value (input_bytes (7 ∷ 200 ∷ 3 ∷ []) reset)
    ≡ (3 + weighted (7 ∷ 200 ∷ 3 ∷ [])) % 65521 * 65536 + (1 + sum (7 ∷ 200 ∷ 3 ∷ [])) % 65521
value-input_bytes_example = value-input_bytes (7 ∷ 200 ∷ 3 ∷ [])

output-value_example :
    All IsByte (output (input_bytes (7 ∷ 200 ∷ 3 ∷ []) reset))
    × (length (output (input_bytes (7 ∷ 200 ∷ 3 ∷ []) reset)) ≡ 4)
    × (big_endian 0 (output (input_bytes (7 ∷ 200 ∷ 3 ∷ []) reset))
        ≡ value (input_bytes (7 ∷ 200 ∷ 3 ∷ []) reset))
output-value_example = output-value (7 ∷ 200 ∷ 3 ∷ [])
