-- ===== src/Ramus/Zip/Fields.antt =====
-- ramus/encode/zip.hpp: a reader of the fields that writel writes, the low byte first.
use mercurial_magic.Prelude.{
  ℕ, zero, suc, ◌+◌, ◌*◌, ◌/◌, ◌%◌, ◌^◌, ◌<◌, ◌≡◌, refl, ap, Option, none, some, List, [], ◌∷◌,
  ◌++◌, append_assoc, All, length, length-append, arith,
}
use native.Mathlib.Nat.{pow-suc}
use mercurial_magic.Ramus.Zip.{writel, write_fields}

unfoldable pub readl : ℕ → List ℕ → Option (ℕ × List ℕ)
readl zero bytes = some (0, bytes)
readl (suc size) [] = none
readl (suc size) (b ∷ bytes) = elim (readl size bytes) [
  | none ↦ none
  | some (high, rest) ↦ some (b + 256 * high, rest)
]

unfoldable pub read_fields : List ℕ → List ℕ → Option (List ℕ × List ℕ)
read_fields [] bytes = some ([], bytes)
read_fields (size ∷ sizes) bytes = elim (readl size bytes) [
  | none ↦ none
  | some (value, rest) ↦ elim (read_fields sizes rest) [
    | none ↦ none
    | some (values, rest') ↦ some (value ∷ values, rest')
  ]
]

abbrev pub sizes : List (ℕ × ℕ) → List ℕ
sizes [] = []
sizes (field ∷ fields) = field.1 ∷ sizes fields

abbrev pub values : List (ℕ × ℕ) → List ℕ
values [] = []
values (field ∷ fields) = field.0 ∷ values fields

-- A value that its bytes can hold.
abbrev pub Fits : ℕ × ℕ → Type 0
Fits field = field.0 < 256 ^ field.1

readl-writel :
    (size value : ℕ) (rest : List ℕ)
    → value < 256 ^ size
    → readl size (writel value size ++ rest) ≡ some (value, rest)
unfolding readl writel
readl-writel zero value rest small =
    let nothing : 0 ≡ value = omega arith in ap (λ v. some (v, rest)) nothing
readl-writel (suc size) value rest small =
    let high : value / 256 < 256 ^ size = omega (arith, pow-suc 256 size) in
    let back : value % 256 + 256 * (value / 256) ≡ value = omega arith in
    rw (readl-writel size (value / 256) rest high) (ap (λ v. some (v, rest)) back)

pub read_fields-write_fields :
    (fields : List (ℕ × ℕ)) (rest : List ℕ)
    → All Fits fields
    → read_fields (sizes fields) (write_fields fields ++ rest) ≡ some (values fields, rest)
unfolding read_fields write_fields
read_fields-write_fields [] rest fits = refl
read_fields-write_fields (field ∷ fields) rest fits =
    rw
      (
        append_assoc (writel field.0 field.1) (write_fields fields) rest,
        read_fields,
        readl-writel field.1 field.0 (write_fields fields ++ rest) fits.0,
        read_fields-write_fields fields rest fits.1,
      )
      refl

length-writel : (value size : ℕ) → length (writel value size) ≡ size
unfolding writel
length-writel value zero = refl
length-writel value (suc size) = ap suc (length-writel (value / 256) size)

abbrev total : List (ℕ × ℕ) → ℕ
total [] = 0
total (field ∷ fields) = field.1 + total fields

pub length-write_fields : (fields : List (ℕ × ℕ)) → length (write_fields fields) ≡ total fields
unfolding write_fields
length-write_fields [] = refl
length-write_fields (field ∷ fields) = omega (
  arith,
  length-append (writel field.0 field.1) (write_fields fields),
  length-writel field.0 field.1,
  length-write_fields fields,
)
