-- ===== src/Ramus/ShiftJis/Unicode.antt =====
-- ramus/shift-jis.hpp: the converted text, against UTF-8 as RFC 3629 describes it.
use mercurial_magic.Prelude.{
  ℕ, ◌+◌, ◌-◌, ◌*◌, ◌/◌, ◌%◌, ◌≤◌, ◌<◌, ◌≡◌, ◌≢◌, refl, sym, ap, ◌∙◌, true, false, inl, inr,
  Bool-cases, List, [], ◌∷◌, ◌++◌, append_assoc, append-nil, Text, ltb, ltb-false→le, ◌==◌,
  if◌then◌else◌, length, get_or, All, ok, arith,
}
use mercurial_magic.Ramus.ShiftJis.{utf8_buffer, low_byte, shift_jis_to_utf8}
use mercurial_magic.Ramus.ShiftJis.Rows.{
  Character, ascii, kana, kanji, IsCharacter, encode, encode_all, decoded, decoded_all,
  shift_jis_to_utf8-decoded_all,
}

-- A code point in UTF-8: the shortest form that holds it.
abbrev pub utf8 : ℕ → Text
utf8 n =
    if ltb n 0x80
    then n ∷ []
    else if ltb n 0x800
    then (0xc0 + n / 64) ∷ (0x80 + n % 64) ∷ []
    else if ltb n 0x10000
    then (0xe0 + n / 4096) ∷ (0x80 + n / 64 % 64) ∷ (0x80 + n % 64) ∷ []
    else (0xf0 + n / 262144) ∷ (0x80 + n / 4096 % 64) ∷ (0x80 + n / 64 % 64) ∷ (0x80 + n % 64) ∷ []

abbrev pub utf8_all : List ℕ → Text
utf8_all [] = []
utf8_all (n ∷ ns) = utf8 n ++ utf8_all ns

-- The entry of the table for a row and a cell.
abbrev pub entry : (jis0208 : List ℕ) (row cell : ℕ) → ℕ
entry jis0208 row cell = get_or jis0208 ((row - 1) * 94 + (cell - 1)) 0

-- The code points of a character: the backslash is a yen sign and the tilde a macron, a zero byte
-- is left out, and katakana stand at 0xff61.
abbrev pub code_points : List ℕ → Character → List ℕ
code_points jis0208 (ascii b) =
    if b == 0x5c then 0xa5 ∷ [] else if b == 0x7e then 0xaf ∷ [] else if b == 0 then [] else b ∷ []
code_points jis0208 (kana b) = (b - 0xa1 + 0xff61) ∷ []
code_points jis0208 (kanji row cell) = entry jis0208 row cell ∷ []

abbrev pub code_points_all : List ℕ → List Character → List ℕ
code_points_all jis0208 [] = []
code_points_all jis0208 (c ∷ cs) = code_points jis0208 c ++ code_points_all jis0208 cs

-- A character of one or two bytes in UTF-8 may not be one of the table.
abbrev pub IsLong : List ℕ → Character → Type 0
IsLong jis0208 (ascii b) = Unit
IsLong jis0208 (kana b) = Unit
IsLong jis0208 (kanji row cell) =
    (0x800 ≤ entry jis0208 row cell) × (entry jis0208 row cell < 0x10000)

utf8_buffer_lem : (n : ℕ) → 0x800 ≤ n → n < 0x10000 → utf8_buffer n ≡ utf8 n
unfolding utf8_buffer
utf8_buffer_lem n low high =
    let no_ascii : ltb n 0x80 ≡ false = ground arith in
    let no_two : ltb n 0x800 ≡ false = ground arith in
    let three : ltb n 0x10000 ≡ true = ground arith in
    let first : n / 4096 % 16 + 0xe0 ≡ 0xe0 + n / 4096 = omega arith in
    let second : n / 64 % 64 + 0x80 ≡ 0x80 + n / 64 % 64 = omega arith in
    let third : n % 64 + 0x80 ≡ 0x80 + n % 64 = omega arith in
    rw (no_ascii, no_two, three, first, second, third) refl

low_byte_lem :
    (jis0208 : List ℕ) (b : ℕ) → b < 0x80 → low_byte b ≡ utf8_all (code_points jis0208 (ascii b))
unfolding low_byte
low_byte_lem jis0208 b small = elim (Bool-cases (b == 0x5c)) [
  | inl yen ↦ rw yen refl
  | inr no_yen ↦ elim (Bool-cases (b == 0x7e)) [
    | inl macron ↦ rw (no_yen, macron) refl
    | inr no_macron ↦ elim (Bool-cases (b == 0)) [
      | inl zero ↦ rw (no_yen, no_macron, zero) refl
      | inr other ↦
          let one : ltb b 0x80 ≡ true = ground arith in rw (no_yen, no_macron, other, one) refl
    ]
  ]
]

decoded-code_points :
    (jis0208 : List ℕ) (c : Character)
    → IsCharacter c
    → IsLong jis0208 c
    → decoded jis0208 c ≡ utf8_all (code_points jis0208 c)
decoded-code_points jis0208 (ascii b) h long = low_byte_lem jis0208 b h
decoded-code_points jis0208 (kana b) (h₁, h₂) long =
    utf8_buffer_lem (b - 0xa1 + 0xff61) (omega arith) (omega arith)
    ∙ sym (append-nil (utf8 (b - 0xa1 + 0xff61)))
decoded-code_points jis0208 (kanji row cell) h (low, high) =
    utf8_buffer_lem (entry jis0208 row cell) low high
    ∙ sym (append-nil (utf8 (entry jis0208 row cell)))

utf8_all-append : (ms ns : List ℕ) → utf8_all (ms ++ ns) ≡ utf8_all ms ++ utf8_all ns
utf8_all-append [] ns = refl
utf8_all-append (m ∷ ms) ns =
    ap (λ (text : Text). utf8 m ++ text) (utf8_all-append ms ns)
    ∙ sym (append_assoc (utf8 m) (utf8_all ms) (utf8_all ns))

decoded_all-code_points_all :
    (jis0208 : List ℕ) (cs : List Character)
    → All IsCharacter cs
    → All (IsLong jis0208) cs
    → decoded_all jis0208 cs ≡ utf8_all (code_points_all jis0208 cs)
decoded_all-code_points_all jis0208 [] h long = refl
decoded_all-code_points_all jis0208 (c ∷ cs) (h, hs) (long, longs) =
    rw (decoded-code_points jis0208 c h long, decoded_all-code_points_all jis0208 cs hs longs)
      (sym (utf8_all-append (code_points jis0208 c) (code_points_all jis0208 cs)))

-- With a table of all rows and cells, a text whose characters are encoded as the standard says, and
-- whose entries in the table are from U+0800 to U+FFFF, is converted without an access outside the
-- table into the UTF-8 of its code points. The backslash becomes a yen sign and the tilde a macron,
-- and a zero byte is left out.
pub shift_jis_to_utf8-encode_all :
    (jis0208 : List ℕ) (cs : List Character)
    → length jis0208 ≡ 8836
    → All IsCharacter cs
    → All (IsLong jis0208) cs
    → shift_jis_to_utf8 jis0208 (encode_all cs) ≡ ok (utf8_all (code_points_all jis0208 cs))
shift_jis_to_utf8-encode_all jis0208 cs full h long =
    shift_jis_to_utf8-decoded_all jis0208 cs full h
    ∙ ap (λ (text : Text). ok text) (decoded_all-code_points_all jis0208 cs h long)

-- Three bytes for a small code point are no UTF-8.
utf8_buffer-ne : (m n : ℕ) → m < 0x800 → utf8_buffer m ≢ utf8 n
unfolding utf8_buffer
utf8_buffer-ne m n small e = elim (Bool-cases (ltb n 0x80)) [
  | inl one ↦ let bad = rw one at e in cc bad
  | inr no_one ↦ elim (Bool-cases (ltb n 0x800)) [
    | inl two ↦ let bad = rw (no_one, two) at e in cc bad
    | inr no_two ↦ elim (Bool-cases (ltb n 0x10000)) [
      | inl three ↦
          let bad = rw (no_one, no_two, three) at e in
          let large = ltb-false→le n 0x800 no_two in
          let first : m / 4096 % 16 + 0xe0 ≡ 0xe0 + n / 4096 = cc bad in
          let second : m / 64 % 64 + 0x80 ≡ 0x80 + n / 64 % 64 = cc bad in absurd (omega arith)
      | inr four ↦ let bad = rw (no_one, no_two, four) at e in cc bad
    ]
  ]
]

-- A character whose entry in the table is below U+0800 is converted into bytes that are the UTF-8 of
-- no code point.
pub shift_jis_to_utf8-overlong :
    (jis0208 : List ℕ) (row cell : ℕ)
    → length jis0208 ≡ 8836
    → IsCharacter (kanji row cell)
    → entry jis0208 row cell < 0x800
    → (text : Text) × (shift_jis_to_utf8 jis0208 (encode (kanji row cell)) ≡ ok text)
      × ((n : ℕ) → text ≢ utf8 n)
shift_jis_to_utf8-overlong jis0208 row cell full h small = (
  utf8_buffer (entry jis0208 row cell),
  shift_jis_to_utf8-decoded_all jis0208 (kanji row cell ∷ []) full (h, tt)
      ∙ ap (λ (text : Text). ok text) (append-nil (utf8_buffer (entry jis0208 row cell))),
  λ n. utf8_buffer-ne (entry jis0208 row cell) n small,
)
