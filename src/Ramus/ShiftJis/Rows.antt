-- ===== src/Ramus/ShiftJis/Rows.antt =====
-- ramus/shift-jis.hpp: the converter on texts that are encoded as the standard says.
use mercurial_magic.Prelude.{
  ℕ, ◌+◌, ◌-◌, ◌*◌, ◌/◌, ◌%◌, ◌≤◌, ◌<◌, ◌≡◌, refl, sym, ap, ◌∙◌, true, false, ◌&&◌, List, [], ◌∷◌,
  ◌++◌, append-nil, append_assoc, Text, ltb, leb, ◌==◌, if◌then◌else◌, length, get_or, All, ok,
  arith,
}
use mercurial_magic.Ramus.Deflate.Extend.{fetch-get_or}
use mercurial_magic.Ramus.ShiftJis.{
  Converter, utf8_buffer, row_byte, cell_byte, look_up, second_byte, low_byte, first_byte, step,
  convert_loop, shift_jis_to_utf8,
}

-- A character: an ASCII byte, half-width katakana, or a row and a cell of JIS X 0208.
pub data Character : Type 0 where
  ascii kana : ℕ → Character
  kanji : (row cell : ℕ) → Character

abbrev pub IsCharacter : Character → Type 0
IsCharacter (ascii b) = b < 0x80
IsCharacter (kana b) = (0xa1 ≤ b) × (b ≤ 0xdf)
IsCharacter (kanji row cell) = ((1 ≤ row) × (row ≤ 94)) × ((1 ≤ cell) × (cell ≤ 94))

-- The first byte of a row: two rows share it, and the bytes of the katakana are left out.
abbrev pub lead : ℕ → ℕ
lead row = if leb row 62 then (row + 1) / 2 + 0x80 else (row + 1) / 2 + 0xc0

-- The second byte of a cell: an odd row has the lower ones, without 0x7f.
abbrev pub trail : (row cell : ℕ) → ℕ
trail row cell =
    if row % 2 == 0 then cell + 0x9e else if leb cell 63 then cell + 0x3f else cell + 0x40

abbrev pub encode : Character → Text
encode (ascii b) = b ∷ []
encode (kana b) = b ∷ []
encode (kanji row cell) = lead row ∷ trail row cell ∷ []

-- The text that the code makes of a character.
abbrev pub decoded : List ℕ → Character → Text
decoded jis0208 (ascii b) = low_byte b
decoded jis0208 (kana b) = utf8_buffer (b - 0xa1 + 0xff61)
decoded jis0208 (kanji row cell) = utf8_buffer (get_or jis0208 ((row - 1) * 94 + (cell - 1)) 0)

abbrev pub encode_all : List Character → Text
encode_all [] = []
encode_all (c ∷ cs) = encode c ++ encode_all cs

abbrev pub decoded_all : List ℕ → List Character → Text
decoded_all jis0208 [] = []
decoded_all jis0208 (c ∷ cs) = decoded jis0208 c ++ decoded_all jis0208 cs

row_byte-lead :
    (row cell : ℕ)
    → IsCharacter (kanji row cell)
    → row_byte (lead row) (trail row cell) ≡ row + 0x20
unfolding row_byte
row_byte-lead row cell ((r₁, r₂), (c₁, c₂)) = ground arith

cell_byte-trail :
    (row cell : ℕ) → IsCharacter (kanji row cell) → cell_byte (trail row cell) ≡ cell + 0x20
unfolding cell_byte
cell_byte-trail row cell ((r₁, r₂), (c₁, c₂)) = ground arith

look_up-kanji :
    (jis0208 : List ℕ) (row cell : ℕ)
    → length jis0208 ≡ 8836
    → IsCharacter (kanji row cell)
    → look_up jis0208 (row + 0x20) (cell + 0x20)
      ≡ ok (get_or jis0208 ((row - 1) * 94 + (cell - 1)) 0)
unfolding look_up
look_up-kanji jis0208 row cell full ((r₁, r₂), (c₁, c₂)) =
    let inside : ltb ((row + 0x20) * 94 + (cell + 0x20)) (0x21 * 94 + 0x21) ≡ false =
      ground arith in
    let index : (row + 0x20) * 94 + (cell + 0x20) - (0x21 * 94 + 0x21)
        ≡ (row - 1) * 94 + (cell - 1) =
      omega arith in
    rw (inside, index) (fetch-get_or jis0208 ((row - 1) * 94 + (cell - 1)) (omega arith))

abbrev pub waiting : Text → Converter
waiting text = record { s1 = 0; utf8 = text }

-- One character: the converter waits for a first byte again.
convert_loop-encode :
    (jis0208 : List ℕ) (c : Character) (rest out : Text)
    → length jis0208 ≡ 8836
    → IsCharacter c
    → convert_loop jis0208 (encode c ++ rest) (waiting out)
      ≡ convert_loop jis0208 rest (waiting (out ++ decoded jis0208 c))
unfolding convert_loop step first_byte second_byte
convert_loop-encode jis0208 (ascii b) rest out full h =
    let low : ltb b 0x80 ≡ true = ground arith in rw low refl
convert_loop-encode jis0208 (kana b) rest out full (h₁, h₂) =
    let high : ltb b 0x80 ≡ false = ground arith in
    let single : (leb 0xa1 b && leb b 0xdf) ≡ true = ground arith in
    let place : b + 0xfec0 ≡ b - 0xa1 + 0xff61 = omega arith in rw (high, single, place) refl
convert_loop-encode jis0208 (kanji row cell) rest out full h =
    let ((r₁, r₂), (c₁, c₂)) = h in
    let high : ltb (lead row) 0x80 ≡ false = ground arith in
    let double : (leb 0xa1 (lead row) && leb (lead row) 0xdf) ≡ false = ground arith in
    let some_lead : (lead row == 0) ≡ false = ground arith in
    rw
      (
        high,
        double,
        some_lead,
        row_byte-lead row cell h,
        cell_byte-trail row cell h,
        look_up-kanji jis0208 row cell full h,
      )
      refl

convert_loop-encode_all :
    (jis0208 : List ℕ) (cs : List Character) (out : Text)
    → length jis0208 ≡ 8836
    → All IsCharacter cs
    → convert_loop jis0208 (encode_all cs) (waiting out)
      ≡ ok (waiting (out ++ decoded_all jis0208 cs))
unfolding convert_loop
convert_loop-encode_all jis0208 [] out full h =
    ap (λ (t : Text). ok (waiting t)) (sym (append-nil out))
convert_loop-encode_all jis0208 (c ∷ cs) out full (h, hs) =
    convert_loop-encode jis0208 c (encode_all cs) out full h
    ∙ convert_loop-encode_all jis0208 cs (out ++ decoded jis0208 c) full hs
    ∙ ap (λ (t : Text). ok (waiting t))
        (append_assoc out (decoded jis0208 c) (decoded_all jis0208 cs))

pub shift_jis_to_utf8-decoded_all :
    (jis0208 : List ℕ) (cs : List Character)
    → length jis0208 ≡ 8836
    → All IsCharacter cs
    → shift_jis_to_utf8 jis0208 (encode_all cs) ≡ ok (decoded_all jis0208 cs)
unfolding shift_jis_to_utf8
shift_jis_to_utf8-decoded_all jis0208 cs full h =
    rw (convert_loop-encode_all jis0208 cs [] full h) refl
