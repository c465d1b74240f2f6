-- ===== src/Tests/ShiftJis.antt =====
-- ramus/shift-jis.hpp: a short text, over a table that counts.
use mercurial_magic.Prelude.{
  ℕ, ◌≡◌, ◌≢◌, refl, inl, List, [], ◌∷◌, Text, All, length, replicate, length-replicate, ok, fault,
  arith,
}
use mercurial_magic.Ramus.ShiftJis.{shift_jis_to_utf8}
use mercurial_magic.Ramus.ShiftJis.Rows.{
  Character, IsCharacter, ascii, kana, kanji, encode, encode_all,
}
use mercurial_magic.Ramus.ShiftJis.Unicode.{
  utf8, utf8_all, code_points_all, shift_jis_to_utf8-encode_all, shift_jis_to_utf8-overlong,
}
use mercurial_magic.Ramus.ShiftJis.Stray.{shift_jis_to_utf8-eq_fault}

-- A table with the same character in all cells.
abbrev table : List ℕ
table = replicate 8836 0x4e9c

-- A tilde, a katakana, and the first and the last cell of the table.
abbrev characters : List Character
characters = ascii 0x7e ∷ kana 0xb1 ∷ kanji 1 1 ∷ kanji 94 94 ∷ []

length-table : length table ≡ 8836
length-table = length-replicate {A = ℕ} 8836 0x4e9c

characters-IsCharacter : All IsCharacter characters
characters-IsCharacter = (
  omega arith,
  (
    (omega arith, omega arith),
    (
      ((omega arith, omega arith), (omega arith, omega arith)),
      (((omega arith, omega arith), (omega arith, omega arith)), tt),
    ),
  ),
)

shift_jis_to_utf8-encode_all_example :
    shift_jis_to_utf8 table (encode_all characters)
    ≡ ok (utf8_all (code_points_all table characters))
shift_jis_to_utf8-encode_all_example =
    shift_jis_to_utf8-encode_all table characters length-table characters-IsCharacter
      (tt, (tt, ((ground arith, ground arith), ((ground arith, ground arith), tt))))

-- A table with a Greek letter in all cells.
abbrev greek : List ℕ
greek = replicate 8836 0x391

shift_jis_to_utf8-overlong_example :
    (text : Text) × (shift_jis_to_utf8 greek (encode (kanji 6 1)) ≡ ok text)
    × ((n : ℕ) → text ≢ utf8 n)
shift_jis_to_utf8-overlong_example =
    shift_jis_to_utf8-overlong greek 6 1 (length-replicate {A = ℕ} 8836 0x391)
      ((omega arith, omega arith), (omega arith, omega arith)) (ground arith)

shift_jis_to_utf8-eq_fault_example : shift_jis_to_utf8 table (0x80 ∷ 0x40 ∷ 0x41 ∷ []) ≡ fault
shift_jis_to_utf8-eq_fault_example =
    shift_jis_to_utf8-eq_fault table 0x80 0x40 (0x41 ∷ []) (length-replicate {A = ℕ} 8836 0x4e9c)
      (inl refl) (omega arith) (omega arith)
