-- ===== src/Ramus/ShiftJis.antt =====
-- ramus/shift-jis.hpp: convertShiftJIStoUTF8. The table jis0208 is a parameter.
pub mod Rows
pub mod Unicode
pub mod Stray
use mercurial_magic.Prelude.{
  ℕ, ◌+◌, ◌-◌, ◌*◌, ◌/◌, ◌%◌, Bool, ◌&&◌, List, [], ◌∷◌, ◌++◌, Text, ltb, leb, ◌==◌, if◌then◌else◌,
  Run, ok, fault, ◌>>=◌,
}
use mercurial_magic.Ramus.Memory.{fetch}

abbrev pub u8 : ℕ → ℕ
u8 n = n % 256

-- The loop's state: a first byte that waits for its second one, or 0; and the text up to now.
pub record Converter : Type 0 where
  pub s1 : ℕ
  pub utf8 : Text

-- `utf8buffer`: three bytes, none of which is 0. `x & 0x0f | 0xe0` and its like add, since the bits
-- are apart.
unfoldable pub utf8_buffer : (unicode : ℕ) → Text
utf8_buffer unicode =
    (unicode / 4096 % 16 + 0xe0) ∷ (unicode / 64 % 64 + 0x80) ∷ (unicode % 64 + 0x80) ∷ []

unfoldable pub row_byte : (s1 s2 : ℕ) → ℕ
row_byte s1 s2 = u8 (s1 % 64 * 2 + 0x1f + (if leb 0x9f s2 then 1 else 0))

unfoldable pub cell_byte : (s2 : ℕ) → ℕ
cell_byte s2 = if ltb s2 0x9f then u8 (s2 + 256 - 0x1f - s2 / 128) else u8 (s2 - 0x7e)

-- `jis0208[(j1 - 0x21) * 94 + j2 - 0x21]`, whose index is an int and may be negative.
unfoldable pub look_up : List ℕ → (j1 j2 : ℕ) → Run ℕ
look_up jis0208 j1 j2 =
    if ltb (j1 * 94 + j2) (0x21 * 94 + 0x21)
    then fault
    else fetch jis0208 (j1 * 94 + j2 - (0x21 * 94 + 0x21))

unfoldable pub second_byte : List ℕ → (byte : ℕ) → Converter → Run Converter
second_byte jis0208 byte c = do
  unicode ← look_up jis0208 (row_byte c.s1 byte) (cell_byte byte)
  ok (record c { s1 = 0; utf8 = c.utf8 ++ utf8_buffer unicode })

-- The yen sign and the overline, in UTF-8.
unfoldable pub low_byte : (byte : ℕ) → Text
low_byte byte =
    if byte == 0x5c
    then 0xc2 ∷ 0xa5 ∷ []
    else if byte == 0x7e
    then 0xc2 ∷ 0xaf ∷ []
    else if byte == 0
    then []
    else byte ∷ []

unfoldable pub first_byte : (byte : ℕ) → Converter → Converter
first_byte byte c =
    if ltb byte 0x80
    then record c { utf8 = c.utf8 ++ low_byte byte }
    else if leb 0xa1 byte && leb byte 0xdf
    then record c { utf8 = c.utf8 ++ utf8_buffer (byte + 0xfec0) }
    else record c { s1 = byte }

unfoldable pub step : List ℕ → (byte : ℕ) → Converter → Run Converter
step jis0208 byte c = if c.s1 == 0 then ok (first_byte byte c) else second_byte jis0208 byte c

unfoldable pub convert_loop : List ℕ → Text → Converter → Run Converter
convert_loop jis0208 [] c = ok c
convert_loop jis0208 (byte ∷ bytes) c = do c' ← step jis0208 byte c; convert_loop jis0208 bytes c'

unfoldable pub shift_jis_to_utf8 : List ℕ → Text → Run Text
shift_jis_to_utf8 jis0208 shiftjis = do
  c ← convert_loop jis0208 shiftjis (record { s1 = 0; utf8 = [] })
  ok c.utf8
