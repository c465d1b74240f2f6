-- ===== src/Ramus/ShiftJis/Stray.antt =====
-- ramus/shift-jis.hpp: first bytes that lead outside the table.
use mercurial_magic.Prelude.{
  ℕ, zero, suc, ◌+◌, ◌*◌, ◌≤◌, ◌<◌, ◌⊎◌, inl, inr, ◌≡◌, refl, true, false, ◌&&◌, List, [], ◌∷◌,
  Text, ltb, leb, ◌==◌, length, fault, arith,
}
use mercurial_magic.Ramus.Memory.{fetch}
use mercurial_magic.Ramus.ShiftJis.{
  row_byte, cell_byte, look_up, second_byte, first_byte, step, convert_loop, shift_jis_to_utf8,
}

fetch-eq_fault : (xs : List ℕ) (i : ℕ) → length xs ≤ i → fetch xs i ≡ fault
unfolding fetch
fetch-eq_fault [] i h = refl
fetch-eq_fault (x ∷ xs) zero h = absurd (omega arith)
fetch-eq_fault (x ∷ xs) (suc i) h = fetch-eq_fault xs i (omega arith)

cell_byte_range :
    (second : ℕ)
    → 0x40 ≤ second
    → second < 0x9f
    → (0x21 ≤ cell_byte second) × (cell_byte second < 0x80)
unfolding cell_byte
cell_byte_range second above below = (ground arith, ground arith)

row_byte_front : (second : ℕ) → second < 0x9f → row_byte 0x80 second ≡ 0x1f
unfolding row_byte
row_byte_front second below = ground arith

row_byte_behind :
    (first second : ℕ) → 0xf0 ≤ first → first < 256 → second < 0x9f → 0x7f ≤ row_byte first second
unfolding row_byte
row_byte_behind first second h₁ h₂ below = ground arith

-- A first byte of no row.
abbrev pub IsStray : ℕ → Type 0
IsStray first = (first ≡ 0x80) ⊎ ((0xf0 ≤ first) × (first < 256))

look_up-eq_fault :
    (jis0208 : List ℕ) (first second : ℕ)
    → length jis0208 ≡ 8836
    → IsStray first
    → 0x40 ≤ second
    → second < 0x9f
    → look_up jis0208 (row_byte first second) (cell_byte second) ≡ fault
unfolding look_up
look_up-eq_fault jis0208 first second full (inl e) above below =
    let (low, high) = cell_byte_range second above below in
    let front : ltb (0x1f * 94 + cell_byte second) (0x21 * 94 + 0x21) ≡ true = ground arith in
    rw (e, row_byte_front second below, front) refl
look_up-eq_fault jis0208 first second full (inr (h₁, h₂)) above below =
    let (low, high) = cell_byte_range second above below in
    let row = row_byte_behind first second h₁ h₂ below in
    let inside : ltb (row_byte first second * 94 + cell_byte second) (0x21 * 94 + 0x21) ≡ false =
      ground arith in
    rw inside (fetch-eq_fault jis0208 _ (omega arith))

-- A first byte of 0x80, or of 0xf0 and more, with a second one from 0x40 up to 0x9e, makes the
-- converter read in front of the table, or behind it, whatever follows.
pub shift_jis_to_utf8-eq_fault :
    (jis0208 : List ℕ) (first second : ℕ) (rest : Text)
    → length jis0208 ≡ 8836
    → IsStray first
    → 0x40 ≤ second
    → second < 0x9f
    → shift_jis_to_utf8 jis0208 (first ∷ second ∷ rest) ≡ fault
unfolding shift_jis_to_utf8 convert_loop step first_byte second_byte
shift_jis_to_utf8-eq_fault jis0208 first second rest full stray above below =
    let high : ltb first 0x80 ≡ false = ground arith in
    let double : (leb 0xa1 first && leb first 0xdf) ≡ false = ground arith in
    let some_first : (first == 0) ≡ false = ground arith in
    rw (high, double, some_first, look_up-eq_fault jis0208 first second full stray above below) refl
