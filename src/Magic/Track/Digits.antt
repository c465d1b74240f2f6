-- ===== src/Magic/Track/Digits.antt =====
-- MercurialMagic/export.cpp: the digits in the name of an audio track's file.
use mercurial_magic.Prelude.{
  ℕ, ◌+◌, ◌≡◌, refl, ◌∙◌, true, false, [], ◌∷◌, ◌++◌, length, All, Text, drop-append, take-append,
  arith,
}
use mercurial_magic.Magic.Track.{is_digit, first_digit, digit_run, track_digits}

abbrev pub IsDigit : ℕ → Type 0
IsDigit c = is_digit c ≡ true

abbrev pub IsOther : ℕ → Type 0
IsOther c = is_digit c ≡ false

first_digit-append :
    (pos : ℕ) (front : Text) (d : ℕ) (rest : Text)
    → All IsOther front
    → IsDigit d
    → first_digit pos (front ++ d ∷ rest) ≡ pos + length front
unfolding first_digit
first_digit-append pos [] d rest other h = rw h (omega arith)
first_digit-append pos (c ∷ front) d rest (first, other) h =
    rw first (first_digit-append (pos + 1) front d rest other h ∙ omega arith)

digit_run-append :
    (n : ℕ) (digits : Text) (c : ℕ) (rest : Text)
    → All IsDigit digits
    → IsOther c
    → digit_run n (digits ++ c ∷ rest) ≡ n + length digits
unfolding digit_run
digit_run-append n [] c rest digit h = rw h (omega arith)
digit_run-append n (d ∷ digits) c rest (first, digit) h =
    rw first (digit_run-append (n + 1) digits c rest digit h ∙ omega arith)

digit_run-All : (n : ℕ) (digits : Text) → All IsDigit digits → digit_run n digits ≡ 0
unfolding digit_run
digit_run-All n [] digit = refl
digit_run-All n (d ∷ digits) (first, digit) = rw first (digit_run-All (n + 1) digits digit)

-- Of a name the first run of digits is taken, if another character follows that run.
pub track_digits-append :
    (front : Text) (d : ℕ) (digits : Text) (c : ℕ) (rest : Text)
    → All IsOther front
    → IsDigit d
    → All IsDigit digits
    → IsOther c
    → track_digits (front ++ d ∷ (digits ++ c ∷ rest)) ≡ d ∷ digits
unfolding track_digits
track_digits-append front d digits c rest other h digit end =
    let start : first_digit 0 (front ++ d ∷ (digits ++ c ∷ rest)) ≡ length front =
      first_digit-append 0 front d (digits ++ c ∷ rest) other h ∙ omega arith in
    let run : digit_run 0 (d ∷ (digits ++ c ∷ rest)) ≡ length (d ∷ digits) =
      digit_run-append 0 (d ∷ digits) c rest (h, digit) end ∙ omega arith in
    rw (start, drop-append front (d ∷ (digits ++ c ∷ rest)) (length front) refl, run)
      (take-append (d ∷ digits) (c ∷ rest) (length (d ∷ digits)) refl)
