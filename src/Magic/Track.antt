-- ===== src/Magic/Track.antt =====
-- MercurialMagic/export.cpp: the number of an audio track, from the first run of digits in its file's name.
pub mod Digits
use mercurial_magic.Prelude.{
  ℕ, zero, suc, ◌+◌, ◌-◌, ◌%◌, Bool, true, false, not, ◌&&◌, ◌||◌, List, [], ◌∷◌, ◌++◌, length,
  Text, codes, text_eq, leb, if◌then◌else◌, take, drop,
}
use mercurial_magic.Magic.{Nall}

abbrev pub is_digit : ℕ → Bool
is_digit c = leb b'0' c && leb c b'9'

-- for(uint pos : range(0, size)) if(digit) { start = pos; break; }, where `start` is 0 before
unfoldable pub first_digit : ℕ → Text → ℕ
first_digit pos [] = 0
first_digit pos (c ∷ name) =
    let rest = first_digit (pos + 1) name in if is_digit c then pos else rest

-- for(uint pos : range(start, size)) if(not digit) { length = pos - start; break; }, where `length`
-- is 0 before; `n` is `pos - start`
unfoldable pub digit_run : ℕ → Text → ℕ
digit_run n [] = 0
digit_run n (c ∷ name) = let rest = digit_run (n + 1) name in if is_digit c then rest else n

-- slice(file.name, start, length)
unfoldable pub track_digits : Text → Text
unfolding first_digit digit_run
track_digits name =
    let start = first_digit 0 name in take (digit_run 0 (drop start name)) (drop start name)

module _ (nall : Nall) where
  -- The number has 16 bits.
  unfoldable pub track_id : Text → ℕ
  unfolding track_digits
  track_id name = nall.natural (track_digits name) % 65536

unfoldable pub is_converted : Text → Bool
is_converted ext =
    text_eq ext (codes ".wav")
    || text_eq ext (codes ".ogg")
    || text_eq ext (codes ".flac")
    || text_eq ext (codes ".mp3")

unfoldable pub is_audio : Text → Bool
unfolding is_converted
is_audio ext = text_eq ext (codes ".pcm") || is_converted ext
