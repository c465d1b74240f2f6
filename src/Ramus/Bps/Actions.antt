-- ===== src/Ramus/Bps/Actions.antt =====
-- ramus/patch/bps-ignore-size.hpp: a round of the main loop of `apply`, on each kind of action.
use mercurial_magic.Prelude.{
  ℕ, ◌+◌, ◌-◌, ◌*◌, ◌/◌, ◌%◌, ◌≤◌, ◌<◌, ◌≡◌, sym, ap, ◌∙◌, List, ◌++◌, length, take, drop, arith,
  u32, ok, append_assoc, length-append, length-drop, take-append-drop, length-take_le,
}
use mercurial_magic.Ramus.Bps.{Crc32, BpsPatch, signed_offset, decode, action}
use mercurial_magic.Ramus.Bps.Number.{cursor_at, decode-encode_number}
use mercurial_magic.Ramus.Bps.Loops.{
  writing, source_read-append, source_copy-append, target_copy-append, target_read-append,
}
use mercurial_magic.Ramus.Bps.Format.{
  Action, from_source, literal, copy_source, copy_target, encode_number, encode_move, repeat_from,
  slice,
}

-- A move is read back from its encoding, on 32 bits.
move-back :
    (from to : ℕ)
    → from < 1073741824
    → to < 1073741824
    → u32 (from + signed_offset (encode_move from to)) ≡ to
unfolding signed_offset encode_move
move-back from to hf ht = ground arith

encode_move-lt :
    (from to : ℕ) → from < 1073741824 → to < 1073741824 → encode_move from to < 4294967296
unfolding encode_move
encode_move-lt from to hf ht = ground arith

-- The mode and the length that share a number.
mode_and_length :
    (n k : ℕ)
    → 1 ≤ n
    → n < 1073741824
    → k < 4
    → (u32 ((n - 1) * 4 + k) % 4 ≡ k) × (u32 ((n - 1) * 4 + k) / 4 + 1 ≡ n)
mode_and_length n k h hn hk = omega arith

-- A source around one of its slices.
slice-split :
    (pos n : ℕ) (xs : List ℕ) → xs ≡ take pos xs ++ (slice pos n xs ++ drop n (drop pos xs))
slice-split pos n xs =
    sym (take-append-drop pos xs)
    ∙ ap (λ ys. take pos xs ++ ys) (sym (take-append-drop n (drop pos xs)))

pub length-slice : (pos n : ℕ) (xs : List ℕ) → pos + n ≤ length xs → length (slice pos n xs) ≡ n
length-slice pos n xs h = length-take_le n (drop pos xs) (omega (arith, length-drop pos xs))

-- How many bytes an action adds to the output.
abbrev pub copied : Action → ℕ
copied (from_source n) = n
copied (literal bytes) = length bytes
copied (copy_source pos n) = n
copied (copy_target pos n) = n

module _ {S : Type 0} (crc : Crc32 S) {bytes : List ℕ} (long : 9 ≤ length bytes) where
  pub decode-eq :
      (v : ℕ) (front rest : List ℕ)
      → bytes ≡ front ++ (encode_number v ++ rest)
      → v < 18446744073709551616
      → length front + 10 < 4294967296
      → decode crc bytes (cursor_at crc front) ≡ ok (v, cursor_at crc (front ++ encode_number v))
  decode-eq v front rest h hv short =
      rw h (decode-encode_number crc v front rest hv short (rw h at long))

module _ {S : Type 0} (crc : Crc32 S) (p : BpsPatch) (long : 9 ≤ length p.modify_data)
    (short : length p.modify_data + 10 < 4294967296)
    (small : length p.source_data < 1073741824) where
  -- What was read is part of the patch.
  front-short :
      (front rest : List ℕ) → p.modify_data ≡ front ++ rest → length front + 10 < 4294967296
  front-short front rest h = omega (arith, ap length h, length-append front rest)

  pub action-from_source :
      (n : ℕ) (front rest : List ℕ) (spos tpos : ℕ) (out old pad : List ℕ)
      → p.modify_data ≡ front ++ (encode_number ((n - 1) * 4 + 0) ++ rest)
      → 1 ≤ n
      → length out + n ≤ length p.source_data
      → length old ≡ n
      → action crc p (writing (cursor_at crc front) spos tpos out (old ++ pad))
        ≡ ok (
            writing
              (cursor_at crc (front ++ encode_number ((n - 1) * 4 + 0)))
              spos
              tpos
              (out ++ slice (length out) n p.source_data)
              pad)
  unfolding action
  action-from_source n front rest spos tpos out old pad h pos within len =
      let (mode, count) = mode_and_length n 0 pos (omega arith) (omega arith) in
      let all = length-slice (length out) n p.source_data within in
      rw
        (
          decode-eq crc long ((n - 1) * 4 + 0) front rest h (omega arith) (front-short front _ h),
          mode,
          count,
        )
        (rw all at (
          source_read-append (slice (length out) n p.source_data) (take (length out) p.source_data)
            (drop n (drop (length out) p.source_data))
            (cursor_at crc (front ++ encode_number ((n - 1) * 4 + 0))) spos tpos out old pad
            (slice-split (length out) n p.source_data)
            (omega (arith, length-take_le (length out) p.source_data (omega arith))) (omega arith)
            (omega arith)))

  pub action-literal :
      (xs front rest : List ℕ) (spos tpos : ℕ) (out old pad : List ℕ)
      → p.modify_data ≡ front ++ ((encode_number ((length xs - 1) * 4 + 1) ++ xs) ++ rest)
      → 1 ≤ length xs
      → length old ≡ length xs
      → length out + length xs < 1073741824
      → action crc p (writing (cursor_at crc front) spos tpos out (old ++ pad))
        ≡ ok (
            writing
              (cursor_at crc (front ++ (encode_number ((length xs - 1) * 4 + 1) ++ xs)))
              spos
              tpos
              (out ++ xs)
              pad)
  unfolding action
  action-literal xs front rest spos tpos out old pad h pos len fits =
      let number = encode_number ((length xs - 1) * 4 + 1) in
      let (mode, count) = mode_and_length (length xs) 1 pos (omega arith) (omega arith) in
      let h₁ : p.modify_data ≡ front ++ (number ++ (xs ++ rest)) =
        h ∙ ap (λ ys. front ++ ys) (append_assoc number xs rest) in
      let h₂ : p.modify_data ≡ (front ++ number) ++ (xs ++ rest) =
        h₁ ∙ sym (append_assoc front number (xs ++ rest)) in
      let h₃ : p.modify_data ≡ ((front ++ number) ++ xs) ++ rest =
        h₂ ∙ sym (append_assoc (front ++ number) xs rest) in
      rw
        (
          decode-eq crc long ((length xs - 1) * 4 + 1) front (xs ++ rest) h₁ (omega arith)
              (front-short front _ h₁),
          mode,
          count,
          ← append_assoc front number xs,
        )
        (target_read-append crc xs (front ++ number) rest spos tpos out old pad h₂ len (omega arith)
          (omega (
            arith,
            front-short ((front ++ number) ++ xs) rest h₃,
            length-append (front ++ number) xs,
          )))

  pub action-copy_source :
      (pos n : ℕ) (front rest : List ℕ) (spos tpos : ℕ) (out old pad : List ℕ)
      → p.modify_data
        ≡ front
          ++ ((encode_number ((n - 1) * 4 + 2) ++ encode_number (encode_move spos pos)) ++ rest)
      → 1 ≤ n
      → pos + n ≤ length p.source_data
      → spos < 1073741824
      → length old ≡ n
      → length out + n < 1073741824
      → action crc p (writing (cursor_at crc front) spos tpos out (old ++ pad))
        ≡ ok (
            writing
              (cursor_at crc (
                front ++ (encode_number ((n - 1) * 4 + 2) ++ encode_number (encode_move spos pos))))
              (pos + n)
              tpos
              (out ++ slice pos n p.source_data)
              pad)
  unfolding action
  action-copy_source pos n front rest spos tpos out old pad h pn within hs len fits =
      let number = encode_number ((n - 1) * 4 + 2) in
      let move = encode_number (encode_move spos pos) in
      let (mode, count) = mode_and_length n 2 pn (omega arith) (omega arith) in
      let h₁ : p.modify_data ≡ front ++ (number ++ (move ++ rest)) =
        h ∙ ap (λ ys. front ++ ys) (append_assoc number move rest) in
      let h₂ : p.modify_data ≡ (front ++ number) ++ (move ++ rest) =
        h₁ ∙ sym (append_assoc front number (move ++ rest)) in
      let all = length-slice pos n p.source_data within in
      rw
        (
          decode-eq crc long ((n - 1) * 4 + 2) front (move ++ rest) h₁ (omega arith)
              (front-short front _ h₁),
          mode,
          count,
          decode-eq crc long (encode_move spos pos) (front ++ number) rest h₂
              (omega (arith, encode_move-lt spos pos hs (omega arith)))
              (front-short (front ++ number) (move ++ rest) h₂),
          move-back spos pos hs (omega arith),
          ← append_assoc front number move,
        )
        (rw all at (
          source_copy-append (slice pos n p.source_data) (take pos p.source_data)
            (drop n (drop pos p.source_data)) (cursor_at crc ((front ++ number) ++ move)) pos tpos
            out old pad (slice-split pos n p.source_data)
            (sym (length-take_le pos p.source_data (omega arith))) (omega arith) (omega arith)
            (omega (arith, length-take_le pos p.source_data (omega arith)))))

  pub action-copy_target :
      (pos n : ℕ) (front rest : List ℕ) (spos tpos : ℕ) (out old pad : List ℕ)
      → p.modify_data
        ≡ front
          ++ ((encode_number ((n - 1) * 4 + 3) ++ encode_number (encode_move tpos pos)) ++ rest)
      → 1 ≤ n
      → pos < length out
      → tpos < 1073741824
      → length old ≡ n
      → length out + n < 1073741824
      → action crc p (writing (cursor_at crc front) spos tpos out (old ++ pad))
        ≡ ok (
            writing
              (cursor_at crc (
                front ++ (encode_number ((n - 1) * 4 + 3) ++ encode_number (encode_move tpos pos))))
              spos
              (pos + n)
              (repeat_from n pos out)
              pad)
  unfolding action
  action-copy_target pos n front rest spos tpos out old pad h pn within ht len fits =
      let number = encode_number ((n - 1) * 4 + 3) in
      let move = encode_number (encode_move tpos pos) in
      let (mode, count) = mode_and_length n 3 pn (omega arith) (omega arith) in
      let h₁ : p.modify_data ≡ front ++ (number ++ (move ++ rest)) =
        h ∙ ap (λ ys. front ++ ys) (append_assoc number move rest) in
      let h₂ : p.modify_data ≡ (front ++ number) ++ (move ++ rest) =
        h₁ ∙ sym (append_assoc front number (move ++ rest)) in
      rw
        (
          decode-eq crc long ((n - 1) * 4 + 3) front (move ++ rest) h₁ (omega arith)
              (front-short front _ h₁),
          mode,
          count,
          decode-eq crc long (encode_move tpos pos) (front ++ number) rest h₂
              (omega (arith, encode_move-lt tpos pos ht (omega arith)))
              (front-short (front ++ number) (move ++ rest) h₂),
          move-back tpos pos ht (omega arith),
          ← append_assoc front number move,
        )
        (target_copy-append n pos (cursor_at crc ((front ++ number) ++ move)) spos out old pad
          within len (omega arith))
