-- ===== src/Ramus/Bps/Loops.antt =====
-- ramus/patch/bps-ignore-size.hpp: the four copy loops, on a target buffer whose front is the
-- output so far.
use mercurial_magic.Prelude.{
  ℕ, zero, suc, ◌+◌, ◌<◌, ◌≡◌, refl, List, [], ◌∷◌, ◌++◌, length, get_or, arith, u32, ok,
  append-cons, append-nil, length-snoc, get_elem?, some, get_elem?-front, ◌∙◌,
}
use mercurial_magic.Ramus.Memory.{fetch}
use mercurial_magic.Ramus.Memory.Laws.{fetch-at, store-append}
use mercurial_magic.Ramus.Bps.{
  Crc32, Cursor, State, write, source_read, source_copy, target_copy, target_read, read, read_bytes,
}
use mercurial_magic.Ramus.Bps.Number.{cursor_at, read-at}
use mercurial_magic.Ramus.Bps.Format.{repeat_from}

module _ {S : Type 0} where
  -- The output is `out`, and `pad` is what the buffer still holds behind it.
  abbrev pub writing : Cursor S → ℕ → ℕ → List ℕ → List ℕ → State S
  writing c spos tpos out pad = record {
    cursor = c;
    source_relative_offset = spos;
    target_relative_offset = tpos;
    output_offset = length out;
    target = out ++ pad;
  }

  write-append :
      (x : ℕ) (c : Cursor S) (spos tpos : ℕ) (out : List ℕ) (y : ℕ) (pad : List ℕ)
      → length out + 1 < 4294967296
      → write x (writing c spos tpos out (y ∷ pad)) ≡ ok (writing c spos tpos (out ++ x ∷ []) pad)
  unfolding write
  write-append x c spos tpos out y pad h =
      let same : u32 (length out + 1) ≡ length out + 1 = omega arith in
      rw (store-append out y x pad, same, length-snoc out x, append-cons out x pad) refl

module _ {S : Type 0} {source : List ℕ} where
  pub source_read-append :
      (xs front rest : List ℕ) (c : Cursor S) (spos tpos : ℕ) (out old pad : List ℕ)
      → source ≡ front ++ (xs ++ rest)
      → length out ≡ length front
      → length old ≡ length xs
      → length out + length xs < 4294967296
      → source_read source (length xs) (writing c spos tpos out (old ++ pad))
        ≡ ok (writing c spos tpos (out ++ xs) pad)
  unfolding source_read
  source_read-append [] front rest c spos tpos out [] pad h e len short = rw (append-nil out)
  source_read-append [] front rest c spos tpos out (y ∷ old) pad h e len short =
      absurd (omega arith)
  source_read-append (x ∷ xs) front rest c spos tpos out [] pad h e len short = absurd (omega arith)
  source_read-append (x ∷ xs) front rest c spos tpos out (y ∷ old) pad h e len short =
      rw
        (
          fetch-at front x (xs ++ rest) h e,
          write-append x c spos tpos out y (old ++ pad) (omega arith),
          append-cons out x xs,
        )
        (source_read-append xs (front ++ x ∷ []) rest c spos tpos (out ++ x ∷ []) old pad
          (h ∙ append-cons front x (xs ++ rest))
          (omega (arith, length-snoc front x, length-snoc out x)) (omega arith)
          (omega (arith, length-snoc out x)))

  pub source_copy-append :
      (xs front rest : List ℕ) (c : Cursor S) (spos tpos : ℕ) (out old pad : List ℕ)
      → source ≡ front ++ (xs ++ rest)
      → spos ≡ length front
      → length old ≡ length xs
      → length out + length xs < 4294967296
      → length front + length xs < 4294967296
      → source_copy source (length xs) (writing c spos tpos out (old ++ pad))
        ≡ ok (writing c (spos + length xs) tpos (out ++ xs) pad)
  unfolding source_copy
  source_copy-append [] front rest c spos tpos out [] pad h e len short fits =
      let same : spos + 0 ≡ spos = omega arith in rw (append-nil out, same)
  source_copy-append [] front rest c spos tpos out (y ∷ old) pad h e len short fits =
      absurd (omega arith)
  source_copy-append (x ∷ xs) front rest c spos tpos out [] pad h e len short fits =
      absurd (omega arith)
  source_copy-append (x ∷ xs) front rest c spos tpos out (y ∷ old) pad h e len short fits =
      let next : u32 (spos + 1) ≡ spos + 1 = omega arith in
      let end : spos + suc (length xs) ≡ spos + 1 + length xs = omega arith in
      rw
        (
          fetch-at front x (xs ++ rest) h e,
          next,
          write-append x c (spos + 1) tpos out y (old ++ pad) (omega arith),
          append-cons out x xs,
          end,
        )
        (source_copy-append xs (front ++ x ∷ []) rest c (spos + 1) tpos (out ++ x ∷ []) old pad
          (h ∙ append-cons front x (xs ++ rest)) (omega (arith, length-snoc front x)) (omega arith)
          (omega (arith, length-snoc out x)) (omega (arith, length-snoc front x)))

-- The byte that a copy from the target finds at a position of the output.
get_elem?-get_or : (xs : List ℕ) (i : ℕ) → i < length xs → get_elem? xs i ≡ some (get_or xs i 0)
get_elem?-get_or [] i h = absurd (omega arith)
get_elem?-get_or (x ∷ xs) zero h = refl
get_elem?-get_or (x ∷ xs) (suc i) h = get_elem?-get_or xs i (omega arith)

fetch-output :
    (out pad : List ℕ) (pos : ℕ) → pos < length out → fetch (out ++ pad) pos ≡ ok (get_or out pos 0)
unfolding fetch
fetch-output out pad pos h =
    rw (fetch, get_elem?-front out pad pos (get_or out pos 0) (get_elem?-get_or out pos h))

module _ {S : Type 0} where
  pub target_copy-append :
      (n pos : ℕ) (c : Cursor S) (spos : ℕ) (out old pad : List ℕ)
      → pos < length out
      → length old ≡ n
      → length out + n < 4294967296
      → target_copy n (writing c spos pos out (old ++ pad))
        ≡ ok (writing c spos (pos + n) (repeat_from n pos out) pad)
  unfolding target_copy repeat_from
  target_copy-append zero pos c spos out [] pad h len short =
      let same : pos + 0 ≡ pos = omega arith in rw same
  target_copy-append zero pos c spos out (y ∷ old) pad h len short = absurd (omega arith)
  target_copy-append (suc n) pos c spos out [] pad h len short = absurd (omega arith)
  target_copy-append (suc n) pos c spos out (y ∷ old) pad h len short =
      let x = get_or out pos 0 in
      let next : u32 (pos + 1) ≡ pos + 1 = omega arith in
      let end : pos + suc n ≡ pos + 1 + n = omega arith in
      rw
        (
          fetch-output out (y ∷ (old ++ pad)) pos h,
          next,
          write-append x c spos (pos + 1) out y (old ++ pad) (omega arith),
          end,
        )
        (target_copy-append n (pos + 1) c spos (out ++ x ∷ []) old pad
          (omega (arith, length-snoc out x)) (omega arith) (omega (arith, length-snoc out x)))

module _ {S : Type 0} (crc : Crc32 S) {bytes : List ℕ} where
  pub read-eq :
      (front : List ℕ) (x : ℕ) (rest : List ℕ)
      → bytes ≡ front ++ x ∷ rest
      → length front + 1 < 4294967296
      → read crc bytes (cursor_at crc front) ≡ ok (x, cursor_at crc (front ++ x ∷ []))
  read-eq front x rest h short = rw h (read-at crc front x rest short)

  pub read_bytes-append :
      (xs front rest : List ℕ)
      → bytes ≡ front ++ (xs ++ rest)
      → length front + length xs < 4294967296
      → read_bytes crc (length xs) bytes (cursor_at crc front)
        ≡ ok (xs, cursor_at crc (front ++ xs))
  unfolding read_bytes
  read_bytes-append [] front rest h short = rw (append-nil front)
  read_bytes-append (x ∷ xs) front rest h short =
      rw
        (
          read-eq front x (xs ++ rest) h (omega arith),
          read_bytes-append xs (front ++ x ∷ []) rest (h ∙ append-cons front x (xs ++ rest))
              (omega (arith, length-snoc front x)),
          append-cons front x xs,
        )
        refl

  pub target_read-append :
      (xs front rest : List ℕ) (spos tpos : ℕ) (out old pad : List ℕ)
      → bytes ≡ front ++ (xs ++ rest)
      → length old ≡ length xs
      → length out + length xs < 4294967296
      → length front + length xs < 4294967296
      → target_read crc bytes (length xs) (writing (cursor_at crc front) spos tpos out (old ++ pad))
        ≡ ok (writing (cursor_at crc (front ++ xs)) spos tpos (out ++ xs) pad)
  unfolding target_read
  target_read-append [] front rest spos tpos out [] pad h len short fits =
      rw (append-nil out, append-nil front)
  target_read-append [] front rest spos tpos out (y ∷ old) pad h len short fits =
      absurd (omega arith)
  target_read-append (x ∷ xs) front rest spos tpos out [] pad h len short fits =
      absurd (omega arith)
  target_read-append (x ∷ xs) front rest spos tpos out (y ∷ old) pad h len short fits =
      rw
        (
          read-eq front x (xs ++ rest) h (omega arith),
          write-append x (cursor_at crc (front ++ x ∷ [])) spos tpos out y (old ++ pad)
              (omega arith),
          append-cons front x xs,
          append-cons out x xs,
        )
        (target_read-append xs (front ++ x ∷ []) rest spos tpos (out ++ x ∷ []) old pad
          (h ∙ append-cons front x (xs ++ rest)) (omega arith) (omega (arith, length-snoc out x))
          (omega (arith, length-snoc front x)))
