-- ===== src/Ramus/Bps/Replay.antt =====
-- ramus/patch/bps-ignore-size.hpp: the main loop of `apply` on a list of actions.
use mercurial_magic.Prelude.{
  ℕ, zero, suc, ◌+◌, ◌-◌, ◌*◌, ◌≤◌, ◌<◌, ◌≡◌, refl, sym, ap, ◌∙◌, List, [], ◌∷◌, ◌++◌, length, take,
  drop, arith, ok, append-nil, append_assoc, length-append, length-drop, take-append-drop,
  length-take_le, ltb, false, true, ltb-of_le, lt→ltb, length-snoc,
}
use mercurial_magic.Ramus.Bps.{Crc32, State, BpsPatch, action, action_loop}
use mercurial_magic.Ramus.Bps.Number.{cursor_at, length-encode_number}
use mercurial_magic.Ramus.Bps.Loops.{writing}
use mercurial_magic.Ramus.Bps.Actions.{
  copied, action-from_source, action-literal, action-copy_source, action-copy_target, length-slice,
}
use mercurial_magic.Ramus.Bps.Format.{
  Action, from_source, literal, copy_source, copy_target, next_source, next_target, encode_action,
  encode_actions, repeat_from, perform, perform_all, IsWithin, AllWithin, encode_number,
}

length-repeat_from : (n pos : ℕ) (out : List ℕ) → length (repeat_from n pos out) ≡ length out + n
unfolding repeat_from
length-repeat_from zero pos out = omega arith
length-repeat_from (suc n) pos out =
    omega (arith, length-repeat_from n (pos + 1) (out ++ _ ∷ []), length-snoc out _)

length-perform :
    (source out : List ℕ) (a : Action)
    → IsWithin source out a
    → length (perform source out a) ≡ length out + copied a
unfolding perform
length-perform source out (from_source n) (pos, within) =
    omega (arith, length-append out _, length-slice (length out) n source within)
length-perform source out (literal bytes) h = length-append out bytes
length-perform source out (copy_source pos n) (pn, within) =
    omega (arith, length-append out _, length-slice pos n source within)
length-perform source out (copy_target pos n) h = length-repeat_from n pos out

length-perform_all :
    (source out : List ℕ) (actions : List Action)
    → AllWithin source out actions
    → length out ≤ length (perform_all source out actions)
unfolding perform_all
length-perform_all source out [] h = omega arith
length-perform_all source out (a ∷ more) (here, there) = omega (
  arith,
  length-perform source out a here,
  length-perform_all source (perform source out a) more there,
)

length-encode_action : (spos tpos : ℕ) (a : Action) → 1 ≤ length (encode_action spos tpos a)
unfolding encode_action
length-encode_action spos tpos (from_source n) =
    omega (arith, length-encode_number ((n - 1) * 4 + 0))
length-encode_action spos tpos (literal bytes) = omega (
  arith,
  length-encode_number ((length bytes - 1) * 4 + 1),
  length-append (encode_number ((length bytes - 1) * 4 + 1)) bytes,
)
length-encode_action spos tpos (copy_source pos n) = omega (
  arith,
  length-encode_number ((n - 1) * 4 + 2),
  length-append (encode_number ((n - 1) * 4 + 2)) _,
)
length-encode_action spos tpos (copy_target pos n) = omega (
  arith,
  length-encode_number ((n - 1) * 4 + 3),
  length-append (encode_number ((n - 1) * 4 + 3)) _,
)

module _ {S : Type 0} (crc : Crc32 S) (p : BpsPatch) (long : 9 ≤ length p.modify_data)
    (short : length p.modify_data + 10 < 4294967296)
    (small : length p.source_data < 1073741824) where
  action-encode_action :
      (a : Action) (front rest : List ℕ) (spos tpos : ℕ) (out old pad : List ℕ)
      → p.modify_data ≡ front ++ (encode_action spos tpos a ++ rest)
      → IsWithin p.source_data out a
      → spos < 1073741824
      → tpos < 1073741824
      → length old ≡ copied a
      → length out + copied a < 1073741824
      → action crc p (writing (cursor_at crc front) spos tpos out (old ++ pad))
        ≡ ok (
            writing
              (cursor_at crc (front ++ encode_action spos tpos a))
              (next_source spos a)
              (next_target tpos a)
              (perform p.source_data out a)
              pad)
  unfolding encode_action perform
  action-encode_action (from_source n) front rest spos tpos out old pad h (pn, within) hs ht len
        fits =
      action-from_source crc p long short small n front rest spos tpos out old pad h pn within len
  action-encode_action (literal bytes) front rest spos tpos out old pad h pn hs ht len fits =
      action-literal crc p long short small bytes front rest spos tpos out old pad h pn len fits
  action-encode_action (copy_source pos n) front rest spos tpos out old pad h (pn, within) hs ht len
        fits =
      action-copy_source crc p long short small pos n front rest spos tpos out old pad h pn within
        hs len fits
  action-encode_action (copy_target pos n) front rest spos tpos out old pad h (pn, within) hs ht len
        fits =
      action-copy_target crc p long short small pos n front rest spos tpos out old pad h pn within
        ht len fits

  -- Both positions stay below the moves' limit.
  next-lt :
      (a : Action) (out : List ℕ) (spos tpos : ℕ)
      → IsWithin p.source_data out a
      → spos < 1073741824
      → tpos < 1073741824
      → length out + copied a < 1073741824
      → (next_source spos a < 1073741824) × (next_target tpos a < 1073741824)
  next-lt (from_source n) out spos tpos h hs ht fit = (hs, ht)
  next-lt (literal bytes) out spos tpos h hs ht fit = (hs, ht)
  next-lt (copy_source pos n) out spos tpos h hs ht fit = (omega arith, ht)
  next-lt (copy_target pos n) out spos tpos h hs ht fit = (hs, omega arith)

  -- What the loop leaves: all of the actions read, and their output in the buffer.
  abbrev pub IsReplayed : List ℕ → List ℕ → ℕ → State S → Type 0
  IsReplayed front out total s =
      (spos : ℕ) × (tpos : ℕ) × (rest : List ℕ) × (s
        ≡ writing (cursor_at crc front) spos tpos out rest)
      × (length out + length rest ≡ total)

  pub action_loop-encode_actions :
      (actions : List Action) (fuel : ℕ) (front trailer : List ℕ) (spos tpos : ℕ) (out pad : List ℕ)
      → p.modify_data ≡ front ++ (encode_actions spos tpos actions ++ trailer)
      → length trailer ≡ 12
      → length (encode_actions spos tpos actions) < fuel
      → AllWithin p.source_data out actions
      → spos < 1073741824
      → tpos < 1073741824
      → length (perform_all p.source_data out actions) ≤ length out + length pad
      → length out + length pad < 1073741824
      → (s : State S) × (action_loop crc fuel p (writing (cursor_at crc front) spos tpos out pad)
          ≡ ok s)
        × IsReplayed
            (front ++ encode_actions spos tpos actions)
            (perform_all p.source_data out actions)
            (length out + length pad)
            s
  unfolding action_loop encode_actions perform_all
  action_loop-encode_actions actions zero front trailer spos tpos out pad h ht hf hw hs htp fits
        fit =
      absurd (omega arith)
  action_loop-encode_actions [] (suc fuel) front trailer spos tpos out pad h ht hf hw hs htp fits
        fit =
      let done : ltb (length front) (length p.modify_data - 12) ≡ false =
        ltb-of_le _ _ (omega (arith, ap length h, length-append front trailer)) in
      (
        writing (cursor_at crc front) spos tpos out pad,
        rw done refl,
        (spos, tpos, pad, rw (append-nil front) refl, refl),
      )
  action_loop-encode_actions (a ∷ more) (suc fuel) front trailer spos tpos out pad h ht hf
        (here, there) hs htp fits fit =
      let n = copied a in
      let bytes = encode_action spos tpos a in
      let next = encode_actions (next_source spos a) (next_target tpos a) more in
      let grown = length-perform p.source_data out a here in
      let left = length-drop n pad in
      let room = length-perform_all p.source_data (perform p.source_data out a) more there in
      let h₁ : p.modify_data ≡ front ++ (bytes ++ (next ++ trailer)) =
        h ∙ ap (λ ys. front ++ ys) (append_assoc bytes next trailer) in
      let h₂ : p.modify_data ≡ (front ++ bytes) ++ (next ++ trailer) =
        h₁ ∙ sym (append_assoc front bytes (next ++ trailer)) in
      let going : ltb (length front) (length p.modify_data - 12) ≡ true = lt→ltb _ _ (
        omega (
          arith,
          ap length h₂,
          length-append (front ++ bytes) (next ++ trailer),
          length-append front bytes,
          length-append next trailer,
          length-encode_action spos tpos a,
        )) in
      let step =
        action-encode_action a front (next ++ trailer) spos tpos out (take n pad) (drop n pad) h₁
          here hs htp (length-take_le n pad (omega arith)) (omega arith) in
      let total : length (perform p.source_data out a) + length (drop n pad)
          ≡ length out + length pad =
        omega arith in
      let below = next-lt a out spos tpos here hs htp (omega arith) in
      let performed = rw (take-append-drop n pad) at step in
      rw (going, performed, ← append_assoc front bytes next)
        (rw total at (
          action_loop-encode_actions more fuel (front ++ bytes) trailer (next_source spos a)
            (next_target tpos a) (perform p.source_data out a) (drop n pad) h₂ ht
            (omega (arith, length-append bytes next, length-encode_action spos tpos a)) there
            below.0 below.1 (omega arith) (omega arith)))
