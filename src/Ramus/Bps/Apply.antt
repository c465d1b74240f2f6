-- ===== src/Ramus/Bps/Apply.antt =====
-- ramus/patch/bps-ignore-size.hpp: `apply` on a patch in the format.
use mercurial_magic.Prelude.{
  ℕ, ◌+◌, ◌-◌, ◌≤◌, ◌<◌, ◌≡◌, refl, sym, ap, ◌∙◌, List, [], ◌∷◌, ◌++◌, length, drop, take, true,
  max, arith, ok, ◌>>=◌, append-nil, append_assoc, length-append, length-drop, u32, ltb-of_le, ltb,
  regroup, ==_iff, Bool-cases, inl, inr, ltb→lt, ltb-false→le, take-append-drop, length-take_le,
  drop_all, length-eq_zero,
}
use mercurial_magic.Ramus.Memory.{copy}
use mercurial_magic.Ramus.Memory.Laws.{copy-append}
use mercurial_magic.Ramus.Bps.{Crc32, BpsPatch, success, action_loop}
use mercurial_magic.Ramus.Bps.Object.{little_endian, source, read_header, apply_body, finish, apply}
use mercurial_magic.Ramus.Bps.Number.{cursor_at, input_all}
use mercurial_magic.Ramus.Bps.Loops.{writing, read-eq, read_bytes-append}
use mercurial_magic.Ramus.Bps.Numbers.{read_sizes-append}
use mercurial_magic.Ramus.Bps.Replay.{action_loop-encode_actions}
use mercurial_magic.Ramus.Bps.Modify.{magic, length-encode_patch, encode_patch-magic}
use mercurial_magic.Ramus.Bps.Format.{
  Patch, Patches, encode_actions, sizes, after_sizes, encode_body, encode_patch, perform_all,
}

module _ {S : Type 0} (crc : Crc32 S) {bytes : List ℕ} where
  pub read_header-magic :
      (rest : List ℕ)
      → bytes ≡ magic ++ rest
      → read_header crc magic bytes (cursor_at crc []) ≡ ok (true, cursor_at crc magic)
  unfolding read_header
  read_header-magic rest h =
      rw
        (
          read-eq crc [] b'B' (b'P' ∷ b'S' ∷ b'1' ∷ rest) h (omega arith),
          read-eq crc (b'B' ∷ []) b'P' (b'S' ∷ b'1' ∷ rest) h (omega arith),
          read-eq crc (b'B' ∷ b'P' ∷ []) b'S' (b'1' ∷ rest) h (omega arith),
          read-eq crc (b'B' ∷ b'P' ∷ b'S' ∷ []) b'1' rest h (omega arith),
        )
        refl

-- The tail of a longer source, copied over as much of the buffer.
copy_tail :
    (source out pad : List ℕ)
    → length out + length pad ≡ length source
    → copy (length pad) source (length out) (out ++ pad) (length out)
      ≡ ok (out ++ drop (length out) source)
copy_tail source out pad h =
    let front = take (length out) source in
    let tail = drop (length out) source in
    let n : length front ≡ length out = length-take_le (length out) source (omega arith) in
    let k : length tail ≡ length pad = omega (arith, length-drop (length out) source) in
    let copied = copy-append tail front [] out pad [] (sym k) in
    rw (append-nil tail, append-nil pad, take-append-drop (length out) source, n, k) at copied

-- The end of `apply`, with the output in the buffer: the checksum holds, and the rest of a longer
-- source is copied.
module _ {S : Type 0} (crc : Crc32 S) (p : BpsPatch) where
  finish-writing :
      (front sums own : List ℕ) (spos tpos : ℕ) (out pad : List ℕ)
      → p.modify_data ≡ front ++ (sums ++ own)
      → length p.modify_data < 4294967296
      → length sums ≡ 8
      → length own ≡ 4
      → crc.value (input_all crc crc.init (front ++ sums)) ≡ little_endian own
      → length out + length pad ≡ p.modify_target_size
      → p.modify_target_size ≡ max (length p.source_data) (length out)
      → finish crc p (writing (cursor_at crc front) spos tpos out pad)
        ≡ ok (success, record p { target_data = out ++ drop (length out) p.source_data })
  unfolding finish
  finish-writing front sums own spos tpos out pad h short eight four sum room total =
      let read₁ = rw eight at (
        read_bytes-append crc sums front own h (
          omega (arith, ap length h, length-append front (sums ++ own), length-append sums own))) in
      let read₂ = rw four at (
        read_bytes-append crc {bytes = p.modify_data} own (front ++ sums) []
          (regroup front sums own h ∙ ap (λ ys. (front ++ sums) ++ ys) (sym (append-nil own)))
          (omega (
            arith,
            ap length h,
            length-append front (sums ++ own),
            length-append sums own,
            length-append front sums,
          ))) in
      rw (read₁, read₂, (==_iff _ (little_endian own)).1 sum)
        (elim (Bool-cases (ltb (length out) p.modify_target_size)) [
          | inl more ↦
              rw more
                let below = ltb→lt (length out) p.modify_target_size more in
                  let count : p.modify_target_size - length out ≡ length pad = omega arith in
                  rw (count, copy_tail p.source_data out pad (omega arith)) refl
          | inr whole ↦
              rw whole
                let reached = ltb-false→le (length out) p.modify_target_size whole in
                  rw
                    (
                      length-eq_zero pad (omega arith),
                      drop_all (length out) p.source_data (omega arith),
                    )
                    refl
        ])

-- The actions, and what `apply` does behind them.
module _ {S : Type 0} (crc : Crc32 S) (x : Patch) (own : List ℕ) (q : BpsPatch) where
  replay-finish :
      (front : List ℕ)
      → Patches x q.source_data own
      → q.modify_data ≡ front ++ (encode_actions 0 0 x.actions ++ (x.sums ++ own))
      → 9 ≤ length q.modify_data
      → length q.modify_data + 10 < 4294967296
      → crc.value (input_all crc crc.init ((front ++ encode_actions 0 0 x.actions) ++ x.sums))
        ≡ little_endian own
      → q.modify_target_size ≡ max (length q.source_data) x.target_size
      → length q.target_data ≡ q.modify_target_size
      → (action_loop crc
            (length q.modify_data)
            q
            (writing (cursor_at crc front) 0 0 [] q.target_data)
          >>= finish crc q)
        ≡ ok (
          success,
          record q {
            target_data =
                perform_all q.source_data [] x.actions
                ++ drop (length (perform_all q.source_data [] x.actions)) q.source_data;
          },
        )
  replay-finish front h md long short sum before room =
      let acts = encode_actions 0 0 x.actions in
      let out = perform_all q.source_data [] x.actions in
      let eight = h.eight in
      let four = h.four in
      let twelve : length (x.sums ++ own) ≡ 12 = omega (arith, length-append x.sums own) in
      let md₂ = regroup front acts (x.sums ++ own) md in
      let (s, loop, (spos, tpos, rest, shape, len)) =
        action_loop-encode_actions crc q long short h.small.0 x.actions (length q.modify_data) front
          (x.sums ++ own) 0 0 [] q.target_data md twelve
          (omega (
            arith,
            ap length md,
            length-append front (acts ++ (x.sums ++ own)),
            length-append acts (x.sums ++ own),
          ))
          h.within (omega arith) (omega arith) (omega (arith, h.exact)) (omega (arith, h.small)) in
      rw (loop, shape)
        (finish-writing crc q (front ++ acts) x.sums own spos tpos out rest md₂ (omega arith) eight
          four sum (omega arith) (omega (arith, h.exact)))

-- The object after `apply`: the sizes are the patch's, and the target holds the output followed by
-- what the source has beyond it.
abbrev pub patched : Patch → BpsPatch → BpsPatch
patched x p =
    let out = perform_all p.source_data [] x.actions in
    record p {
      modify_source_size = x.source_size;
      modify_markup_size = length x.markup;
      target_data = out ++ drop (length out) p.source_data;
    }

module _ {S : Type 0} (crc : Crc32 S) (x : Patch) (own : List ℕ) (p : BpsPatch)
    (h : Patches x p.source_data own) (md : p.modify_data ≡ encode_patch x own)
    (sum : crc.value (input_all crc crc.init (encode_body x)) ≡ little_endian own)
    (before : p.modify_target_size ≡ max (length p.source_data) x.target_size)
    (room : length p.target_data ≡ p.modify_target_size) where
  apply_body-encode_patch : apply_body crc p (cursor_at crc magic) ≡ ok (success, patched x p)
  unfolding apply_body after_sizes encode_body
  apply_body-encode_patch =
      let front = magic ++ sizes x in
      let acts = encode_actions 0 0 x.actions in
      let long : 19 ≤ length p.modify_data = rw md (length-encode_patch x own h) in
      let short : length p.modify_data + 10 < 4294967296 = rw md h.fits in
      let h₁ : p.modify_data ≡ magic ++ (sizes x ++ (after_sizes x ++ own)) =
        md ∙ encode_patch-magic x own h in
      let h₂ : p.modify_data ≡ front ++ (acts ++ (x.sums ++ own)) =
        h₁ ∙ ap (λ ys. front ++ ys) (append_assoc acts x.sums own) in
      let all : encode_body x ≡ (front ++ acts) ++ x.sums = sym (append_assoc front acts x.sums) in
      let sum' = rw all at sum in
      let q = record p {
        modify_source_size = x.source_size;
        modify_markup_size = length x.markup;
      } in
      let same : u32 (max p.modify_target_size x.target_size) ≡ p.modify_target_size =
        omega (arith, h.small) in
      rw
        (
          read_sizes-append crc x magic (after_sizes x ++ own) (omega arith) short h₁
              (omega (arith, h.small, h.enough)) (omega (arith, h.small)),
          same,
          ltb-of_le (length p.source_data) x.source_size h.enough,
          ltb-of_le (length p.target_data) p.modify_target_size (omega arith),
        )
        (replay-finish crc x own q front h h₂ (omega arith) short sum' before room)

  pub apply-encode_patch : apply crc p ≡ ok (success, patched x p)
  unfolding apply
  apply-encode_patch =
      let long : 19 ≤ length p.modify_data = rw md (length-encode_patch x own h) in
      rw
        (
          ltb-of_le (length p.modify_data) 19 long,
          read_header-magic crc (sizes x ++ (after_sizes x ++ own))
              (md ∙ encode_patch-magic x own h),
        )
        apply_body-encode_patch
