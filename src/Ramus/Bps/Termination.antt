-- ===== src/Ramus/Bps/Termination.antt =====
-- ramus/patch/bps-ignore-size.hpp: the loops of `modify` and `apply`, on every input.
use mercurial_magic.Prelude.{
  ℕ, zero, suc, ◌+◌, ◌-◌, ◌%◌, ◌≤◌, ◌<◌, ◌≡◌, refl, ◌∙◌, List, [], ◌∷◌, length, arith, stuck, ok,
  ◌>>=◌, Ends, returns, Ends-bind, Ends-ne-stuck, Ends-weaken, Ends-if, ltb, ltb→lt, ltb-false→le,
  ◌==◌, if◌then◌else◌, u32, max, not, ◌≢◌,
}
use Prim.Native.Nat.{bit_and}
use mercurial_magic.Ramus.Memory.Laws.{fetch-Ends, store-Ends, copy-Ends}
use mercurial_magic.Ramus.Bps.{
  Crc32, no_crc, Cursor, State, BpsPatch, source_too_small, target_too_small, write, source_read,
  source_copy, target_copy, read, decode_loop, decode, read_bytes, read_sizes, target_read, action,
  action_loop,
}
use mercurial_magic.Ramus.Bps.Object.{modify, read_header, apply_body, finish, apply, little_endian}

-- The copies into the target do not move the read position.
module _ {S : Type 0} where
  abbrev SameCursor : State S → State S → Type 0
  SameCursor s s' = s'.cursor.offset ≡ s.cursor.offset

  write-Ends : (x : ℕ) (s : State S) → Ends (SameCursor s) (write x s)
  unfolding write
  write-Ends x s = Ends-bind _ _ (store-Ends s.target s.output_offset x) (λ t _. returns _ refl)

  source_read-Ends :
      (source : List ℕ) (n : ℕ) (s : State S) → Ends (SameCursor s) (source_read source n s)
  unfolding source_read
  source_read-Ends source zero s = returns s refl
  source_read-Ends source (suc n) s = Ends-bind _ _ (fetch-Ends source s.output_offset) λ x _.
      Ends-bind _ _ (write-Ends x s)
        λ s' e. Ends-weaken _ (λ t e'. e' ∙ e) (source_read-Ends source n s')

  source_copy-Ends :
      (source : List ℕ) (n : ℕ) (s : State S) → Ends (SameCursor s) (source_copy source n s)
  unfolding source_copy
  source_copy-Ends source zero s = returns s refl
  source_copy-Ends source (suc n) s =
      Ends-bind _ _ (fetch-Ends source s.source_relative_offset) λ x _.
        Ends-bind _ _ (write-Ends x _)
          λ s' e. Ends-weaken _ (λ t e'. e' ∙ e) (source_copy-Ends source n s')

  target_copy-Ends : (n : ℕ) (s : State S) → Ends (SameCursor s) (target_copy n s)
  unfolding target_copy
  target_copy-Ends zero s = returns s refl
  target_copy-Ends (suc n) s = Ends-bind _ _ (fetch-Ends s.target s.target_relative_offset) λ x _.
      Ends-bind _ _ (write-Ends x _) λ s' e. Ends-weaken _ (λ t e'. e' ∙ e) (target_copy-Ends n s')

module _ {S : Type 0} (crc : Crc32 S) (bytes : List ℕ) (short : length bytes < 4294967296) where
  -- Reading ends at `offset` or behind it, and inside the patch.
  abbrev Within : ℕ → Cursor S → Type 0
  Within offset c = (offset ≤ c.offset) × (c.offset ≤ length bytes)

  read-Ends : (c : Cursor S) → Ends (λ r. Within (c.offset + 1) r.1) (read crc bytes c)
  unfolding read
  read-Ends c = Ends-bind _ _ (fetch-Ends bytes c.offset) λ x inside. returns _ (omega arith)

  decode_loop-Ends :
      (fuel acc shift : ℕ) (c : Cursor S)
      → length bytes ≤ c.offset + fuel
      → Ends (λ r. Within (c.offset + 1) r.1) (decode_loop crc (suc fuel) bytes acc shift c)
  unfolding decode_loop
  decode_loop-Ends zero acc shift c enough =
      Ends-bind _ _ (read-Ends c) λ (x, c') h. absurd (omega arith)
  decode_loop-Ends (suc fuel) acc shift c enough = Ends-bind _ _ (read-Ends c) λ (x, c') h.
      Ends-if (bit_and x 0x80 == 0) _ _
        (λ _. Ends-weaken _ (λ r k. omega arith) (decode_loop-Ends fuel _ _ c' (omega arith)))
        (λ _. returns _ h)

  decode-Ends : (c : Cursor S) → Ends (λ r. Within (c.offset + 1) r.1) (decode crc bytes c)
  unfolding decode
  decode-Ends c = decode_loop-Ends (length bytes) 0 1 c (omega arith)

  read_bytes-Ends :
      (n : ℕ) (c : Cursor S)
      → c.offset ≤ length bytes
      → Ends (λ r. Within c.offset r.1) (read_bytes crc n bytes c)
  unfolding read_bytes
  read_bytes-Ends zero c inside = returns _ (omega arith)
  read_bytes-Ends (suc n) c inside =
      Ends-bind _ _ (read-Ends c)
        λ (x, c') h. Ends-bind _ _ (read_bytes-Ends n c' h.1) λ (xs, c'') k. returns _ (omega arith)

  read_sizes-Ends :
      (c : Cursor S)
      → c.offset ≤ length bytes
      → Ends (λ r. Within c.offset r.1) (read_sizes crc bytes c)
  unfolding read_sizes
  read_sizes-Ends c inside = Ends-bind _ _ (decode-Ends c) λ (a, c₁) h₁.
      Ends-bind _ _ (decode-Ends c₁) λ (b, c₂) h₂. Ends-bind _ _ (decode-Ends c₂) λ (m, c₃) h₃.
        Ends-bind _ _ (read_bytes-Ends (u32 m) c₃ h₃.1) λ (xs, c₄) h₄. returns _ (omega arith)

  target_read-Ends :
      (n : ℕ) (s : State S)
      → s.cursor.offset ≤ length bytes
      → Ends (λ s'. Within s.cursor.offset s'.cursor) (target_read crc bytes n s)
  unfolding target_read
  target_read-Ends zero s inside = returns s (omega arith)
  target_read-Ends (suc n) s inside = Ends-bind _ _ (read-Ends s.cursor) λ (x, c) h.
      Ends-bind _ _ (write-Ends x _)
        λ s' e. Ends-weaken _ (λ t k. omega arith) (target_read-Ends n s' (omega arith))

  read_header-Ends :
      (ks : List ℕ) (c : Cursor S)
      → c.offset ≤ length bytes
      → Ends (λ r. r.1.offset ≤ length bytes) (read_header crc ks bytes c)
  unfolding read_header
  read_header-Ends [] c inside = returns _ inside
  read_header-Ends (k ∷ ks) c inside =
      Ends-bind _ _ (read-Ends c)
        λ (x, c') h. Ends-if (x == k) _ _ (λ _. read_header-Ends ks c' h.1) (λ _. returns _ h.1)

module _ {S : Type 0} (crc : Crc32 S) (p : BpsPatch)
    (short : length p.modify_data < 4294967296) where
  abbrev Inside : State S → State S → Type 0
  Inside s s' = Within crc p.modify_data short s.cursor.offset s'.cursor

  action-Ends :
      (s : State S)
      → Ends (λ s'. Within crc p.modify_data short (s.cursor.offset + 1) s'.cursor) (action crc p s)
  unfolding action
  action-Ends s = Ends-bind _ _ (decode-Ends crc p.modify_data short s.cursor) λ (d, c) h.
      Ends-if (u32 d % 4 == 0) _ _
        (λ _. Ends-weaken _ (λ t e. omega arith) (source_read-Ends p.source_data _ _))
        (λ _.
          Ends-if (u32 d % 4 == 1) _ _
            (λ _.
              Ends-weaken _ (λ t k. omega arith) (target_read-Ends crc p.modify_data short _ _ h.1))
            (λ _. Ends-bind _ _ (decode-Ends crc p.modify_data short c) λ (o, c') k.
              Ends-if (u32 d % 4 == 2) _ _
                (λ _. Ends-weaken _ (λ t e. omega arith) (source_copy-Ends p.source_data _ _))
                (λ _. Ends-weaken _ (λ t e. omega arith) (target_copy-Ends _ _))))

  action_loop-Ends :
      (fuel : ℕ) (s : State S)
      → s.cursor.offset ≤ length p.modify_data
      → length p.modify_data - 12 ≤ s.cursor.offset + fuel
      → Ends (λ s'. s'.cursor.offset ≤ length p.modify_data) (action_loop crc (suc fuel) p s)
  unfolding action_loop
  action_loop-Ends zero s inside enough =
      Ends-if (ltb s.cursor.offset (length p.modify_data - 12)) _ _
        (λ more. absurd (omega (arith, ltb→lt _ _ more))) (λ _. returns s inside)
  action_loop-Ends (suc fuel) s inside enough =
      Ends-if (ltb s.cursor.offset (length p.modify_data - 12)) _ _
        (λ more. Ends-bind _ _ (action-Ends s) λ s' h. action_loop-Ends fuel s' h.1 (omega arith))
        (λ _. returns s inside)

  finish-Ends :
      (s : State S) → s.cursor.offset ≤ length p.modify_data → Ends (λ r. Unit {0}) (finish crc p s)
  unfolding finish
  finish-Ends s inside =
      Ends-bind _ _ (read_bytes-Ends crc p.modify_data short 8 s.cursor inside) λ (xs, c) h.
        Ends-bind _ _ (read_bytes-Ends crc p.modify_data short 4 c h.1) λ (ys, c') k.
          Ends-if (not (crc.value c.checksum == little_endian ys)) _ _ (λ _. returns _ tt)
            (λ _.
              Ends-if (not (ltb s.output_offset p.modify_target_size)) _ _ (λ _. returns _ tt)
                (λ _. Ends-bind _ _ (copy-Ends _ p.source_data _ s.target _) (λ t _. returns _ tt)))

  replay-Ends :
      (fuel : ℕ) (s : State S)
      → s.cursor.offset ≤ length p.modify_data
      → 1 ≤ fuel
      → length p.modify_data ≤ s.cursor.offset + fuel
      → Ends (λ r. Unit {0}) (action_loop crc fuel p s >>= finish crc p)
  replay-Ends zero s inside some_fuel enough = absurd (omega arith)
  replay-Ends (suc fuel) s inside some_fuel enough =
      Ends-bind _ _ (action_loop-Ends fuel s inside (omega arith)) finish-Ends

module _ {S : Type 0} (crc : Crc32 S) where
  -- On a patch object whose patch has fewer than 2^32 bytes, whatever they are, `apply` ends: it
  -- returns, or it reads or writes outside a buffer.
  pub apply-ne-stuck : (p : BpsPatch) → length p.modify_data < 4294967296 → apply crc p ≢ stuck
  unfolding apply apply_body
  apply-ne-stuck p short = Ends-ne-stuck {P = λ r. Unit {0}} _ (
      Ends-if (ltb (length p.modify_data) 19) _ _ (λ _. returns _ tt)
        (λ long.
          Ends-bind _ _ (read_header-Ends crc p.modify_data short _ _ (omega arith)) λ (valid, c) h.
            Ends-if valid _ _
              (λ _. Ends-bind _ _ (read_sizes-Ends crc p.modify_data short c h) λ (sizes, c₄) k.
                let p' : BpsPatch = record p {
                  modify_source_size = sizes.source_size;
                  modify_target_size = u32 (max p.modify_target_size sizes.target_size);
                  modify_markup_size = sizes.markup_size;
                } in
                let start : State S = record {
                  cursor = c₄;
                  source_relative_offset = 0;
                  target_relative_offset = 0;
                  output_offset = 0;
                  target = p.target_data;
                } in
                let replay = action_loop crc (length p.modify_data) p' start >>= finish crc p' in
                let enough = ltb-false→le _ _ long in
                Ends-if (ltb (length p.source_data) p'.modify_source_size)
                  (ok (source_too_small, p'))
                  (if ltb (length p.target_data) p'.modify_target_size
                    then ok (target_too_small, p')
                    else replay)
                  (λ _. returns (source_too_small, p') tt)
                  (λ _.
                    Ends-if (ltb (length p.target_data) p'.modify_target_size)
                      (ok (target_too_small, p')) replay (λ _. returns (target_too_small, p') tt)
                      (λ _.
                        replay-Ends crc p' short (length p.modify_data) start k.1 (omega arith)
                          (omega arith))))
              (λ _. returns _ tt)))

-- On fewer than 2^32 bytes, whatever they are, `modify` ends: it returns, or it reads outside them.
pub modify-ne-stuck :
    (p : BpsPatch) (bytes : List ℕ) → length bytes < 4294967296 → modify p bytes ≢ stuck
unfolding modify
modify-ne-stuck p bytes short = Ends-ne-stuck {P = λ r. Unit {0}} _ (
    Ends-if (ltb (length bytes) 19) _ _ (λ _. returns _ tt)
      (λ long.
        Ends-bind _ _ (read_sizes-Ends no_crc bytes short _ (omega (arith, ltb-false→le _ _ long)))
          λ (sizes, c) k. returns _ tt))
