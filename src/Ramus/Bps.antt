-- ===== src/Ramus/Bps.antt =====
-- ramus/patch/bps-ignore-size.hpp: beat patches applied without the check of the source's size.
-- A pointer with its size is a list of bytes. Accesses outside a list are faults.
pub mod Format
pub mod Number
mod Loops
mod Actions
mod Replay
pub mod Object
mod Numbers
pub mod Modify
pub mod Apply
pub mod Workflow
pub mod Termination
use mercurial_magic.Prelude.{
  ℕ, zero, suc, ◌+◌, ◌-◌, ◌*◌, ◌/◌, ◌%◌, max, Bool, true, false, not, List, [], ◌∷◌, length, ltb,
  ◌==◌, if◌then◌else◌, u32, u64, Run, ok, stuck, ◌>>=◌,
}
use mercurial_magic.Ramus.Memory.{fetch, store, copy}
use Prim.Native.Nat.{bit_and}

-- nall::Hash::CRC32, of which the program uses the incremental input and the digest's value.
pub record Crc32 (S : Type 0) : Type 0 where
  pub init : S
  pub input : S → ℕ → S
  pub value : S → ℕ

-- `modify` reads without a checksum.
abbrev pub no_crc : Crc32 (Unit {0})
no_crc = record { init = tt; input = λ s b. s; value = λ s. 0 }

pub data Result : Type 0 where
  unknown success patch_too_small patch_invalid_header : Result
  source_too_small target_too_small patch_checksum_invalid : Result

pub record BpsPatch : Type 0 where
  pub modify_data : List ℕ
  pub source_data : List ℕ
  pub target_data : List ℕ
  pub modify_source_size : ℕ
  pub modify_target_size : ℕ
  pub modify_markup_size : ℕ
  pub metadata_string : List ℕ

-- The read position in the patch, and the checksum of what was read.
pub record Cursor (S : Type 0) : Type 0 where
  pub offset : ℕ
  pub checksum : S

-- The variables of `apply`. `targetChecksum` is computed and never read, and is left out.
pub record State (S : Type 0) : Type 0 where
  pub cursor : Cursor S
  pub source_relative_offset : ℕ
  pub target_relative_offset : ℕ
  pub output_offset : ℕ
  pub target : List ℕ

-- What the numbers behind the header say, and the metadata.
pub record Sizes : Type 0 where
  pub source_size : ℕ
  pub target_size : ℕ
  pub markup_size : ℕ
  pub markup : List ℕ

module _ {S : Type 0} where
  -- `targetData[outputOffset++] = data`
  unfoldable pub write : ℕ → State S → Run (State S)
  write x s = do
    target' ← store s.target s.output_offset x
    ok (record s { output_offset = u32 (s.output_offset + 1); target = target' })

  -- while(length--) write(sourceData[outputOffset]);
  unfoldable pub source_read : List ℕ → ℕ → State S → Run (State S)
  source_read source zero s = ok s
  source_read source (suc n) s = do
    x ← fetch source s.output_offset
    s' ← write x s
    source_read source n s'

  -- while(length--) write(sourceData[sourceRelativeOffset++]);
  unfoldable pub source_copy : List ℕ → ℕ → State S → Run (State S)
  source_copy source zero s = ok s
  source_copy source (suc n) s = do
    x ← fetch source s.source_relative_offset
    s' ← write x (record s { source_relative_offset = u32 (s.source_relative_offset + 1) })
    source_copy source n s'

  -- while(length--) write(targetData[targetRelativeOffset++]);
  unfoldable pub target_copy : ℕ → State S → Run (State S)
  target_copy zero s = ok s
  target_copy (suc n) s = do
    x ← fetch s.target s.target_relative_offset
    s' ← write x (record s { target_relative_offset = u32 (s.target_relative_offset + 1) })
    target_copy n s'

-- `int offset = decode(); bool negative = offset & 1; offset >>= 1; if(negative) offset = -offset;`
-- as the bit pattern of the int: the shift keeps the sign, so bit 31 is copied.
unfoldable pub signed_offset : ℕ → ℕ
signed_offset d =
    let offset = u32 d in
    let shifted = if ltb offset 2147483648 then offset / 2 else offset / 2 + 2147483648 in
    if offset % 2 == 1 then u32 (4294967296 - shifted) else shifted

module _ {S : Type 0} (crc : Crc32 S) where
  -- The two lambdas called `read`: `modifyData[modifyOffset++]`, and the checksum's input.
  unfoldable pub read : List ℕ → Cursor S → Run (ℕ × Cursor S)
  read bytes c = do
    x ← fetch bytes c.offset
    ok (x, record { offset = u32 (c.offset + 1); checksum = crc.input c.checksum x })

  -- The loop of `decode`, with `data` and `shift`; a round reads a byte.
  unfoldable pub decode_loop : ℕ → List ℕ → ℕ → ℕ → Cursor S → Run (ℕ × Cursor S)
  decode_loop zero bytes acc shift c = stuck
  decode_loop (suc fuel) bytes acc shift c = do
    (x, c') ← read bytes c
    let acc' = u64 (acc + bit_and x 0x7f * shift)
    let shift' = u64 (shift * 128)
    let rest = decode_loop fuel bytes (u64 (acc' + shift')) shift' c'
    if bit_and x 0x80 == 0 then rest else ok (acc', c')

  unfoldable pub decode : List ℕ → Cursor S → Run (ℕ × Cursor S)
  decode bytes c = decode_loop (suc (length bytes)) bytes 0 1 c

  -- A counted loop of `read`.
  unfoldable pub read_bytes : ℕ → List ℕ → Cursor S → Run (List ℕ × Cursor S)
  read_bytes zero bytes c = ok ([], c)
  read_bytes (suc n) bytes c = do
    (x, c') ← read bytes c
    (xs, c'') ← read_bytes n bytes c'
    ok (x ∷ xs, c'')

  -- The numbers and the markup that follow the header, in `modify` and in `apply`.
  unfoldable pub read_sizes : List ℕ → Cursor S → Run (Sizes × Cursor S)
  read_sizes bytes c = do
    (source_size, c₁) ← decode bytes c
    (target_size, c₂) ← decode bytes c₁
    (markup_size, c₃) ← decode bytes c₂
    (markup, c₄) ← read_bytes (u32 markup_size) bytes c₃
    ok (
      record {
        source_size = u32 source_size;
        target_size = target_size;
        markup_size = u32 markup_size;
        markup = markup;
      },
      c₄,
    )

  -- while(length--) write(read());
  unfoldable pub target_read : List ℕ → ℕ → State S → Run (State S)
  target_read bytes zero s = ok s
  target_read bytes (suc n) s = do
    (x, c) ← read bytes s.cursor
    s' ← write x (record s { cursor = c })
    target_read bytes n s'

  -- One round of the main loop.
  unfoldable pub action : BpsPatch → State S → Run (State S)
  action p s = do
    (d, c) ← decode p.modify_data s.cursor
    let mode = u32 d % 4
    let n = u32 d / 4 + 1
    let s' = record s { cursor = c }
    if mode == 0
        then source_read p.source_data n s'
        else if mode == 1
        then target_read p.modify_data n s'
        else do
          (o, c') ← decode p.modify_data c
          let offset = signed_offset o
          if mode == 2
              then source_copy p.source_data n (record s' {
                cursor = c';
                source_relative_offset = u32 (s.source_relative_offset + offset);
              })
              else target_copy n (record s' {
                cursor = c';
                target_relative_offset = u32 (s.target_relative_offset + offset);
              })

  -- `while(modifyOffset < modifySize - 12)`; a round reads a byte at least.
  unfoldable pub action_loop : ℕ → BpsPatch → State S → Run (State S)
  action_loop zero p s = stuck
  action_loop (suc fuel) p s =
      let rest = (do s' ← action p s; action_loop fuel p s') in
      if ltb s.cursor.offset (length p.modify_data - 12) then rest else ok s
