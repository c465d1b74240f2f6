-- ===== src/Ramus/Ips.antt =====
-- ramus/patch/ips.hpp: IPS patches. A pointer with its size is a list of bytes, and an access
-- outside a list is a fault. The operands of `|` are read from left to right.
pub mod Blocks
pub mod Safety
pub mod Truncation
use mercurial_magic.Prelude.{
  ℕ, zero, suc, ◌+◌, ◌-◌, ◌*◌, max, Bool, true, false, not, ◌&&◌, Option, none, some, List, [], ◌∷◌,
  length, ltb, ◌==◌, if◌then◌else◌, u32, Run, ok, stuck, ◌>>=◌, replicate,
}
use mercurial_magic.Ramus.Memory.{fetch, copy, fill}

pub data Result : Type 0 where
  unknown success patch_too_small patch_invalid_header target_too_small : Result

pub record IpsPatch : Type 0 where
  pub modify_data : List ℕ
  pub source_data : List ℕ
  pub target_data : List ℕ
  pub modify_target_size : ℕ
  pub truncate : Bool

unfoldable pub read8 : List ℕ → ℕ → Run (ℕ × ℕ)
read8 bytes offset = do x ← fetch bytes offset; ok (x, u32 (offset + 1))

unfoldable pub read16 : List ℕ → ℕ → Run (ℕ × ℕ)
read16 bytes offset = do
  (high, offset₁) ← read8 bytes offset
  (low, offset₂) ← read8 bytes offset₁
  ok (high * 256 + low, offset₂)

unfoldable pub read24 : List ℕ → ℕ → Run (ℕ × ℕ)
read24 bytes offset = do
  (high, offset₁) ← read8 bytes offset
  (low, offset₂) ← read16 bytes offset₁
  ok (high * 65536 + low, offset₂)

-- The head of a block, as both loops read it, with the offset behind it: the end mark, a run
-- (address and length) or bytes (address and length).
pub data Block : Type 0 where
  eof : ℕ → Block
  rle plain : ℕ → ℕ → ℕ → Block

unfoldable pub read_block : List ℕ → ℕ → Run Block
read_block bytes offset = do
  (block_addr, offset₁) ← read24 bytes offset
  if block_addr == 0x454f46 then ok (eof offset₁) else do
    (block_size, offset₂) ← read16 bytes offset₁
    if block_size == 0
        then (do (rle_size, offset₃) ← read16 bytes offset₂; ok (rle block_addr rle_size offset₃))
        else ok (plain block_addr block_size offset₂)

-- The loop of `modify`: the offset and `modifyTargetSize`. A round reads three bytes at least.
-- (`maxBlockAddr` is never used.)
unfoldable pub scan : ℕ → List ℕ → ℕ → ℕ → Run (ℕ × ℕ)
scan zero bytes offset size = stuck
scan (suc fuel) bytes offset size =
    let rest = (do
      b ← read_block bytes offset
      elim b [
        | eof offset' ↦ ok (offset', size)
        | rle addr n offset' ↦ scan fuel bytes (u32 (offset' + 1)) (max size (addr + n))
        | plain addr n offset' ↦ scan fuel bytes (u32 (offset' + n)) (max size (addr + n))
      ]) in
    if ltb offset (length bytes) then rest else ok (offset, size)

-- What `modify` makes of the end of the scan: nothing is left, or a size to truncate to.
unfoldable pub accept : IpsPatch → List ℕ → ℕ → ℕ → Run (Bool × IpsPatch)
accept p bytes offset size =
    let left = u32 (length bytes + 4294967296 - offset) in
    let p' = record p { modify_data = bytes; modify_target_size = size } in
    if not (left == 0) && not (left == 3)
    then ok (false, p')
    else if left == 3
    then (do
      (n, _) ← read24 bytes offset
      ok (true, record p' { truncate = true; modify_target_size = n }))
    else ok (true, record p' { truncate = false })

unfoldable pub modify : IpsPatch → List ℕ → Run (Bool × IpsPatch)
modify p bytes =
    if ltb (length bytes) 8
    then ok (false, p)
    else do (offset, size) ← scan (suc (length bytes)) bytes 5 0; accept p bytes offset size

unfoldable pub source : IpsPatch → List ℕ → IpsPatch
source p bytes = record p {
  source_data = bytes;
  modify_target_size =
      if p.truncate then p.modify_target_size else max p.modify_target_size (length bytes);
}

unfoldable pub target : IpsPatch → List ℕ → IpsPatch
target p bytes = record p { target_data = bytes }

unfoldable pub size : IpsPatch → ℕ
size p = p.modify_target_size

-- The overloads on file names, as in Ramus/Bps/Object.
unfoldable pub modify_file : IpsPatch → Option (List ℕ) → Run (Bool × IpsPatch)
modify_file p none = ok (false, p)
modify_file p (some bytes) = modify p bytes

unfoldable pub source_file : IpsPatch → Option (List ℕ) → Bool × IpsPatch
source_file p none = (false, p)
source_file p (some bytes) = (true, source p bytes)

unfoldable pub target_file : IpsPatch → Bool → Bool → Bool × IpsPatch
target_file p false maps = (false, p)
target_file p true false = (false, p)
target_file p true true = (true, target p (replicate p.modify_target_size 0))

-- The loop of `apply`.
unfoldable pub patch_loop : ℕ → List ℕ → ℕ → List ℕ → Run (List ℕ)
patch_loop zero bytes offset target = stuck
patch_loop (suc fuel) bytes offset target =
    let rest = (do
      b ← read_block bytes offset
      elim b [
        | eof offset' ↦ ok target
        | rle addr n offset' ↦ do
          (value, offset'') ← read8 bytes offset'
          target' ← fill n value target addr
          patch_loop fuel bytes offset'' target'
        | plain addr n offset' ↦ do
          target' ← copy n bytes offset' target addr
          patch_loop fuel bytes (u32 (offset' + n)) target'
      ]) in
    if ltb offset (length bytes) then rest else ok target

unfoldable pub read_header : List ℕ → List ℕ → ℕ → Run (Bool × ℕ)
read_header [] bytes offset = ok (true, offset)
read_header (k ∷ ks) bytes offset = do
  (x, offset') ← read8 bytes offset
  let rest = read_header ks bytes offset'
  if x == k then rest else ok (false, offset')

unfoldable pub apply : IpsPatch → Run (Result × IpsPatch)
apply p = if ltb (length p.modify_data) 8 then ok (patch_too_small, p) else do
  (valid, offset) ← read_header (b'P' ∷ b'A' ∷ b'T' ∷ b'C' ∷ b'H' ∷ []) p.modify_data 0
  if not valid
      then ok (patch_invalid_header, p)
      else if ltb (length p.target_data) p.modify_target_size
      then ok (target_too_small, p)
      else do
        copied ← copy (length p.source_data) p.source_data 0 p.target_data 0
        patched ← patch_loop (suc (length p.modify_data)) p.modify_data offset copied
        ok (success, record p { target_data = patched })
