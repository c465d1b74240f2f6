-- ===== src/Daedalus/Score.antt =====
-- daedalus/heuristics/super-famicom.cpp: scoreHeader and findHeader.
pub mod Range
pub mod Best
use Prim.Native.Nat.{bit_and}
use mercurial_magic.Prelude.{
  ℕ, suc, ◌+◌, ◌-◌, ◌*◌, ◌/◌, ◌%◌, Bool, not, ◌&&◌, ◌||◌, List, ltb, leb, ◌==◌, if◌then◌else◌, Run,
  ok, ◌>>=◌, u32,
}
use mercurial_magic.Ramus.Memory.{fetch}
use mercurial_magic.Daedalus.Cartridge.{
  mapper_field, rom_type_field, rom_size_field, ram_size_field, region_field, company_field,
  complement_field, checksum_field, reset_vector_field, word_at,
}

-- An `int`: `pos n` is n and `negsuc n` is -(n + 1).
pub data ℤ : Type 0 where
  pos negsuc : ℕ → ℤ

unfoldable pub plus : ℤ → ℕ → ℤ
plus (pos m) n = pos (m + n)
plus (negsuc m) n = if ltb m n then pos (n - suc m) else negsuc (m - n)

unfoldable pub minus : ℤ → ℕ → ℤ
minus (pos m) n = if ltb m n then negsuc (n - suc m) else pos (m - n)
minus (negsuc m) n = negsuc (m + n)

-- `if(score < 0) score = 0;`
unfoldable pub to_uint : ℤ → ℕ
to_uint (pos m) = m
to_uint (negsuc m) = 0

unfoldable pub most_likely : ℕ → Bool
most_likely op = op == 0x78 || op == 0x18 || op == 0x38 || op == 0x9c || op == 0x4c || op == 0x5c

unfoldable pub plausible : ℕ → Bool
plausible op =
    op == 0xc2
    || op == 0xe2
    || op == 0xad
    || op == 0xae
    || op == 0xac
    || op == 0xaf
    || op == 0xa9
    || op == 0xa2
    || op == 0xa0
    || op == 0x20
    || op == 0x22

unfoldable pub implausible : ℕ → Bool
implausible op = op == 0x40 || op == 0x60 || op == 0x6b || op == 0xcd || op == 0xec || op == 0xcc

unfoldable pub least_likely : ℕ → Bool
least_likely op = op == 0x00 || op == 0x02 || op == 0xdb || op == 0x42 || op == 0xff

unfoldable pub score_opcode : ℕ → ℤ → ℤ
score_opcode op score =
    let s₁ = if most_likely op then plus score 8 else score in
    let s₂ = if plausible op then plus s₁ 4 else s₁ in
    let s₃ = if implausible op then minus s₂ 4 else s₂ in if least_likely op then minus s₃ 8 else s₃

unfoldable pub score_checksum : (checksum complement : ℕ) → ℤ → ℤ
score_checksum checksum complement score =
    if checksum + complement == 0xffff && not (checksum == 0) && not (complement == 0)
    then plus score 4
    else score

unfoldable pub score_mapper : (addr mapper : ℕ) → ℤ → ℤ
score_mapper addr mapper score =
    let s₁ = if addr == 0x007fc0 && mapper == 0x20 then plus score 2 else score in
    let s₂ = if addr == 0x00ffc0 && mapper == 0x21 then plus s₁ 2 else s₁ in
    let s₃ = if addr == 0x007fc0 && mapper == 0x22 then plus s₂ 2 else s₂ in
    if addr == 0x40ffc0 && mapper == 0x25 then plus s₃ 2 else s₃

unfoldable pub score_fields : (company rom_type rom_size ram_size region : ℕ) → ℤ → ℤ
score_fields company rom_type rom_size ram_size region score =
    let s₁ = if company == 0x33 then plus score 2 else score in
    let s₂ = if ltb rom_type 0x08 then plus s₁ 1 else s₁ in
    let s₃ = if ltb rom_size 0x10 then plus s₂ 1 else s₂ in
    let s₄ = if ltb ram_size 0x08 then plus s₃ 1 else s₃ in if ltb region 14 then plus s₄ 1 else s₄

-- The rest of scoreHeader, once the reset vector is known to point into the ROM.
unfoldable pub score_info : List ℕ → (addr op mapper checksum complement : ℕ) → Run ℕ
score_info image addr op mapper checksum complement = do
  company ← fetch image (addr + company_field)
  rom_type ← fetch image (addr + rom_type_field)
  rom_size ← fetch image (addr + rom_size_field)
  ram_size ← fetch image (addr + ram_size_field)
  region ← fetch image (addr + region_field)
  ok (
      to_uint (
        score_fields company rom_type rom_size ram_size region (
          score_mapper addr mapper (score_checksum checksum complement (score_opcode op (pos 0))))))

unfoldable pub score_header : List ℕ → (size addr : ℕ) → Run ℕ
score_header image size addr = if ltb size (u32 (addr + 64)) then ok 0 else (do
  reset_vector ← word_at image (addr + reset_vector_field)
  checksum ← word_at image (addr + checksum_field)
  complement ← word_at image (addr + complement_field)
  op ← fetch image (addr / 0x8000 * 0x8000 + reset_vector % 0x8000)
  mapper ← fetch image (addr + mapper_field)
  if ltb reset_vector 0x8000
      then ok 0
      else score_info image addr op (bit_and mapper 0xef) checksum complement)

unfoldable pub choose_header : (lo hi ex : ℕ) → ℕ
choose_header lo hi ex =
    if leb hi lo && leb ex lo then 0x007fc0 else if leb ex hi then 0x00ffc0 else 0x40ffc0

unfoldable pub favor : ℕ → ℕ
favor score = if score == 0 then score else score + 4

unfoldable pub find_header : List ℕ → (size : ℕ) → Run ℕ
find_header image size = do
  score_lo ← score_header image size 0x007fc0
  score_hi ← score_header image size 0x00ffc0
  score_ex ← score_header image size 0x40ffc0
  ok (choose_header score_lo score_hi (favor score_ex))
