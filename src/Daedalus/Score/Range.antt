-- ===== src/Daedalus/Score/Range.antt =====
-- daedalus/heuristics/super-famicom.cpp: scoreHeader reads inside the image and has a bound.
use Prim.Native.Nat.{bit_and}
use mercurial_magic.Prelude.{
  ℕ, ◌+◌, ◌%◌, ◌≤◌, ◌<◌, ◌≡◌, refl, Bool, true, false, List, length, ltb, ltb-false→le,
  if◌then◌else◌, Safe, safe, Defined, Safe-bind, Safe-if, Safe-weaken, Bool-cases, inl, inr, ◌==◌,
  arith, u32,
}
use mercurial_magic.Ramus.Memory.{fetch}
use mercurial_magic.Ramus.Memory.Laws.{fetch-lt}
use mercurial_magic.Daedalus.Cartridge.{word_at}
use mercurial_magic.Daedalus.Score.{
  ℤ, pos, negsuc, plus, minus, to_uint, most_likely, plausible, score_opcode, score_checksum,
  score_mapper, score_fields, score_info, score_header, implausible, least_likely,
}

pub fetch-Safe : (image : List ℕ) (i : ℕ) → i < length image → Defined (fetch image i)
fetch-Safe image i h = let (x, e) = fetch-lt image i h in rw e (safe x tt)

pub word_at-Safe : (image : List ℕ) (i : ℕ) → i + 1 < length image → Defined (word_at image i)
unfolding word_at
word_at-Safe image i h =
    Safe-bind _ _ (fetch-Safe image i (omega arith))
      (λ low _. Safe-bind _ _ (fetch-Safe image (i + 1) h) (λ high _. safe _ tt))

plus_bound : (score : ℤ) (n : ℕ) → to_uint (plus score n) ≤ to_uint score + n
unfolding plus to_uint
plus_bound (pos m) n = omega arith
plus_bound (negsuc m) n = ground arith

minus_bound : (score : ℤ) (n : ℕ) → to_uint (minus score n) ≤ to_uint score
unfolding minus to_uint
minus_bound (pos m) n = ground arith
minus_bound (negsuc m) n = omega arith

-- One more condition that adds.
if_bound :
    (t : Bool) (score : ℤ) (n : ℕ) (k : ℕ)
    → to_uint score ≤ k
    → to_uint (if t then plus score n else score) ≤ k + n
if_bound true score n k h = omega (arith, plus_bound score n)
if_bound false score n k h = omega arith

if_minus_bound :
    (t : Bool) (score : ℤ) (n k : ℕ)
    → to_uint score ≤ k
    → to_uint (if t then minus score n else score) ≤ k
if_minus_bound true score n k h = omega (arith, minus_bound score n)
if_minus_bound false score n k h = h

likely_or_plausible : (op : ℕ) → most_likely op ≡ true → plausible op ≡ false
unfolding most_likely plausible
likely_or_plausible op h = ground arith

score_opcode_bound : (op : ℕ) → to_uint (score_opcode op (pos 0)) ≤ 8
unfolding score_opcode to_uint plus
score_opcode_bound op = elim (Bool-cases (most_likely op)) [
  | inl likely ↦
      rw (likely, likely_or_plausible op likely)
        (if_minus_bound (least_likely op) _ 8 8
          (if_minus_bound (implausible op) (pos 8) 4 8 (omega arith)))
  | inr other ↦ rw other (
      if_minus_bound (least_likely op) _ 8 8 (
        if_minus_bound (implausible op) _ 4 8
          (omega (arith, if_bound (plausible op) (pos 0) 4 0 (omega arith)))))
]

score_checksum_bound :
    (a b : ℕ) (score : ℤ) (k : ℕ) → to_uint score ≤ k → to_uint (score_checksum a b score) ≤ k + 4
unfolding score_checksum
score_checksum_bound a b score k h = if_bound _ score 4 k h

-- At most one of the four conditions holds.
score_mapper_bound :
    (addr mapper : ℕ) (score : ℤ) (k : ℕ)
    → to_uint score ≤ k
    → to_uint (score_mapper addr mapper score) ≤ k + 2
unfolding score_mapper
score_mapper_bound addr mapper score k h = let two = plus_bound score 2 in ground (arith, two)

score_fields_bound :
    (company rom_type rom_size ram_size region : ℕ) (score : ℤ) (k : ℕ)
    → to_uint score ≤ k
    → to_uint (score_fields company rom_type rom_size ram_size region score) ≤ k + 6
unfolding score_fields
score_fields_bound company rom_type rom_size ram_size region score k h = omega (
  arith,
  if_bound (ltb region 14) _ 1 _ (
      if_bound (ltb ram_size 0x08) _ 1 _ (
        if_bound (ltb rom_size 0x10) _ 1 _
          (if_bound (ltb rom_type 0x08) _ 1 _ (if_bound (company == 0x33) score 2 k h)))),
)

pub score_info-Safe :
    (image : List ℕ) (addr op mapper checksum complement : ℕ)
    → addr + 64 ≤ length image
    → Safe (λ score. score ≤ 20) (score_info image addr op mapper checksum complement)
unfolding score_info
score_info-Safe image addr op mapper checksum complement h =
    let reads = fetch-Safe image in
    Safe-bind _ _ (reads _ (omega arith)) (λ company _.
      Safe-bind _ _ (reads _ (omega arith)) (λ rom_type _.
        Safe-bind _ _ (reads _ (omega arith)) (λ rom_size _.
          Safe-bind _ _ (reads _ (omega arith)) (λ ram_size _.
            Safe-bind _ _ (reads _ (omega arith)) (λ region _. safe _ (
              score_fields_bound company rom_type rom_size ram_size region _ 14 (
                score_mapper_bound addr mapper _ 12
                  (score_checksum_bound checksum complement _ 8 (score_opcode_bound op)))))))))

-- At an address whose offset in its bank is 0x7fc0, scoreHeader reads only inside the image and
-- returns a score of 20 at most, which is zero where the header is not all inside the image.
pub score_header-Safe :
    (image : List ℕ) (size addr : ℕ)
    → size ≤ length image
    → addr % 0x8000 ≡ 0x7fc0
    → addr + 64 < 4294967296
    → Safe (λ score. (score ≤ 20) × (size < addr + 64 → score ≡ 0)) (score_header image size addr)
unfolding score_header
score_header-Safe image size addr fits aligned small =
    let exact : u32 (addr + 64) ≡ addr + 64 = omega arith in
    rw exact (
      Safe-if _ _ _ (λ out. safe 0 (omega arith, λ _. refl))
        (λ room.
          let inside = ltb-false→le size (addr + 64) room in
          let reads = fetch-Safe image in
          let words = word_at-Safe image in
          Safe-bind _ _ (words _ (omega arith)) (λ reset_vector _.
            Safe-bind _ _ (words _ (omega arith)) (λ checksum _.
              Safe-bind _ _ (words _ (omega arith)) (λ complement _.
                Safe-bind _ _ (reads _ (omega arith)) (λ op _.
                  Safe-bind _ _ (reads _ (omega arith)) (λ mapper _.
                    Safe-if _ _ _ (λ _. safe 0 (omega arith, λ _. refl))
                      (λ _.
                        Safe-weaken _ (λ score bound. (bound, λ out. absurd (omega arith)))
                          (score_info-Safe image addr op (bit_and mapper 0xef) checksum complement
                            (omega arith))))))))))
