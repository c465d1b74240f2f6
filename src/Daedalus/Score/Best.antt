-- ===== src/Daedalus/Score/Best.antt =====
-- daedalus/heuristics/super-famicom.cpp: findHeader against its specification.
use mercurial_magic.Prelude.{
  ℕ, ◌+◌, ◌%◌, ◌≤◌, ◌<◌, ◌≡◌, refl, ◌⊎◌, inl, inr, ◌==◌, if◌then◌else◌, List, length, ok, Safe,
  safe, Safe-ok, arith,
}
use mercurial_magic.Daedalus.Score.{score_header, choose_header, favor, find_header}
use mercurial_magic.Daedalus.Score.Range.{score_header-Safe}

-- The three places where a header may stand.
abbrev pub IsLocation : ℕ → Type 0
IsLocation addr = (addr ≡ 0x7fc0) ⊎ (addr ≡ 0xffc0) ⊎ (addr ≡ 0x40ffc0)

-- The score that counts: a header of an image of more than 32 Mbit is favored.
abbrev pub weigh : (addr score : ℕ) → ℕ
weigh addr score = if addr == 0x40ffc0 then favor score else score

-- `index` is a place inside the image, and no place has a better score.
pub record IsBest (image : List ℕ) (size index : ℕ) : Type 0 where
  pub location : IsLocation index
  pub inside : index + 64 ≤ size
  pub best :
      (addr score top : ℕ)
      → IsLocation addr
      → score_header image size addr ≡ ok score
      → score_header image size index ≡ ok top
      → weigh addr score ≤ weigh index top

abbrev pub Scored : List ℕ → (size addr : ℕ) → Type 0
Scored image size addr =
    (score : ℕ) × (score_header image size addr ≡ ok score)
    × ((score ≤ 20) × (size < addr + 64 → score ≡ 0))

scored :
    (image : List ℕ) (size addr : ℕ)
    → size ≤ length image
    → addr % 0x8000 ≡ 0x7fc0
    → addr + 64 < 4294967296
    → Scored image size addr
scored image size addr fits aligned small =
    Safe-ok (score_header-Safe image size addr fits aligned small)

choose_inside :
    (size lo hi ex : ℕ)
    → 0x8000 ≤ size
    → (size < 0xffc0 + 64 → hi ≡ 0)
    → (size < 0x40ffc0 + 64 → ex ≡ 0)
    → choose_header lo hi (favor ex) + 64 ≤ size
unfolding choose_header favor
choose_inside size lo hi ex h no_hi no_ex = ground arith

choose_header-IsLocation : (lo hi ex : ℕ) → IsLocation (choose_header lo hi ex)
unfolding choose_header
choose_header-IsLocation lo hi ex = ground arith

-- The score that was found for a place.
abbrev pick : (lo hi ex addr : ℕ) → ℕ
pick lo hi ex addr = if addr == 0x7fc0 then lo else if addr == 0xffc0 then hi else ex

choose_best :
    (lo hi ex addr : ℕ)
    → IsLocation addr
    → weigh addr (pick lo hi ex addr)
      ≤ weigh (choose_header lo hi (favor ex)) (pick lo hi ex (choose_header lo hi (favor ex)))
unfolding choose_header favor
choose_best lo hi ex addr (inl e) = rw e (ground arith)
choose_best lo hi ex addr (inr (inl e)) = rw e (ground arith)
choose_best lo hi ex addr (inr (inr e)) = rw e (ground arith)

pick-eq :
    (image : List ℕ) (size lo hi ex addr score : ℕ)
    → score_header image size 0x7fc0 ≡ ok lo
    → score_header image size 0xffc0 ≡ ok hi
    → score_header image size 0x40ffc0 ≡ ok ex
    → IsLocation addr
    → score_header image size addr ≡ ok score
    → score ≡ pick lo hi ex addr
pick-eq image size lo hi ex addr score a b c (inl e) h = rw e (let same = rw e at h in cc (same, a))
pick-eq image size lo hi ex addr score a b c (inr (inl e)) h =
    rw e (let same = rw e at h in cc (same, b))
pick-eq image size lo hi ex addr score a b c (inr (inr e)) h =
    rw e (let same = rw e at h in cc (same, c))

-- For an image of 32 KiB or more, findHeader reads only inside the image and returns one of the
-- three places where a header may stand, with all of the header inside the image, and no place has
-- a better score, where that of an ExHiROM header counts four more unless it is zero.
pub find_header-Safe :
    (image : List ℕ) (size : ℕ)
    → size ≤ length image
    → 0x8000 ≤ size
    → Safe (IsBest image size) (find_header image size)
unfolding find_header
find_header-Safe image size fits enough =
    let (lo, lo_ok, _) = scored image size 0x7fc0 fits refl (omega arith) in
    let (hi, hi_ok, (_, no_hi)) = scored image size 0xffc0 fits refl (omega arith) in
    let (ex, ex_ok, (_, no_ex)) = scored image size 0x40ffc0 fits refl (omega arith) in
    let same = λ (addr score : ℕ). pick-eq image size lo hi ex addr score lo_ok hi_ok ex_ok in
    let place = choose_header-IsLocation lo hi (favor ex) in
    rw (lo_ok, hi_ok, ex_ok)
      (safe (choose_header lo hi (favor ex)) (record {
        location = place;
        inside = choose_inside size lo hi ex enough no_hi no_ex;
        best = λ addr score top at_addr h k.
            rw (same addr score at_addr h, same (choose_header lo hi (favor ex)) top place k)
              (choose_best lo hi ex addr at_addr);
      }))
