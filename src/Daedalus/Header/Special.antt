-- ===== src/Daedalus/Header/Special.antt =====
-- daedalus/heuristics/super-famicom.cpp: the cartridges that readHeader returns early.
use mercurial_magic.Prelude.{
  ℕ, ◌+◌, ◌≤◌, Bool, true, false, if◌then◌else◌, Option, none, some, List, codes, length, Run, ok,
  ◌>>=◌, Safe, safe, Safe-bind, Safe-if, arith,
}
use mercurial_magic.Daedalus.Cartridge.{
  Cartridge, CartType, super_game_boy_1_bios, super_game_boy_2_bios, campus_challenge_92,
  powerfest_94, satellaview, ntsc,
}
use mercurial_magic.Daedalus.Chips.{Header}
use mercurial_magic.Daedalus.Chips.One.{IsClean, retype-IsClean}
use mercurial_magic.Daedalus.Header.{
  campus_title, powerfest_title, prehistorik_title, is_campus, is_powerfest, detect_sufami_turbo,
  detect_super_game_boy, detect_competition, detect_special,
}
use mercurial_magic.Daedalus.Header.Reads.{same_memory-Safe, is_satellaview-Safe}

-- What a test leaves: a cartridge to return, or none.
unfoldable pub IsDone : ℕ → Option Cartridge → Type 0
IsDone size none = Unit
IsDone size (some c) = IsClean size c

IsDone-if :
    {size : ℕ} {c : Cartridge} (t : Bool)
    → IsClean size c
    → Safe (IsDone size) (ok (if t then some c else none))
unfolding IsDone
IsDone-if true clean = safe _ clean
IsDone-if false clean = safe _ tt

module _ (image : List ℕ) (size : ℕ) where
  detect_sufami_turbo-Safe :
      (c : Cartridge)
      → 0x8000 ≤ length image
      → IsClean size c
      → Safe (IsDone size) (detect_sufami_turbo image c)
  unfolding detect_sufami_turbo IsDone
  detect_sufami_turbo-Safe c enough clean =
      Safe-bind _ _ (same_memory-Safe image 0 (codes "BANDAI SFC-ADX") (omega arith)) (λ cart _.
        Safe-if cart _ _
          (λ _.
            Safe-bind _ _ (same_memory-Safe image 16 (codes "SFC-ADX BACKUP") (omega arith))
              (λ bios _. safe _ (retype-IsClean size c _ ntsc c.has_bsx_slot clean)))
          (λ _. safe _ tt))

  detect_super_game_boy-Safe :
      (index : ℕ) (c : Cartridge)
      → index + 64 ≤ length image
      → IsClean size c
      → Safe (IsDone size) (detect_super_game_boy image index c)
  unfolding detect_super_game_boy IsDone
  detect_super_game_boy-Safe index c inside clean =
      let done = λ (t : CartType). retype-IsClean size c t c.region c.has_bsx_slot clean in
      Safe-bind _ _ (same_memory-Safe image index (codes "Super GAMEBOY2") (omega arith))
        (λ second _.
          Safe-if second _ _ (λ _. safe _ (done super_game_boy_2_bios))
            (λ _.
              Safe-bind _ _ (same_memory-Safe image index (codes "Super GAMEBOY") (omega arith))
                (λ first _. IsDone-if first (done super_game_boy_1_bios))))

  detect_competition-Safe :
      (h : Header) (c : Cartridge)
      → h.index + 64 ≤ length image
      → IsClean size c
      → Safe (IsDone size) (detect_competition image h size c)
  unfolding detect_competition IsDone
  detect_competition-Safe h c inside clean =
      let done = λ (t : CartType). retype-IsClean size c t c.region c.has_bsx_slot clean in
      Safe-bind _ _ (same_memory-Safe image h.index campus_title (omega arith)) (λ campus _.
        Safe-if (is_campus campus h size) _ _ (λ _. safe _ (done campus_challenge_92))
          (λ _.
            Safe-bind _ _ (same_memory-Safe image h.index powerfest_title (omega arith))
              (λ powerfest _.
                Safe-if (is_powerfest 0x2011 0xf8c0 powerfest h size) _ _
                  (λ _. safe _ (done powerfest_94))
                  (λ _.
                    Safe-bind _ _ (same_memory-Safe image h.index prehistorik_title (omega arith))
                      (λ prehistorik _. IsDone-if _ (done powerfest_94))))))

  -- A test is followed by the next one where it leaves none.
  else_test :
      (m n : Run (Option Cartridge))
      → Safe (IsDone size) m
      → Safe (IsDone size) n
      → Safe (IsDone size) (m >>= λ found. elim found [ some c ↦ ok (some c) | none ↦ n ])
  unfolding IsDone
  else_test m n (safe (some c) done) h = safe _ done
  else_test m n (safe none done) h = h

  pub detect_special-Safe :
      (h : Header) (c : Cartridge)
      → 0x8000 ≤ length image
      → h.index + 64 ≤ length image
      → IsClean size c
      → Safe (IsDone size) (detect_special image h size c)
  unfolding detect_special IsDone
  detect_special-Safe h c enough inside clean =
      Safe-bind _ _ (is_satellaview-Safe image h.index inside) (λ flash _.
        Safe-if flash _ _
          (λ _. safe _ (retype-IsClean size c satellaview ntsc c.has_bsx_slot clean))
          (λ _. else_test _ _ (detect_sufami_turbo-Safe c enough clean) (
            else_test _ _ (detect_super_game_boy-Safe h.index c inside clean)
              (detect_competition-Safe h c inside clean))))
