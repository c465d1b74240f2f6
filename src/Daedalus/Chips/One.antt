-- ===== src/Daedalus/Chips/One.antt =====
-- daedalus/heuristics/super-famicom.cpp: the coprocessors that readHeader leaves flagged.
use mercurial_magic.Prelude.{
  ℕ, ◌-◌, ◌%◌, ◌≤◌, ◌<◌, ◌≡◌, ◌≢◌, ◌↔◌, ◌⊎◌, inl, inr, refl, sym, ◌∙◌, Bool, true, false, ◌||◌,
  Option, none, some, List, [], length, Safe, safe, Safe-bind, Safe-if, arith,
}
use native.Mathlib.Nat.{pow-le-pow_right}
use mercurial_magic.Daedalus.Cartridge.{
  Cartridge, CartType, Region, game_boy, super_fx, Dsp1Type, dsp1_none,
}
use mercurial_magic.Daedalus.Score.Range.{fetch-Safe}
use mercurial_magic.Daedalus.Chips.{
  Header, is_superfx, is_spc7110, ram_bytes, choose_dsp1, detect_superfx, detect_coprocessors,
  is_dsp1_lo, is_dsp1_fast, is_dsp1_hi,
}
use mercurial_magic.Daedalus.Chips.Flags.{found_dsp1, detected, detect_chips-eq}
use mercurial_magic.Daedalus.Chips.Table.{
  Chip, flag, test, has_clock, chip_of, test→chip_of, chip_of→test, chip_superfx, chip_sa1,
  chip_sharprtc, chip_sdd1, chip_spc7110, chip_cx4, chip_dsp1, chip_dsp2, chip_dsp3, chip_dsp4,
  chip_obc1, chip_st010, chip_st011, chip_st018,
}

-- A cartridge in which no coprocessor is flagged yet, with the sizes that it was given.
pub record IsClean (size : ℕ) (c : Cartridge) : Type 0 where
  pub unmarked : c.markup ≡ []
  pub unflagged : (k : Chip) → flag k c ≡ false
  pub without_clock : c.has_epsonrtc ≡ false
  pub sized : c.rom_size ≡ size
  pub small : c.ram_size ≤ 0x20000

-- What readHeader promises: the flags are those of one coprocessor or of none, and with an SPC7110
-- there may be Epson's clock.
pub record IsRead (size : ℕ) (c : Cartridge) : Type 0 where
  pub no_markup : c.markup ≡ []
  pub chip : (one : Option Chip) × ((k : Chip) → (flag k c ≡ true) ↔ (one ≡ some k))
  pub clock : c.has_epsonrtc ≡ true → c.has_spc7110 ≡ true
  pub dsp1 : c.has_dsp1 ≡ true → c.dsp1_type ≢ dsp1_none
  pub small_ram : c.ram_size ≤ 0x20000
  pub whole : (c.type ≡ game_boy) ⊎ (c.rom_size ≡ size)

retype_flag :
    (k : Chip) (c : Cartridge) (t : CartType) (r : Region) (slot : Bool)
    → flag k (record c { type = t; region = r; has_bsx_slot = slot }) ≡ flag k c
retype_flag chip_superfx c t r slot = refl
retype_flag chip_sa1 c t r slot = refl
retype_flag chip_sharprtc c t r slot = refl
retype_flag chip_sdd1 c t r slot = refl
retype_flag chip_spc7110 c t r slot = refl
retype_flag chip_cx4 c t r slot = refl
retype_flag chip_dsp1 c t r slot = refl
retype_flag chip_dsp2 c t r slot = refl
retype_flag chip_dsp3 c t r slot = refl
retype_flag chip_dsp4 c t r slot = refl
retype_flag chip_obc1 c t r slot = refl
retype_flag chip_st010 c t r slot = refl
retype_flag chip_st011 c t r slot = refl
retype_flag chip_st018 c t r slot = refl

pub retype-IsClean :
    (size : ℕ) (c : Cartridge) (t : CartType) (r : Region) (slot : Bool)
    → IsClean size c
    → IsClean size (record c { type = t; region = r; has_bsx_slot = slot })
retype-IsClean size c t r slot clean = record {
  unmarked = clean.unmarked;
  unflagged = λ k. retype_flag k c t r slot ∙ clean.unflagged k;
  without_clock = clean.without_clock;
  sized = clean.sized;
  small = clean.small;
}

pub IsClean-IsRead : (size : ℕ) (c : Cartridge) → IsClean size c → IsRead size c
IsClean-IsRead size c clean = record {
  no_markup = clean.unmarked;
  chip = (none, λ k. (λ e. let off = clean.unflagged k in cc (e, off), λ e. cc e));
  clock = λ e. let off = clean.without_clock in cc (e, off);
  dsp1 = λ e. let off = clean.unflagged chip_dsp1 in cc (e, off);
  small_ram = clean.small;
  whole = inr clean.sized;
}

pub ram_bytes_bound : (n : ℕ) → ram_bytes n ≤ 0x20000
unfolding ram_bytes
ram_bytes_bound n =
    let top = pow-le-pow_right {n = 2} (omega arith) {i = n % 8} {j = 7} (omega arith) in
    ground (arith, top)

-- The flags in front of the tests of `detect_chips`.
before : Chip → Header → Bool
before chip_superfx h = is_superfx h
before chip_sa1 h = false
before chip_sharprtc h = false
before chip_sdd1 h = false
before chip_spc7110 h = false
before chip_cx4 h = false
before chip_dsp1 h = false
before chip_dsp2 h = false
before chip_dsp3 h = false
before chip_dsp4 h = false
before chip_obc1 h = false
before chip_st010 h = false
before chip_st011 h = false
before chip_st018 h = false

or_false : (b : Bool) → (b || false) ≡ b
or_false true = refl
or_false false = refl

flag-detected :
    (h : Header) (size : ℕ) (c : Cartridge)
    → ((k : Chip) → flag k c ≡ before k h)
    → (k : Chip) → flag k (detected h size c) ≡ test k h
unfolding before
flag-detected h size c e chip_superfx = e chip_superfx
flag-detected h size c e chip_sa1 = rw (e chip_sa1) (or_false (test chip_sa1 h))
flag-detected h size c e chip_sharprtc = rw (e chip_sharprtc) (or_false (test chip_sharprtc h))
flag-detected h size c e chip_sdd1 = rw (e chip_sdd1) (or_false (test chip_sdd1 h))
flag-detected h size c e chip_spc7110 = rw (e chip_spc7110) (or_false (test chip_spc7110 h))
flag-detected h size c e chip_cx4 = rw (e chip_cx4) (or_false (test chip_cx4 h))
flag-detected h size c e chip_dsp1 = rw (e chip_dsp1) refl
flag-detected h size c e chip_dsp2 = rw (e chip_dsp2) (or_false (test chip_dsp2 h))
flag-detected h size c e chip_dsp3 = rw (e chip_dsp3) (or_false (test chip_dsp3 h))
flag-detected h size c e chip_dsp4 = rw (e chip_dsp4) (or_false (test chip_dsp4 h))
flag-detected h size c e chip_obc1 = rw (e chip_obc1) (or_false (test chip_obc1 h))
flag-detected h size c e chip_st010 = rw (e chip_st010) (or_false (test chip_st010 h))
flag-detected h size c e chip_st011 = rw (e chip_st011) (or_false (test chip_st011 h))
flag-detected h size c e chip_st018 = rw (e chip_st018) (or_false (test chip_st018 h))

dsp1_mapper :
    (h : Header)
    → found_dsp1 h false ≡ true
    → (h.mapper_id ≡ 0x20) ⊎ (h.mapper_id ≡ 0x21) ⊎ (h.mapper_id ≡ 0x30) ⊎ (h.mapper_id ≡ 0x31)
unfolding is_dsp1_lo is_dsp1_fast is_dsp1_hi
dsp1_mapper h e = ground arith

choose_dsp1-ne :
    (m size : ℕ) (old : Dsp1Type)
    → (m ≡ 0x20) ⊎ (m ≡ 0x21) ⊎ (m ≡ 0x30) ⊎ (m ≡ 0x31)
    → choose_dsp1 m size old ≢ dsp1_none
unfolding choose_dsp1
choose_dsp1-ne m size old (inl e) h = let bad = rw e at h in ground arith
choose_dsp1-ne m size old (inr (inl e)) h = let bad = rw e at h in ground arith
choose_dsp1-ne m size old (inr (inr (inl e))) h = let bad = rw e at h in ground arith
choose_dsp1-ne m size old (inr (inr (inr e))) h = let bad = rw e at h in ground arith

-- Epson's clock, if there was none before.
has_epsonrtc-detected :
    (h : Header) (size : ℕ) (c : Cartridge)
    → c.has_epsonrtc ≡ false
    → (detected h size c).has_epsonrtc ≡ has_clock h
unfolding is_spc7110
has_epsonrtc-detected h size c off = ground (arith, off)

clock→spc7110 : (h : Header) → has_clock h ≡ true → test chip_spc7110 h ≡ true
unfolding is_spc7110
clock→spc7110 h e = ground arith

-- Over a cartridge without flags but that of the Super FX, the tests leave those of the table.
tested-IsRead :
    (h : Header) (size : ℕ) (c : Cartridge)
    → c.markup ≡ []
    → c.ram_size ≤ 0x20000
    → ((k : Chip) → flag k c ≡ before k h)
    → c.has_epsonrtc ≡ false
    → c.rom_size ≡ size
    → IsRead size (detected h size c)
unfolding before
tested-IsRead h size c blank bound e off sized =
    let flags = flag-detected h size c e in
    record {
      no_markup = blank;
      chip = (
        chip_of h,
        λ k. (
          λ on. test→chip_of h k (sym (flags k) ∙ on),
          λ found. flags k ∙ chip_of→test h k found,
        ),
      );
      clock = λ on.
          flags chip_spc7110 ∙ clock→spc7110 h (sym (has_epsonrtc-detected h size c off) ∙ on);
      dsp1 = λ on.
          let found : found_dsp1 h false ≡ true = sym (flags chip_dsp1) ∙ on in
          rw (on) (choose_dsp1-ne h.mapper_id size c.dsp1_type (dsp1_mapper h found));
      small_ram = bound;
      whole = inr sized;
    }

superfx_flag :
    (h : Header) (c : Cartridge) (ram : ℕ)
    → is_superfx h ≡ true
    → ((k : Chip) → flag k c ≡ false)
    → (k : Chip)
    → flag k (record c { has_superfx = true; type = super_fx; ram_size = ram }) ≡ before k h
unfolding before
superfx_flag h c ram found off chip_superfx = sym found
superfx_flag h c ram found off chip_sa1 = off chip_sa1
superfx_flag h c ram found off chip_sharprtc = off chip_sharprtc
superfx_flag h c ram found off chip_sdd1 = off chip_sdd1
superfx_flag h c ram found off chip_spc7110 = off chip_spc7110
superfx_flag h c ram found off chip_cx4 = off chip_cx4
superfx_flag h c ram found off chip_dsp1 = off chip_dsp1
superfx_flag h c ram found off chip_dsp2 = off chip_dsp2
superfx_flag h c ram found off chip_dsp3 = off chip_dsp3
superfx_flag h c ram found off chip_dsp4 = off chip_dsp4
superfx_flag h c ram found off chip_obc1 = off chip_obc1
superfx_flag h c ram found off chip_st010 = off chip_st010
superfx_flag h c ram found off chip_st011 = off chip_st011
superfx_flag h c ram found off chip_st018 = off chip_st018

other_flag :
    (h : Header) (c : Cartridge)
    → is_superfx h ≡ false
    → ((k : Chip) → flag k c ≡ false)
    → (k : Chip) → flag k c ≡ before k h
unfolding before
other_flag h c other off chip_superfx = off chip_superfx ∙ sym other
other_flag h c other off chip_sa1 = off chip_sa1
other_flag h c other off chip_sharprtc = off chip_sharprtc
other_flag h c other off chip_sdd1 = off chip_sdd1
other_flag h c other off chip_spc7110 = off chip_spc7110
other_flag h c other off chip_cx4 = off chip_cx4
other_flag h c other off chip_dsp1 = off chip_dsp1
other_flag h c other off chip_dsp2 = off chip_dsp2
other_flag h c other off chip_dsp3 = off chip_dsp3
other_flag h c other off chip_dsp4 = off chip_dsp4
other_flag h c other off chip_obc1 = off chip_obc1
other_flag h c other off chip_st010 = off chip_st010
other_flag h c other off chip_st011 = off chip_st011
other_flag h c other off chip_st018 = off chip_st018

-- Up to the test for the Super FX.
record IsPrepared (h : Header) (size : ℕ) (c : Cartridge) : Type 0 where
  plain : c.markup ≡ []
  flags : (k : Chip) → flag k c ≡ before k h
  room : c.ram_size ≤ 0x20000
  unset : c.has_epsonrtc ≡ false
  exact : c.rom_size ≡ size

detect_superfx-Safe :
    (image : List ℕ) (h : Header) (size : ℕ) (c : Cartridge)
    → h.index < length image
    → IsClean size c
    → Safe (IsPrepared h size) (detect_superfx image h c)
unfolding detect_superfx
detect_superfx-Safe image h size c inside clean =
    Safe-if _ _ _
      (λ found. Safe-bind _ _ (fetch-Safe image (h.index - 3) (omega arith)) (λ ram _.
        safe _ (record {
          plain = clean.unmarked;
          flags = superfx_flag h c (ram_bytes ram) found clean.unflagged;
          room = ram_bytes_bound ram;
          unset = clean.without_clock;
          exact = clean.sized;
        })))
      (λ other. safe c (record {
        plain = clean.unmarked;
        flags = other_flag h c other clean.unflagged;
        room = clean.small;
        unset = clean.without_clock;
        exact = clean.sized;
      }))

pub detect_coprocessors-Safe :
    (image : List ℕ) (h : Header) (size : ℕ) (c : Cartridge)
    → h.index < length image
    → IsClean size c
    → Safe (IsRead size) (detect_coprocessors image h size c)
unfolding detect_coprocessors
detect_coprocessors-Safe image h size c inside clean =
    Safe-bind _ _ (detect_superfx-Safe image h size c inside clean) (λ c' ready.
      rw (detect_chips-eq h size c') (
        safe _
          (tested-IsRead h size c' ready.plain ready.room ready.flags ready.unset ready.exact)))

-- Over a cartridge without flags, the tests for coprocessors read inside the image. Of the chips
-- of the table they flag the one that the table names for the header, and no other, and they flag
-- Epson's clock for the one board that has it.
pub detect_coprocessors-chip_of :
    (image : List ℕ) (h : Header) (size : ℕ) (c : Cartridge)
    → h.index < length image
    → IsClean size c
    → Safe
        (λ c'.
          ((k : Chip) → (flag k c' ≡ true) ↔ (chip_of h ≡ some k))
          × (c'.has_epsonrtc ≡ has_clock h))
        (detect_coprocessors image h size c)
unfolding detect_coprocessors
detect_coprocessors-chip_of image h size c inside clean =
    Safe-bind _ _ (detect_superfx-Safe image h size c inside clean) (λ c' ready.
      rw (detect_chips-eq h size c') (
        safe _ (
          λ k.
              let same = flag-detected h size c' ready.flags k in
              (λ on. test→chip_of h k (sym same ∙ on), λ one. same ∙ chip_of→test h k one),
          has_epsonrtc-detected h size c' ready.unset,
        )))
