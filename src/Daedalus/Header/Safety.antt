-- ===== src/Daedalus/Header/Safety.antt =====
-- daedalus/heuristics/super-famicom.cpp: readHeader reads inside the image, and what it leaves.
use mercurial_magic.Prelude.{
  ℕ, ◌+◌, ◌≤◌, ◌≡◌, refl, inl, Bool, true, false, ◌&&◌, ◌==◌, leb, if◌then◌else◌, Option, none,
  some, List, codes, length, Run, ok, ◌>>=◌, Safe, safe, Safe-bind, Safe-if, arith,
}
use mercurial_magic.Daedalus.Cartridge.{
  Cartridge, CartType, is, unknown, game_boy, satellaview_bios, lo_rom, hi_rom, ex_lo_rom,
  ex_hi_rom, blank_cartridge, ntsc,
}
use mercurial_magic.Daedalus.Chips.{Header}
use mercurial_magic.Daedalus.Chips.Table.{
  Chip, flag, chip_superfx, chip_sa1, chip_sharprtc, chip_sdd1, chip_spc7110, chip_cx4, chip_dsp1,
  chip_dsp2, chip_dsp3, chip_dsp4, chip_obc1, chip_st010, chip_st011, chip_st018,
}
use mercurial_magic.Daedalus.Chips.One.{
  IsClean, IsRead, retype-IsClean, IsClean-IsRead, ram_bytes_bound, detect_coprocessors-Safe,
}
use mercurial_magic.Daedalus.Score.Range.{fetch-Safe}
use mercurial_magic.Daedalus.Score.Best.{find_header-Safe}
use mercurial_magic.Daedalus.Header.{
  set_sizes, standard_type, slotted_type, detect_board, read_header,
}
use mercurial_magic.Daedalus.Header.Reads.{
  same_memory-Safe, is_game_boy-Safe, read_fields-Safe, has_connector-Safe,
}
use mercurial_magic.Daedalus.Header.Special.{IsDone, detect_special-Safe}

if_IsClean :
    {size : ℕ} {a b : Cartridge} (t : Bool)
    → IsClean size a
    → IsClean size b
    → IsClean size (if t then a else b)
if_IsClean true x y = x
if_IsClean false x y = y

module _ (image : List ℕ) (size : ℕ) where
  standard_type-IsClean :
      (h : Header) (c : Cartridge) → IsClean size c → IsClean size (standard_type h size c)
  unfolding standard_type
  standard_type-IsClean h c clean =
      let done = λ (t : CartType). retype-IsClean size c t c.region c.has_bsx_slot clean in
      if_IsClean (h.index == 0x7fc0 && leb 0x401000 size) (done ex_lo_rom) (
        if_IsClean (h.index == 0x7fc0 && h.mapper_id == 0x32) (done ex_lo_rom) (
          if_IsClean (h.index == 0x7fc0) (done lo_rom) (
            if_IsClean (h.index == 0xffc0) (done hi_rom)
              (if_IsClean (h.index == 0x40ffc0) (done ex_hi_rom) (done unknown)))))

  slotted_type-IsClean :
      (base : Bool) (h : Header) (c : Cartridge)
      → IsClean size c
      → IsClean size (slotted_type base h c)
  unfolding slotted_type
  slotted_type-IsClean base h c clean =
      if_IsClean base (retype-IsClean size c satellaview_bios ntsc true clean)
        (retype-IsClean size c _ ntsc true clean)

  detect_board-Safe :
      (h : Header) (c : Cartridge)
      → h.index + 64 ≤ length image
      → IsClean size c
      → Safe (IsRead size) (detect_board image h size c)
  unfolding detect_board
  detect_board-Safe h c inside clean =
      let chips = λ (c' : Cartridge). detect_coprocessors-Safe image h size c' (omega arith) in
      let standard = standard_type-IsClean h c clean in
      Safe-bind _ _ (has_connector-Safe image h inside) (λ slot _.
        Safe-if slot _ _
          (λ _.
            Safe-bind _ _
              (same_memory-Safe image h.index (codes "Satellaview BS-X     ") (omega arith))
              (λ base _.
                Safe-if base _ _
                  (λ _. safe _ (IsClean-IsRead size _ (slotted_type-IsClean true h c clean)))
                  (λ _. chips _ (slotted_type-IsClean false h c clean))))
          (λ _.
            Safe-if (is (standard_type h size c).type unknown) _ _
              (λ _. safe _ (IsClean-IsRead size _ standard)) (λ _. chips _ standard)))

  flag-set_sizes :
      (h : Header) (ram : ℕ) (k : Chip) → flag k (set_sizes h size ram blank_cartridge) ≡ false
  unfolding set_sizes
  flag-set_sizes h ram chip_superfx = refl
  flag-set_sizes h ram chip_sa1 = refl
  flag-set_sizes h ram chip_sharprtc = refl
  flag-set_sizes h ram chip_sdd1 = refl
  flag-set_sizes h ram chip_spc7110 = refl
  flag-set_sizes h ram chip_cx4 = refl
  flag-set_sizes h ram chip_dsp1 = refl
  flag-set_sizes h ram chip_dsp2 = refl
  flag-set_sizes h ram chip_dsp3 = refl
  flag-set_sizes h ram chip_dsp4 = refl
  flag-set_sizes h ram chip_obc1 = refl
  flag-set_sizes h ram chip_st010 = refl
  flag-set_sizes h ram chip_st011 = refl
  flag-set_sizes h ram chip_st018 = refl

  blank_flag : (k : Chip) → flag k (record blank_cartridge { type = game_boy }) ≡ false
  blank_flag chip_superfx = refl
  blank_flag chip_sa1 = refl
  blank_flag chip_sharprtc = refl
  blank_flag chip_sdd1 = refl
  blank_flag chip_spc7110 = refl
  blank_flag chip_cx4 = refl
  blank_flag chip_dsp1 = refl
  blank_flag chip_dsp2 = refl
  blank_flag chip_dsp3 = refl
  blank_flag chip_dsp4 = refl
  blank_flag chip_obc1 = refl
  blank_flag chip_st010 = refl
  blank_flag chip_st011 = refl
  blank_flag chip_st018 = refl

  ram_size_bound :
      (h : Header) (ram : ℕ) → (set_sizes h size ram blank_cartridge).ram_size ≤ 0x20000
  unfolding set_sizes
  ram_size_bound h ram = let top = ram_bytes_bound ram in ground (arith, top)

  set_sizes-IsClean : (h : Header) (ram : ℕ) → IsClean size (set_sizes h size ram blank_cartridge)
  unfolding set_sizes
  set_sizes-IsClean h ram = record {
    unmarked = refl;
    unflagged = flag-set_sizes h ram;
    without_clock = refl;
    sized = refl;
    small = ram_size_bound h ram;
  }

  game_boy-IsRead : IsRead size (record blank_cartridge { type = game_boy })
  game_boy-IsRead = record {
    no_markup = refl;
    clock = λ e. cc e;
    chip = (none, λ k. (λ e. let off = blank_flag k in cc (e, off), λ e. cc e));
    dsp1 = λ e. cc e;
    small_ram = omega arith;
    whole = inl refl;
  }

  -- What is left to do when a test left none.
  else_board :
      (m : Run (Option Cartridge)) (n : Run Cartridge)
      → Safe (IsDone size) m
      → Safe (IsRead size) n
      → Safe (IsRead size) (m >>= λ found. elim found [ some done ↦ ok done | none ↦ n ])
  unfolding IsDone
  else_board m n (safe (some c) done) h = safe c (IsClean-IsRead size c done)
  else_board m n (safe none done) h = h

  pub read_header-Safe :
      size ≤ length image
      → 0x8000 ≤ size
      → Safe (IsRead size) (read_header image size blank_cartridge)
  unfolding read_header
  read_header-Safe fits enough = Safe-bind _ _ (is_game_boy-Safe image size fits) (λ boy _.
      Safe-if boy _ _ (λ _. safe _ game_boy-IsRead)
        (λ _. Safe-bind _ _ (find_header-Safe image size fits enough) (λ index found.
          let inside : index + 64 ≤ length image = omega (arith, found.inside) in
          Safe-bind _ _ (read_fields-Safe image index inside) (λ h same.
            Safe-bind _ _ (fetch-Safe image (index + 0x18) (omega arith)) (λ ram _.
              let clean = set_sizes-IsClean h ram in
              let within : h.index + 64 ≤ length image = omega (arith, same) in
              else_board _ _ (detect_special-Safe image size h _ (omega arith) within clean)
                (detect_board-Safe h _ within clean))))))
