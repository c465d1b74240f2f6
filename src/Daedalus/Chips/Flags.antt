-- ===== src/Daedalus/Chips/Flags.antt =====
-- daedalus/heuristics/super-famicom.cpp: what the tests of readHeader leave in the flags.
use mercurial_magic.Prelude.{
  ℕ, ◌≡◌, refl, Bool, true, false, ◌||◌, ◌==◌, if◌then◌else◌, Bool-cases, inl, inr,
}
use mercurial_magic.Daedalus.Cartridge.{Cartridge, sa1}
use mercurial_magic.Daedalus.Chips.{
  Header, choose_dsp1, set_dsp1_type, is_dsp1_lo, is_dsp1_fast, is_dsp1_hi, detect_dsp1,
  detect_chips, is_sa1, detect_sa1, is_sharprtc, detect_sharprtc, is_sdd1, detect_sdd1, is_spc7110,
  detect_spc7110, is_cx4, detect_cx4, is_dsp2, detect_dsp2, is_dsp3, detect_dsp3, is_dsp4,
  detect_dsp4, is_obc1, detect_obc1, is_st010, detect_st010, is_st011, detect_st011, is_st018,
  detect_st018,
}

sa1-eq :
    (h : Header) (c : Cartridge)
    → detect_sa1 h c
      ≡ record c { has_sa1 = is_sa1 h || c.has_sa1; type = if is_sa1 h then sa1 else c.type }
unfolding detect_sa1
sa1-eq h c = elim (Bool-cases (is_sa1 h)) [ inl e ↦ rw e refl | inr e ↦ rw e refl ]

sharprtc-eq :
    (h : Header) (c : Cartridge)
    → detect_sharprtc h c ≡ record c { has_sharprtc = is_sharprtc h || c.has_sharprtc }
unfolding detect_sharprtc
sharprtc-eq h c = elim (Bool-cases (is_sharprtc h)) [ inl e ↦ rw e refl | inr e ↦ rw e refl ]

sdd1-eq :
    (h : Header) (c : Cartridge) → detect_sdd1 h c ≡ record c { has_sdd1 = is_sdd1 h || c.has_sdd1 }
unfolding detect_sdd1
sdd1-eq h c = elim (Bool-cases (is_sdd1 h)) [ inl e ↦ rw e refl | inr e ↦ rw e refl ]

spc7110-eq :
    (h : Header) (c : Cartridge)
    → detect_spc7110 h c ≡ record c {
      has_spc7110 = is_spc7110 h || c.has_spc7110;
      has_epsonrtc = if is_spc7110 h then h.rom_type == 0xf9 else c.has_epsonrtc;
    }
unfolding detect_spc7110
spc7110-eq h c = elim (Bool-cases (is_spc7110 h)) [ inl e ↦ rw e refl | inr e ↦ rw e refl ]

cx4-eq :
    (h : Header) (c : Cartridge) → detect_cx4 h c ≡ record c { has_cx4 = is_cx4 h || c.has_cx4 }
unfolding detect_cx4
cx4-eq h c = elim (Bool-cases (is_cx4 h)) [ inl e ↦ rw e refl | inr e ↦ rw e refl ]

dsp2-eq :
    (h : Header) (c : Cartridge) → detect_dsp2 h c ≡ record c { has_dsp2 = is_dsp2 h || c.has_dsp2 }
unfolding detect_dsp2
dsp2-eq h c = elim (Bool-cases (is_dsp2 h)) [ inl e ↦ rw e refl | inr e ↦ rw e refl ]

dsp3-eq :
    (h : Header) (c : Cartridge) → detect_dsp3 h c ≡ record c { has_dsp3 = is_dsp3 h || c.has_dsp3 }
unfolding detect_dsp3
dsp3-eq h c = elim (Bool-cases (is_dsp3 h)) [ inl e ↦ rw e refl | inr e ↦ rw e refl ]

dsp4-eq :
    (h : Header) (c : Cartridge) → detect_dsp4 h c ≡ record c { has_dsp4 = is_dsp4 h || c.has_dsp4 }
unfolding detect_dsp4
dsp4-eq h c = elim (Bool-cases (is_dsp4 h)) [ inl e ↦ rw e refl | inr e ↦ rw e refl ]

obc1-eq :
    (h : Header) (c : Cartridge) → detect_obc1 h c ≡ record c { has_obc1 = is_obc1 h || c.has_obc1 }
unfolding detect_obc1
obc1-eq h c = elim (Bool-cases (is_obc1 h)) [ inl e ↦ rw e refl | inr e ↦ rw e refl ]

st010-eq :
    (h : Header) (c : Cartridge)
    → detect_st010 h c ≡ record c { has_st010 = is_st010 h || c.has_st010 }
unfolding detect_st010
st010-eq h c = elim (Bool-cases (is_st010 h)) [ inl e ↦ rw e refl | inr e ↦ rw e refl ]

st011-eq :
    (h : Header) (c : Cartridge)
    → detect_st011 h c ≡ record c { has_st011 = is_st011 h || c.has_st011 }
unfolding detect_st011
st011-eq h c = elim (Bool-cases (is_st011 h)) [ inl e ↦ rw e refl | inr e ↦ rw e refl ]

st018-eq :
    (h : Header) (c : Cartridge)
    → detect_st018 h c ≡ record c { has_st018 = is_st018 h || c.has_st018 }
unfolding detect_st018
st018-eq h c = elim (Bool-cases (is_st018 h)) [ inl e ↦ rw e refl | inr e ↦ rw e refl ]

abbrev pub found_dsp1 : Header → Bool → Bool
found_dsp1 h old = is_dsp1_hi h || (is_dsp1_fast h || (is_dsp1_lo h || old))

set_dsp1 :
    (t : Bool) (c : Cartridge)
    → (if t then record c { has_dsp1 = true } else c) ≡ record c { has_dsp1 = t || c.has_dsp1 }
set_dsp1 true c = refl
set_dsp1 false c = refl

dsp1-eq :
    (h : Header) (c : Cartridge) → detect_dsp1 h c ≡ record c { has_dsp1 = found_dsp1 h c.has_dsp1 }
unfolding detect_dsp1
dsp1-eq h c =
    rw
      (
        set_dsp1 (is_dsp1_lo h) c,
        set_dsp1 (is_dsp1_fast h) (record c { has_dsp1 = is_dsp1_lo h || c.has_dsp1 }),
        set_dsp1 (is_dsp1_hi h)
            (record c { has_dsp1 = is_dsp1_fast h || (is_dsp1_lo h || c.has_dsp1) }),
      )
      refl

dsp1_type-eq :
    (h : Header) (size : ℕ) (c : Cartridge)
    → set_dsp1_type h size c ≡ record c {
      dsp1_type = if c.has_dsp1 then choose_dsp1 h.mapper_id size c.dsp1_type else c.dsp1_type;
    }
unfolding set_dsp1_type
dsp1_type-eq h size c = elim (Bool-cases c.has_dsp1) [ inl e ↦ rw e refl | inr e ↦ rw e refl ]

-- The fields after all the tests, each from the header alone and from what the field was.
abbrev pub detected : Header → ℕ → Cartridge → Cartridge
detected h size c = record c {
  has_sa1 = is_sa1 h || c.has_sa1;
  type = if is_sa1 h then sa1 else c.type;
  has_sharprtc = is_sharprtc h || c.has_sharprtc;
  has_sdd1 = is_sdd1 h || c.has_sdd1;
  has_spc7110 = is_spc7110 h || c.has_spc7110;
  has_epsonrtc = if is_spc7110 h then h.rom_type == 0xf9 else c.has_epsonrtc;
  has_cx4 = is_cx4 h || c.has_cx4;
  has_dsp2 = is_dsp2 h || c.has_dsp2;
  has_dsp3 = is_dsp3 h || c.has_dsp3;
  has_dsp4 = is_dsp4 h || c.has_dsp4;
  has_obc1 = is_obc1 h || c.has_obc1;
  has_st010 = is_st010 h || c.has_st010;
  has_st011 = is_st011 h || c.has_st011;
  has_st018 = is_st018 h || c.has_st018;
  has_dsp1 = found_dsp1 h c.has_dsp1;
  dsp1_type =
      if found_dsp1 h c.has_dsp1 then choose_dsp1 h.mapper_id size c.dsp1_type else c.dsp1_type;
}

pub detect_chips-eq :
    (h : Header) (size : ℕ) (c : Cartridge) → detect_chips h size c ≡ detected h size c
unfolding detect_chips
detect_chips-eq h size c =
    rw
      (
        detect_chips,
        sa1-eq h,
        sharprtc-eq h,
        sdd1-eq h,
        spc7110-eq h,
        cx4-eq h,
        dsp1-eq h,
        dsp1_type-eq h size,
        dsp2-eq h,
        dsp3-eq h,
        dsp4-eq h,
        obc1-eq h,
        st010-eq h,
        st011-eq h,
        st018-eq h,
      )
      refl
