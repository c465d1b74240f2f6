-- ===== src/Daedalus/SuperFamicom/Described.antt =====
-- daedalus/heuristics/super-famicom.cpp: what the constructor makes of any image.
use mercurial_magic.Prelude.{
  ℕ, zero, suc, ◌+◌, ◌-◌, ◌%◌, ◌≤◌, ◌≡◌, ◌≢◌, ◌↔◌, ◌⊎◌, refl, ap, sym, ◌∙◌, inl, inr, Bool, true,
  false, ◌==◌, if◌then◌else◌, Bool-cases, Option, none, some, List, [], ◌∷◌, ◌++◌, length, drop,
  Text, codes, ltb, ltb-false→le, length-drop, Safe, safe, Safe-bind, Safe-if, arith, ==_iff,
}
use mercurial_magic.Daedalus.Cartridge.{
  Cartridge, blank_cartridge, dsp1_none, is, ordinal, Region, ntsc, pal,
}
use mercurial_magic.Daedalus.Chips.Table.{
  Chip, flag, chip_superfx, chip_sa1, chip_sharprtc, chip_sdd1, chip_spc7110, chip_cx4, chip_dsp1,
  chip_dsp2, chip_dsp3, chip_dsp4, chip_obc1, chip_st010, chip_st011, chip_st018,
}
use mercurial_magic.Daedalus.Chips.One.{IsRead}
use mercurial_magic.Daedalus.Boards.{board}
use mercurial_magic.Daedalus.Header.Safety.{read_header-Safe}
use mercurial_magic.Daedalus.SuperFamicom.{
  need_firmware, detect_firmware, details, is_invalid, describe, region_text, address_range,
  extra_sections, has_copier_header, read_image, super_famicom_cartridge,
}

abbrev pub region_name : Region → Text
region_name ntsc = codes "NTSC"
region_name pal = codes "PAL"

region_text_lem : (r : Region) → region_text r ≡ region_name r
unfolding region_text
region_text_lem ntsc = refl
region_text_lem pal = refl

-- The markup is empty for an invalid type, and else starts with the cartridge and its region.
abbrev pub Marked : Cartridge → Type 0
Marked c =
    ((is_invalid c ≡ true) × (c.markup ≡ []))
    ⊎ ((is_invalid c ≡ false)
        × (rest : Text) × (c.markup ≡ codes "cartridge region=" ++ (region_name c.region ++ rest)))

pub record IsDescribed (c : Cartridge) : Type 0 where
  pub marked : Marked c
  pub chip : (one : Option Chip) × ((k : Chip) → (flag k c ≡ true) ↔ (one ≡ some k))
  pub clock : c.has_epsonrtc ≡ true → c.has_spc7110 ≡ true
  pub dsp1 : c.has_dsp1 ≡ true → c.dsp1_type ≢ dsp1_none
  pub small_ram : c.ram_size ≤ 0x20000

drop_front {ℓ} :
    {A : Type ℓ} (front rest : List A) (n : ℕ) → length front ≡ n → drop n (front ++ rest) ≡ rest
drop_front [] rest zero e = refl
drop_front [] rest (suc n) e = absurd (omega arith)
drop_front (x ∷ front) rest zero e = absurd (omega arith)
drop_front (x ∷ front) rest (suc n) e = drop_front front rest n (omega arith)

-- The firmware changes two fields.
data Relabels (c : Cartridge) : Cartridge → Type 0 where
  relabels :
      (size : ℕ) (missing : Text)
      → Relabels c (record c { firmware_size = size; firmware_missing = missing })

-- Another test for a firmware leaves a relabelled cartridge.
need_firmware-Relabels :
    (a b : Cartridge) (needed : Bool) (size modulus want : ℕ) (chip : Text)
    → Relabels a b
    → Relabels a (need_firmware needed size modulus want chip b)
unfolding need_firmware
need_firmware-Relabels a b false size modulus want chip h = h
need_firmware-Relabels a b true size modulus want chip (relabels old missing) =
    elim (Bool-cases (size % modulus == want)) [
      | inl found ↦ rw found (relabels want missing)
      | inr absent ↦ rw absent (relabels old chip)
    ]

detect_firmware-Relabels : (size : ℕ) (c : Cartridge) → Relabels c (detect_firmware size c)
unfolding detect_firmware
detect_firmware-Relabels size c =
    let more = need_firmware-Relabels c in
    more _ _ _ _ _ _ (
      more _ _ _ _ _ _ (
        more _ _ _ _ _ _ (
          more _ _ _ _ _ _ (
            more _ _ _ _ _ _ (
              more _ _ _ _ _ _ (
                more _ _ _ _ _ _ (
                  more _ _ _ _ _ _ (
                    more _ _ _ _ _ _
                      (more _ _ _ _ _ _ (relabels c.firmware_size c.firmware_missing))))))))))

relabel_flag :
    (k : Chip) (c : Cartridge) (size : ℕ) (missing markup : Text)
    → flag k (record c { firmware_size = size; firmware_missing = missing; markup = markup })
      ≡ flag k c
relabel_flag chip_superfx c size missing markup = refl
relabel_flag chip_sa1 c size missing markup = refl
relabel_flag chip_sharprtc c size missing markup = refl
relabel_flag chip_sdd1 c size missing markup = refl
relabel_flag chip_spc7110 c size missing markup = refl
relabel_flag chip_cx4 c size missing markup = refl
relabel_flag chip_dsp1 c size missing markup = refl
relabel_flag chip_dsp2 c size missing markup = refl
relabel_flag chip_dsp3 c size missing markup = refl
relabel_flag chip_dsp4 c size missing markup = refl
relabel_flag chip_obc1 c size missing markup = refl
relabel_flag chip_st010 c size missing markup = refl
relabel_flag chip_st011 c size missing markup = refl
relabel_flag chip_st018 c size missing markup = refl

-- `describe` with its firmware known.
describe_valid :
    (size : ℕ) (c firm : Cartridge) (rest more : Text)
    → rest ≡ region_name firm.region ++ more
    → is_invalid c ≡ false
    → IsRead size c
    → Relabels c firm
    → IsDescribed (record firm { markup = c.markup ++ (codes "cartridge region=" ++ rest) })
unfolding is_invalid is
describe_valid size c firm rest more e valid r (relabels firmware missing) = record {
  marked = inr (valid, more, rw (r.no_markup, e) refl);
  chip = (
    r.chip.0,
    λ k.
        let same =
          relabel_flag k c firmware missing (c.markup ++ (codes "cartridge region=" ++ rest)) in
        (λ on. (r.chip.1 k).0 (sym same ∙ on), λ one. same ∙ (r.chip.1 k).1 one),
  );
  clock = r.clock;
  dsp1 = r.dsp1;
  small_ram = r.small_ram;
}

IsRead-IsDescribed :
    (size : ℕ) (c : Cartridge) → is_invalid c ≡ true → IsRead size c → IsDescribed c
IsRead-IsDescribed size c invalid r = record {
  marked = inl (invalid, r.no_markup);
  chip = r.chip;
  clock = r.clock;
  dsp1 = r.dsp1;
  small_ram = r.small_ram;
}

blank_flag : (k : Chip) → flag k blank_cartridge ≡ false
blank_flag chip_superfx = refl
blank_flag chip_sa1 = refl
blank_flag chip_sharprtc = refl
blank_flag chip_sdd1 = refl
blank_flag chip_spc7110 = refl
blank_flag chip_cx4 = refl
blank_flag chip_dsp1 = refl
blank_flag chip_dsp2 = refl
blank_flag chip_dsp3 = refl
blank_flag chip_dsp4 = refl
blank_flag chip_obc1 = refl
blank_flag chip_st010 = refl
blank_flag chip_st011 = refl
blank_flag chip_st018 = refl

blank-IsDescribed : IsDescribed blank_cartridge
unfolding is_invalid is ordinal
blank-IsDescribed = record {
  marked = inl (refl, refl);
  chip = (none, λ k. (λ e. let off = blank_flag k in cc (e, off), λ e. cc e));
  clock = λ e. cc e;
  dsp1 = λ e. cc e;
  small_ram = omega arith;
}

module _ (hex : ℕ → Text) (has_msu1 : Bool) where
  details-region :
      (c : Cartridge) → (more : Text) × (details hex has_msu1 c ≡ region_name c.region ++ more)
  unfolding details
  details-region c =
      let more : Text =
        codes "\n" ++ (board hex (address_range c) c ++ (extra_sections has_msu1 c ++ [])) in
      (more, ap (λ (text : Text). text ++ more) (region_text_lem c.region))

  IsDescribed-if :
      (size : ℕ) (c : Cartridge)
      → IsRead size c
      → IsDescribed (if is_invalid c then c else describe hex size has_msu1 c)
  unfolding describe
  IsDescribed-if size c r = elim (Bool-cases (is_invalid c)) [
    | inl invalid ↦ rw invalid (IsRead-IsDescribed size c invalid r)
    | inr valid ↦ rw valid (
        let (more, e) = details-region (detect_firmware size c) in
        describe_valid size c _ (details hex has_msu1 (detect_firmware size c)) more e valid r
          (detect_firmware-Relabels size c))
  ]

  read_image-Safe :
      (image : List ℕ) (size : ℕ)
      → size ≤ length image
      → Safe IsDescribed (read_image hex image size has_msu1)
  unfolding read_image
  read_image-Safe image size fits =
      Safe-if (ltb size 0x8000) _ _ (λ _. safe _ blank-IsDescribed)
        (λ large.
          let enough = ltb-false→le size 0x8000 large in
          Safe-bind _ _ (read_header-Safe image size fits enough)
            (λ c r. safe _ (IsDescribed-if size c r)))

  -- For every image of at least the given size, the constructor reads only inside the image and
  -- returns. Of the chips of `Chip` it flags one at most, a DSP-1 with its kind, and Epson's clock
  -- only beside an SPC7110; the RAM has 128 KiB at most; and the markup is empty for an invalid type,
  -- and else begins with `cartridge region=` and the name of the cartridge's region.
  pub super_famicom_cartridge-Safe :
      (image : List ℕ) (size : ℕ)
      → size ≤ length image
      → Safe IsDescribed (super_famicom_cartridge hex image size has_msu1)
  unfolding super_famicom_cartridge
  super_famicom_cartridge-Safe image size fits =
      Safe-if (has_copier_header size) _ _
        (λ _. read_image-Safe (drop 512 image) (size - 512) (omega (arith, length-drop 512 image)))
        (λ _. read_image-Safe image size fits)

  -- 512 bytes of a copier in front of an image whose size is a multiple of 32 KiB change nothing
  -- of what the constructor returns.
  pub super_famicom_cartridge-append :
      (header image : List ℕ) (size : ℕ)
      → length header ≡ 512
      → size % 0x8000 ≡ 0
      → super_famicom_cartridge hex (header ++ image) (size + 512) has_msu1
        ≡ super_famicom_cartridge hex image size has_msu1
  unfolding super_famicom_cartridge has_copier_header
  super_famicom_cartridge-append header image size enough whole =
      let with : ((size + 512) % 0x8000 == 512) ≡ true = (==_iff _ 512).1 (omega arith) in
      let without : (size % 0x8000 == 512) ≡ false = ground arith in
      let back : size + 512 - 512 ≡ size = omega arith in
      rw (with, without, back, drop_front header image 512 enough) refl
