-- ===== src/Daedalus/Header/Reads.antt =====
-- daedalus/heuristics/super-famicom.cpp: the tests of readHeader read inside the image.
use mercurial_magic.Prelude.{
  ℕ, suc, ◌+◌, ◌-◌, ◌≤◌, ◌<◌, ◌≡◌, refl, true, false, ◌||◌, ◌==◌, List, [], ◌∷◌, length,
  Defined-bind, Defined-if, Defined-ok, Safe, safe, Defined, Safe-bind, Safe-if, arith,
}
use mercurial_magic.Daedalus.Cartridge.{same_memory}
use mercurial_magic.Daedalus.Chips.{Header}
use mercurial_magic.Daedalus.Score.Range.{fetch-Safe, word_at-Safe}
use mercurial_magic.Daedalus.Header.{
  game_boy_logo, is_game_boy, read_fields, is_satellaview_type, is_satellaview, is_alphanumeric,
  has_connector,
}

pub same_memory-Safe :
    (image : List ℕ) (at : ℕ) (bytes : List ℕ)
    → at + length bytes ≤ length image
    → Defined (same_memory image at bytes)
unfolding same_memory
same_memory-Safe image at [] h = safe true tt
same_memory-Safe image at (b ∷ bytes) h = Safe-bind _ _ (fetch-Safe image at (omega arith)) (λ x _.
    Safe-bind _ _ (same_memory-Safe image (suc at) bytes (omega arith)) (λ rest _. safe _ tt))

module _ (image : List ℕ) where
  pub is_game_boy-Safe : (size : ℕ) → size ≤ length image → Defined (is_game_boy image size)
  unfolding is_game_boy
  is_game_boy-Safe size fits =
      Safe-if _ _ _ (λ large. same_memory-Safe image 0x104 game_boy_logo (ground arith))
        (λ _. safe false tt)

  pub read_fields-Safe :
      (index : ℕ)
      → index + 64 ≤ length image
      → Safe (λ h. h.index ≡ index) (read_fields image index)
  unfolding read_fields
  read_fields-Safe index inside =
      let byte = fetch-Safe image in
      Safe-bind _ _ (byte _ (omega arith)) (λ mapper_id _.
        Safe-bind _ _ (byte _ (omega arith)) (λ rom_type _.
          Safe-bind _ _ (byte _ (omega arith)) (λ rom_size _.
            Safe-bind _ _ (byte _ (omega arith)) (λ company _.
              Safe-bind _ _ (byte _ (omega arith)) (λ region _.
                Safe-bind _ _ (word_at-Safe image _ (omega arith)) (λ complement _.
                  Safe-bind _ _ (word_at-Safe image _ (omega arith))
                    (λ checksum _. safe _ refl)))))))

  pub is_satellaview-Safe :
      (index : ℕ) → index + 64 ≤ length image → Defined (is_satellaview image index)
  unfolding is_satellaview
  is_satellaview-Safe index inside =
      let byte = λ (i : ℕ) (small : i < 64). fetch-Safe image (index + i) (omega arith) in
      Defined-bind _ _ (byte 0x13 (omega arith)) (λ n13.
        Defined-if (n13 == 0x00 || n13 == 0xff) _ _
          (Defined-bind _ _ (byte 0x14 (omega arith)) (λ n14.
            Defined-if (n14 == 0x00) _ _
              (Defined-bind _ _ (byte 0x15 (omega arith)) (λ n15.
                Defined-if (is_satellaview_type n15) _ _
                  (Defined-bind _ _ (byte 0x1a (omega arith)) (λ n1a. Defined-ok _))
                  (Defined-ok false)))
              (Defined-ok false)))
          (Defined-ok false))

  pub has_connector-Safe :
      (h : Header) → h.index + 64 ≤ length image → Defined (has_connector image h)
  unfolding has_connector
  has_connector-Safe h inside =
      let byte = λ (i : ℕ). fetch-Safe image (h.index - i) (omega arith) in
      Defined-bind _ _ (byte 14) (λ n14.
        Defined-if (n14 == 0x5a) _ _
          (Defined-bind _ _ (byte 11) (λ n11.
            Defined-if (n11 == 0x4a) _ _
              (Defined-bind _ _ (byte 13) (λ n13.
                Defined-if (is_alphanumeric n13) _ _
                  (Defined-if (h.company == 0x33) _ _ (Defined-ok true) (
                    Defined-bind _ _ (byte 10)
                      (λ n10. Defined-bind _ _ (byte 4) (λ n4. Defined-ok _))))
                  (Defined-ok false)))
              (Defined-ok false)))
          (Defined-ok false))
