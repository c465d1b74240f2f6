-- ===== src/Daedalus/SuperFamicom/Bare.antt =====
-- daedalus/heuristics/super-famicom.cpp: the cartridges whose markup names no board.
use mercurial_magic.Prelude.{ℕ, ◌≡◌, ◌↔◌, ◌⊎◌, refl, inl, inr, false, [], Text}
use mercurial_magic.Daedalus.Cartridge.{
  Cartridge, CartType, is, ordinal, satellaview_bios, sufami_turbo_bios, super_game_boy_1_bios,
  super_game_boy_2_bios, lo_rom, hi_rom, ex_lo_rom, ex_hi_rom, super_fx, sa1, lo_rom_satellaview,
  hi_rom_satellaview, campus_challenge_92, powerfest_94, unknown, game_boy, satellaview,
  sufami_turbo,
}
use mercurial_magic.Daedalus.Boards.{board}
use mercurial_magic.Daedalus.Boards.Special.{
  satellaview_bios_board, sufami_turbo_bios_board, super_game_boy_1_bios_board,
  super_game_boy_2_bios_board,
}
use mercurial_magic.Daedalus.Boards.Standard.{
  lo_rom_board, hi_rom_board, ex_lo_rom_board, ex_hi_rom_board, super_fx_board, sa1_board,
  lo_rom_satellaview_board, hi_rom_satellaview_board,
}
use mercurial_magic.Daedalus.SuperFamicom.{is_invalid}

-- The cartridges of the two competitions.
abbrev pub IsCompetition : CartType → Type 0
IsCompetition t = (t ≡ campus_challenge_92) ⊎ (t ≡ powerfest_94)

board_of :
    (hex : ℕ → Text) (range : Text) (c : Cartridge) (t : CartType)
    → c.type ≡ t
    → is_invalid c ≡ false
    → c.has_cx4 ≡ false
    → c.has_spc7110 ≡ false
    → c.has_sdd1 ≡ false
    → (board hex range c ≡ []) ↔ IsCompetition t
unfolding board is ordinal is_invalid satellaview_bios_board sufami_turbo_bios_board
    super_game_boy_1_bios_board super_game_boy_2_bios_board lo_rom_board hi_rom_board
    ex_lo_rom_board ex_hi_rom_board super_fx_board sa1_board lo_rom_satellaview_board
    hi_rom_satellaview_board
board_of hex range c satellaview_bios e valid a b d = (
  λ h. let bad = rw (board, e) at h in cc bad,
  λ h. elim h [ inl same ↦ cc same | inr same ↦ cc same ],
)
board_of hex range c sufami_turbo_bios e valid a b d = (
  λ h. let bad = rw (board, e) at h in cc bad,
  λ h. elim h [ inl same ↦ cc same | inr same ↦ cc same ],
)
board_of hex range c super_game_boy_1_bios e valid a b d = (
  λ h. let bad = rw (board, e) at h in cc bad,
  λ h. elim h [ inl same ↦ cc same | inr same ↦ cc same ],
)
board_of hex range c super_game_boy_2_bios e valid a b d = (
  λ h. let bad = rw (board, e) at h in cc bad,
  λ h. elim h [ inl same ↦ cc same | inr same ↦ cc same ],
)
board_of hex range c lo_rom e valid a b d = (
  λ h. let bad = rw (board, e, a, b, d) at h in cc bad,
  λ h. elim h [ inl same ↦ cc same | inr same ↦ cc same ],
)
board_of hex range c hi_rom e valid a b d = (
  λ h. let bad = rw (board, e, a, b, d) at h in cc bad,
  λ h. elim h [ inl same ↦ cc same | inr same ↦ cc same ],
)
board_of hex range c ex_lo_rom e valid a b d = (
  λ h. let bad = rw (board, e, a, b, d) at h in cc bad,
  λ h. elim h [ inl same ↦ cc same | inr same ↦ cc same ],
)
board_of hex range c ex_hi_rom e valid a b d = (
  λ h. let bad = rw (board, e, a, b, d) at h in cc bad,
  λ h. elim h [ inl same ↦ cc same | inr same ↦ cc same ],
)
board_of hex range c super_fx e valid a b d = (
  λ h. let bad = rw (board, e, a, b, d) at h in cc bad,
  λ h. elim h [ inl same ↦ cc same | inr same ↦ cc same ],
)
board_of hex range c sa1 e valid a b d = (
  λ h. let bad = rw (board, e, a, b, d) at h in cc bad,
  λ h. elim h [ inl same ↦ cc same | inr same ↦ cc same ],
)
board_of hex range c lo_rom_satellaview e valid a b d = (
  λ h. let bad = rw (board, e, a, b, d) at h in cc bad,
  λ h. elim h [ inl same ↦ cc same | inr same ↦ cc same ],
)
board_of hex range c hi_rom_satellaview e valid a b d = (
  λ h. let bad = rw (board, e, a, b, d) at h in cc bad,
  λ h. elim h [ inl same ↦ cc same | inr same ↦ cc same ],
)
board_of hex range c campus_challenge_92 e valid a b d =
    (λ _. inl refl, λ _. rw (board, e, a, b, d) refl)
board_of hex range c powerfest_94 e valid a b d = (λ _. inr refl, λ _. rw (board, e, a, b, d) refl)
board_of hex range c unknown e valid a b d = let bad = rw (is_invalid, e) at valid in cc bad
board_of hex range c game_boy e valid a b d = let bad = rw (is_invalid, e) at valid in cc bad
board_of hex range c satellaview e valid a b d = let bad = rw (is_invalid, e) at valid in cc bad
board_of hex range c sufami_turbo e valid a b d = let bad = rw (is_invalid, e) at valid in cc bad

-- A cartridge of a valid type without a CX4, SPC7110 or S-DD1 gets a board in its markup unless it
-- is one of the two competition cartridges, which get none.
pub board-eq_nil_iff :
    (hex : ℕ → Text) (range : Text) (c : Cartridge)
    → is_invalid c ≡ false
    → c.has_cx4 ≡ false
    → c.has_spc7110 ≡ false
    → c.has_sdd1 ≡ false
    → (board hex range c ≡ []) ↔ IsCompetition c.type
board-eq_nil_iff hex range c = board_of hex range c c.type refl
