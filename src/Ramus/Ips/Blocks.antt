-- ===== src/Ramus/Ips/Blocks.antt =====
-- ramus/patch/ips.hpp: the reads of a block's head, in `modify` and `apply`.
use mercurial_magic.Prelude.{
  ℕ, zero, suc, ◌+◌, ◌*◌, ◌≤◌, ◌<◌, ◌≡◌, List, [], ◌∷◌, length, arith, ok, Ends, returns, faults,
  Ends-bind, Ends-weaken, Ends-if, u32, ◌==◌, true, false, inl, inr, All, IsByte, Ends-cases,
}
use mercurial_magic.Ramus.Memory.{fetch}
use mercurial_magic.Ramus.Memory.Laws.{fetch-Ends}
use mercurial_magic.Ramus.Ips.{
  read8, read16, read24, read_block, read_header, Block, eof, rle, plain,
}

-- Where the head of a block ends, for a head at `offset`; lengths have 16 bits.
abbrev pub IsHead : List ℕ → ℕ → Block → Type 0
IsHead bytes offset (eof o) = (o ≡ offset + 3) × (o ≤ length bytes)
IsHead bytes offset (rle addr n o) = (o ≡ offset + 7) × (o ≤ length bytes) × (n < 65536)
IsHead bytes offset (plain addr n o) = (o ≡ offset + 5) × (o ≤ length bytes) × (n < 65536)

fetch-IsByte : (bytes : List ℕ) (i : ℕ) {x : ℕ} → All IsByte bytes → fetch bytes i ≡ ok x → x < 256
unfolding fetch
fetch-IsByte [] i h e = cc
fetch-IsByte (b ∷ bs) zero h e = ground arith
fetch-IsByte (b ∷ bs) (suc i) h e = fetch-IsByte bs i h.1 e

module _ (bytes : List ℕ) (octets : All IsByte bytes) (short : length bytes < 4294967296) where
  -- A number below `bound` is read, and the offset moves by n inside the patch.
  abbrev pub Reads : ℕ → ℕ → ℕ → ℕ × ℕ → Type 0
  Reads bound offset n (x, offset') =
      (x < bound) × (offset' ≡ offset + n) × (offset' ≤ length bytes)

  pub read8-Ends : (o : ℕ) → Ends (Reads 256 o 1) (read8 bytes o)
  unfolding read8
  read8-Ends o = elim (Ends-cases (fetch bytes o) (fetch-Ends bytes o)) [
    | inl (x, e, h) ↦
        rw e (returns (x, u32 (o + 1)) (fetch-IsByte bytes o octets e, omega arith, omega arith))
    | inr e ↦ rw e faults
  ]

  read16-Ends : (o : ℕ) → Ends (Reads 65536 o 2) (read16 bytes o)
  unfolding read16
  read16-Ends o = Ends-bind _ _ (read8-Ends o) λ (a, o₁) h.
      Ends-bind _ _ (read8-Ends o₁) λ (b, o₂) k. returns (a * 256 + b, o₂) (omega arith)

  pub read24-Ends : (o : ℕ) → Ends (Reads 16777216 o 3) (read24 bytes o)
  unfolding read24
  read24-Ends o = Ends-bind _ _ (read8-Ends o) λ (a, o₁) h.
      Ends-bind _ _ (read16-Ends o₁) λ (b, o₂) k. returns (a * 65536 + b, o₂) (omega arith)

  pub read_block-Ends : (o : ℕ) → Ends (IsHead bytes o) (read_block bytes o)
  unfolding read_block
  read_block-Ends o = Ends-bind _ _ (read24-Ends o) λ (addr, o₁) h.
      Ends-if (addr == 0x454f46) _ _ (λ _. returns (eof o₁) (omega arith))
        (λ _. Ends-bind _ _ (read16-Ends o₁) λ (n, o₂) k.
          Ends-if (n == 0) _ _
            (λ _. Ends-bind _ _ (read16-Ends o₂) λ (m, o₃) l. returns (rle addr m o₃) (omega arith))
            (λ _. returns (plain addr n o₂) (omega arith)))

  pub read_header-Ends :
      (ks : List ℕ) (o : ℕ)
      → o ≤ length bytes
      → Ends (λ r. (o ≤ r.1) × (r.1 ≤ length bytes)) (read_header ks bytes o)
  unfolding read_header
  read_header-Ends [] o inside = returns (true, o) (omega arith)
  read_header-Ends (k ∷ ks) o inside = Ends-bind _ _ (read8-Ends o) λ (x, o') h.
      Ends-if (x == k) _ _ (λ _. Ends-weaken _ (λ r l. omega arith) (read_header-Ends ks o' h.2))
        (λ _. returns (false, o') (omega arith))
