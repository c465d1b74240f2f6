-- ===== src/Ramus/Adler32.antt =====
-- ramus/hash/adler-32.hpp: the Adler-32 checksum, of which PNG files hold one.
pub mod Formula
use mercurial_magic.Prelude.{ℕ, ◌+◌, ◌*◌, ◌/◌, ◌%◌, List, [], ◌∷◌}

-- The two sums; `nallHash` gives a constructor that calls `reset`.
pub record Adler32 : Type 0 where
  pub a : ℕ
  pub b : ℕ

abbrev pub reset : Adler32
reset = record { a = 1; b = 0 }

unfoldable pub input : ℕ → Adler32 → Adler32
input value s = let a' = (s.a + value) % 65521 in record { a = a'; b = (s.b + a') % 65521 }

-- The bytes of a buffer, one after the other.
unfoldable pub input_bytes : List ℕ → Adler32 → Adler32
input_bytes [] s = s
input_bytes (x ∷ xs) s = input_bytes xs (input x s)

unfoldable pub output : Adler32 → List ℕ
output s = s.b / 256 ∷ s.b % 256 ∷ s.a / 256 ∷ s.a % 256 ∷ []

-- `b << 16 | a`, where `a` has 16 bits
unfoldable pub value : Adler32 → ℕ
value s = s.b * 65536 + s.a
