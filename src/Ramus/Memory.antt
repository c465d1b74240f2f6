-- ===== src/Ramus/Memory.antt =====
-- Raw memory: a buffer is a list of bytes, and an access outside it is a fault. These are what
-- memory::copy and memory::fill of nall do, byte by byte.
pub mod Laws
use mercurial_magic.Prelude.{
  ℕ, zero, suc, ◌+◌, none, some, List, length, get_elem?, set, ltb, if◌then◌else◌, Run, ok, fault,
  ◌>>=◌,
}

unfoldable pub fetch : List ℕ → ℕ → Run ℕ
fetch bytes i = elim (get_elem? bytes i) [ none ↦ fault | some x ↦ ok x ]

unfoldable pub store : List ℕ → ℕ → ℕ → Run (List ℕ)
store bytes i x = if ltb i (length bytes) then ok (set bytes i x) else fault

-- `copy n source from target to`: n bytes, from `source + from` to `target + to`
unfoldable pub copy : ℕ → List ℕ → ℕ → List ℕ → ℕ → Run (List ℕ)
copy zero source from target to = ok target
copy (suc n) source from target to = do
  x ← fetch source from
  target' ← store target to x
  copy n source (from + 1) target' (to + 1)

-- `fill n value target to`: n bytes from `target + to` on
unfoldable pub fill : ℕ → ℕ → List ℕ → ℕ → Run (List ℕ)
fill zero value target to = ok target
fill (suc n) value target to = do target' ← store target to value; fill n value target' (to + 1)
