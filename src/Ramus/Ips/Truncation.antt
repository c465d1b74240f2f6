-- ===== src/Ramus/Ips/Truncation.antt =====
-- ramus/patch/ips.hpp: `apply` on a patch that truncates, and a source longer than that.
use mercurial_magic.Prelude.{
  ℕ, zero, suc, ◌+◌, ◌≤◌, ◌<◌, ◌≡◌, refl, List, ◌∷◌, length, arith, fault, ok, ltb, ltb→lt,
  ltb-of_le, ltb-false→le, Bool-cases, inl, inr, true, replicate, length-replicate, length-set,
  >>=-eq-ok, set,
}
use mercurial_magic.Ramus.Memory.{fetch, store, copy}
use mercurial_magic.Ramus.Memory.Laws.{fetch-lt}
use mercurial_magic.Ramus.Ips.{
  IpsPatch, read8, read_header, scan, accept, modify, source, target, target_file, apply,
}

-- A copy past the end of the target faults.
copy_overrun :
    (n : ℕ) (from target : List ℕ) (i j : ℕ)
    → i + n ≤ length from
    → j ≤ length target
    → length target < j + n
    → copy n from i target j ≡ fault
unfolding copy store
copy_overrun zero from target i j hs hj h = absurd (omega arith)
copy_overrun (suc n) from target i j hs hj h =
    let (x, e) = fetch-lt from i (omega arith) in
    elim (Bool-cases (ltb j (length target))) [
      | inl inside ↦
          let lt = ltb→lt j (length target) inside in
          rw (e, inside)
            (copy_overrun n from (set target j x) (i + 1) (j + 1) (omega arith)
              (omega (arith, length-set target j x)) (omega (arith, length-set target j x)))
      | inr outside ↦ rw (e, outside) refl
    ]

accept-modify_data :
    (p p₁ : IpsPatch) (bytes : List ℕ) (o s : ℕ)
    → accept p bytes o s ≡ ok (true, p₁)
    → p₁.modify_data ≡ bytes
unfolding accept
accept-modify_data p p₁ bytes o s h = ground arith

modify-modify_data :
    (p p₁ : IpsPatch) (bytes : List ℕ)
    → modify p bytes ≡ ok (true, p₁)
    → (p₁.modify_data ≡ bytes) × (8 ≤ length bytes)
unfolding modify
modify-modify_data p p₁ bytes h = elim (Bool-cases (ltb (length bytes) 8)) [
  | inl small ↦ let bad = rw small at h in cc bad
  | inr long ↦
      let (r, scanned, accepted) =
        >>=-eq-ok (scan (suc (length bytes)) bytes 5 0) (λ r. accept p bytes r.0 r.1)
          (rw long at h) in
      (accept-modify_data p p₁ bytes r.0 r.1 accepted, ltb-false→le (length bytes) 8 long)
]

-- `apply` copies the whole source before it looks at the patch, so a target file of the truncated
-- size is overrun: for every patch that starts with PATCH and that `modify` accepts with a
-- truncation to fewer bytes than the source has, on the target file that the object itself
-- creates, `apply` writes outside the target.
pub truncation_overruns :
    (p p₁ : IpsPatch) (rest from : List ℕ)
    → modify p (b'P' ∷ b'A' ∷ b'T' ∷ b'C' ∷ b'H' ∷ rest) ≡ ok (true, p₁)
    → p₁.truncate ≡ true
    → p₁.modify_target_size < length from
    → apply (target_file (source p₁ from) true true).1 ≡ fault
unfolding apply source target_file target read_header read8 fetch
truncation_overruns p p₁ rest from modified cut longer =
    let (same, long) = modify-modify_data p p₁ _ modified in
    let n = p₁.modify_target_size in
    let buffer : List ℕ = replicate n 0 in
    let all : length buffer ≡ n = length-replicate n 0 in
    rw
      (
        same,
        ltb-of_le (suc (suc (suc (suc (suc (length rest)))))) 8 long,
        cut,
        ltb-of_le (length buffer) n (omega arith),
        copy_overrun (length from) from buffer 0 0 (omega arith) (omega arith) (omega arith),
      )
      refl
