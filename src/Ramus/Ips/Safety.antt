-- ===== src/Ramus/Ips/Safety.antt =====
-- ramus/patch/ips.hpp: `modify` and then `apply`, on patches without truncation.
use mercurial_magic.Prelude.{
  ℕ, zero, suc, ◌+◌, ◌-◌, ◌≤◌, ◌<◌, ◌≡◌, refl, ◌∙◌, max, List, [], ◌∷◌, length, arith, Run, ok,
  Ends-cases, u32, ◌==◌, Bool, true, false, inl, inr, All, IsByte, ltb, ltb-false→le, ltb-of_le,
  Bool-cases, ◌⊎◌, >>=-eq-ok,
}
use mercurial_magic.Ramus.Memory.{copy}
use mercurial_magic.Ramus.Memory.Laws.{copy-fits, fill-fits, fetch-lt}
use mercurial_magic.Ramus.Ips.{
  IpsPatch, Block, eof, rle, plain, Result, success, patch_invalid_header, read8, read_block,
  read_header, scan, patch_loop, modify, source, target, apply, size, accept,
}
use mercurial_magic.Ramus.Ips.Blocks.{read_block-Ends}

module _ (bytes : List ℕ) (octets : All IsByte bytes)
    (short : length bytes + 65536 < 4294967296) where
  -- The rounds of `scan`.
  scan_round :
      (fuel o : ℕ) (size : ℕ) (b : Block) (r : Run (ℕ × ℕ))
      → ltb o (length bytes) ≡ true
      → read_block bytes o ≡ ok b
      → scan (suc fuel) bytes o size ≡ r
      → (elim b [
        | eof o' ↦ ok (o', size)
        | rle addr n o' ↦ scan fuel bytes (u32 (o' + 1)) (max size (addr + n))
        | plain addr n o' ↦ scan fuel bytes (u32 (o' + n)) (max size (addr + n))
      ])
        ≡ r
  unfolding scan
  scan_round fuel o size b r t e h = rw (t, e) at h

  scan-grows :
      (fuel o size : ℕ) {o' size' : ℕ}
      → scan fuel bytes o size ≡ ok (o', size')
      → o < 4294967296
      → (o ≤ o') × (size ≤ size') × (o' < 4294967296)
  unfolding scan
  scan-grows zero o size h small = cc
  scan-grows (suc fuel) o size {o'} {size'} h small = elim (Bool-cases (ltb o (length bytes))) [
    | inr done ↦ ground arith
    | inl more ↦
        elim (Ends-cases (read_block bytes o) (read_block-Ends bytes octets (omega arith) o)) [
          | inr e ↦ let bad = rw (more, e) at h in cc bad
          | inl (eof o₁, e, head) ↦
              let done = scan_round fuel o size (eof o₁) _ more e h in ground arith
          | inl (rle addr n o₁, e, head) ↦ omega (
            arith,
            scan-grows fuel (u32 (o₁ + 1)) (max size (addr + n))
                (scan_round fuel o size (rle addr n o₁) _ more e h) (omega arith),
          )
          | inl (plain addr n o₁, e, head) ↦ omega (
            arith,
            scan-grows fuel (u32 (o₁ + n)) (max size (addr + n))
                (scan_round fuel o size (plain addr n o₁) _ more e h) (omega arith),
          )
        ]
  ]

  read8-lt : (o : ℕ) → o < length bytes → (x : ℕ) × (read8 bytes o ≡ ok (x, o + 1))
  unfolding read8
  read8-lt o h =
      let (x, e) = fetch-lt bytes o h in
      let next : u32 (o + 1) ≡ o + 1 = omega arith in (x, rw (e, next) refl)

  -- A round of the loop of `apply` on a block of bytes.
  plain_round :
      (fuel o addr n o₁ : ℕ) (target t t' : List ℕ)
      → ltb o (length bytes) ≡ true
      → read_block bytes o ≡ ok (plain addr n o₁)
      → copy n bytes o₁ target addr ≡ ok t
      → o₁ + n < 4294967296
      → patch_loop fuel bytes (o₁ + n) t ≡ ok t'
      → patch_loop (suc fuel) bytes o target ≡ ok t'
  unfolding patch_loop
  plain_round fuel o addr n o₁ target t t' more e done small rest =
      let next : u32 (o₁ + n) ≡ o₁ + n = omega arith in rw (more, e, done, next) rest

  -- Where the scan ends inside the patch, and below the target's size, the loop of `apply` makes
  -- the same rounds and stays inside both buffers.
  patch_loop-fits :
      (fuel o size : ℕ) (target : List ℕ) {o' size' : ℕ}
      → scan fuel bytes o size ≡ ok (o', size')
      → o' ≤ length bytes
      → size' ≤ length target
      → (t : List ℕ) × (patch_loop fuel bytes o target ≡ ok t) × (length t ≡ length target)
  unfolding patch_loop scan
  patch_loop-fits zero o size target h inside room = cc
  patch_loop-fits (suc fuel) o size target {o'} {size'} h inside room =
      elim (Bool-cases (ltb o (length bytes))) [
        | inr done ↦ (target, rw done refl, refl)
        | inl more ↦
            elim (Ends-cases (read_block bytes o) (read_block-Ends bytes octets (omega arith) o)) [
              | inr e ↦ let bad = rw (more, e) at h in cc bad
              | inl (eof o₁, e, head) ↦ (target, rw (more, e) refl, refl)
              | inl (rle addr n o₁, e, head) ↦
                  let round = scan_round fuel o size (rle addr n o₁) _ more e h in
                  let grown =
                    scan-grows fuel (u32 (o₁ + 1)) (max size (addr + n)) round (omega arith) in
                  let next : u32 (o₁ + 1) ≡ o₁ + 1 = omega arith in
                  let (x, value) = read8-lt o₁ (omega arith) in
                  let (t, filled, same) = fill-fits n x target addr (omega arith) in
                  let (t', rest, same') =
                    patch_loop-fits fuel (o₁ + 1) (max size (addr + n)) t (rw next at round) inside
                      (omega arith) in
                  (t', rw (more, e, value, filled) rest, same' ∙ same)
              | inl (plain addr n o₁, e, head) ↦
                  let round = scan_round fuel o size (plain addr n o₁) _ more e h in
                  let grown =
                    scan-grows fuel (u32 (o₁ + n)) (max size (addr + n)) round (omega arith) in
                  let next : u32 (o₁ + n) ≡ o₁ + n = omega arith in
                  let (t, done, same) =
                    copy-fits n bytes o₁ target addr (omega arith) (omega arith) in
                  let (t', rest, same') =
                    patch_loop-fits fuel (o₁ + n) (max size (addr + n)) t (rw next at round) inside
                      (omega arith) in
                  (
                    t',
                    plain_round fuel o addr n o₁ target t t' more e done (omega arith) rest,
                    same' ∙ same,
                  )
            ]
      ]

  -- A header inside the patch is read, and if it is the right one the offset is behind it.
  read_header-fits :
      (ks : List ℕ) (o : ℕ)
      → o + length ks ≤ length bytes
      → (valid : Bool) × (o' : ℕ) × (read_header ks bytes o ≡ ok (valid, o'))
        × (valid ≡ true → o' ≡ o + length ks)
  unfolding read_header
  read_header-fits [] o h = (true, o, refl, λ _. omega arith)
  read_header-fits (k ∷ ks) o h =
      let (x, e) = read8-lt o (omega arith) in
      let (valid, o', rest, at) = read_header-fits ks (o + 1) (omega arith) in
      elim (Bool-cases (x == k)) [
        | inl same ↦ (valid, o', rw (e, same) rest, λ v. omega (arith, at v))
        | inr other ↦ (false, o + 1, rw (e, other) refl, λ v. cc v)
      ]

-- What `modify` returns for a patch without a truncation.
accept_plain :
    (p p₁ : IpsPatch) (bytes : List ℕ) (o s : ℕ)
    → accept p bytes o s ≡ ok (true, p₁)
    → p₁.truncate ≡ false
    → (u32 (length bytes + 4294967296 - o) ≡ 0)
      × (p₁ ≡ record p { modify_data = bytes; modify_target_size = s; truncate = false })
unfolding accept
accept_plain p p₁ bytes o s h whole = ground arith

modify_plain :
    (p p₁ : IpsPatch) (bytes : List ℕ)
    → modify p bytes ≡ ok (true, p₁)
    → p₁.truncate ≡ false
    → (o : ℕ) × (s : ℕ) × (scan (suc (length bytes)) bytes 5 0 ≡ ok (o, s))
      × (u32 (length bytes + 4294967296 - o) ≡ 0)
      × (8 ≤ length bytes)
      × (p₁ ≡ record p { modify_data = bytes; modify_target_size = s; truncate = false })
unfolding modify
modify_plain p p₁ bytes h whole = elim (Bool-cases (ltb (length bytes) 8)) [
  | inl small ↦ let bad = rw small at h in cc bad
  | inr long ↦
      let (r, scanned, accepted) =
        >>=-eq-ok (scan (suc (length bytes)) bytes 5 0) (λ r. accept p bytes r.0 r.1)
          (rw long at h) in
      let (left, shape) = accept_plain p p₁ bytes r.0 r.1 accepted whole in
      (r.0, r.1, scanned, left, ltb-false→le (length bytes) 8 long, shape)
]

-- What `apply` returns when nothing goes wrong: success or a refused header, and the same length.
abbrev pub IsSafe : List ℕ → Run (Result × IpsPatch) → Type 0
IsSafe buffer run =
    (r : Result) × (p : IpsPatch) × (run ≡ ok (r, p))
    × ((r ≡ success) ⊎ (r ≡ patch_invalid_header))
    × (length p.target_data ≡ length buffer)

apply-fits :
    (q : IpsPatch) (o s : ℕ)
    → All IsByte q.modify_data
    → length q.modify_data + 65536 < 4294967296
    → 8 ≤ length q.modify_data
    → scan (suc (length q.modify_data)) q.modify_data 5 0 ≡ ok (o, s)
    → o ≤ length q.modify_data
    → s ≤ length q.target_data
    → length q.source_data ≤ length q.target_data
    → q.modify_target_size ≤ length q.target_data
    → IsSafe q.target_data (apply q)
unfolding apply
apply-fits q o s octets short long scanned inside fits source_fits size_fits =
    let magic : List ℕ = b'P' ∷ b'A' ∷ b'T' ∷ b'C' ∷ b'H' ∷ [] in
    let bytes = q.modify_data in
    let (valid, o', header, at) = read_header-fits bytes octets short magic 0 (omega arith) in
    let (copied, copy_done, same) =
      copy-fits (length q.source_data) q.source_data 0 q.target_data 0 (omega arith)
        (omega arith) in
    let (t, patched, same') =
      patch_loop-fits bytes octets short (suc (length bytes)) 5 0 copied scanned inside
        (omega arith) in
    let go = ltb-of_le (length bytes) 8 long in
    elim (Bool-cases valid) [
      | inr v ↦ (patch_invalid_header, q, rw (go, header, v) refl, inr refl, refl)
      | inl v ↦ (
        success,
        record q { target_data = t },
        rw
            (
              go,
              header,
              v,
              ltb-of_le (length q.target_data) q.modify_target_size size_fits,
              copy_done,
              at v,
              patched,
            )
            refl,
        inl refl,
        same' ∙ same,
      )
    ]

-- A patch without truncation, of fewer than 2^32 - 65536 bytes, that `modify` accepts, applied to a target buffer that is as large as
-- `size` asks for: whatever the patch's bytes are, `apply` returns, with success or because of the
-- header, and no access has been outside a buffer; the target keeps its length.
pub apply-modify_fits :
    (p p₁ : IpsPatch) (bytes from buffer : List ℕ)
    → All IsByte bytes
    → length bytes + 65536 < 4294967296
    → modify p bytes ≡ ok (true, p₁)
    → p₁.truncate ≡ false
    → size (source p₁ from) ≤ length buffer
    → IsSafe buffer (apply (target (source p₁ from) buffer))
unfolding size source target
apply-modify_fits p p₁ bytes from buffer octets short modified whole room =
    let (o, s, scanned, left, long, shape) = modify_plain p p₁ bytes modified whole in
    let bounded = scan-grows bytes octets short (suc (length bytes)) 5 0 scanned (omega arith) in
    let enough : max s (length from) ≤ length buffer = rw shape at room in
    rw shape
      (apply-fits _ o s octets short long scanned (omega arith) (omega arith) (omega arith) enough)
