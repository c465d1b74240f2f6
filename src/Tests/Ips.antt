-- ===== src/Tests/Ips.antt =====
-- ramus/patch/ips.hpp on two small patches, one of which truncates.
use mercurial_magic.Prelude.{ℕ, ◌≡◌, refl, true, false, List, [], ◌∷◌, arith, ok, fault, replicate}
use mercurial_magic.Ramus.Memory.{fetch, store, copy, fill}
use mercurial_magic.Ramus.Ips.{
  IpsPatch, success, read8, read16, read24, read_block, scan, accept, modify, source, target,
  target_file, apply, size, read_header, patch_loop,
}
use mercurial_magic.Ramus.Ips.Safety.{IsSafe, apply-modify_fits}
use mercurial_magic.Ramus.Ips.Truncation.{truncation_overruns}

abbrev no_patch : IpsPatch
no_patch = record {
  modify_data = [];
  source_data = [];
  target_data = [];
  modify_target_size = 0;
  truncate = false;
}

-- The byte 7 at address 2, and a run of two nines at address 3.
abbrev plain_bytes : List ℕ
plain_bytes =
    b'P' ∷ b'A' ∷ b'T' ∷ b'C' ∷ b'H' ∷ 0 ∷ 0 ∷ 2 ∷ 0 ∷ 1 ∷ 7 ∷ 0 ∷ 0 ∷ 3 ∷ 0 ∷ 0 ∷ 0 ∷ 2 ∷ 9 ∷ b'E'
    ∷ b'O' ∷ b'F' ∷ []

abbrev cut_rest : List ℕ
cut_rest = 0 ∷ 0 ∷ 2 ∷ 0 ∷ 1 ∷ 7 ∷ b'E' ∷ b'O' ∷ b'F' ∷ 0 ∷ 0 ∷ 3 ∷ []

abbrev cut_bytes : List ℕ
cut_bytes = b'P' ∷ b'A' ∷ b'T' ∷ b'C' ∷ b'H' ∷ cut_rest

abbrev old_bytes : List ℕ
old_bytes = 1 ∷ 2 ∷ 3 ∷ 4 ∷ []

abbrev plain_patch : IpsPatch
plain_patch = record no_patch { modify_data = plain_bytes; modify_target_size = 5 }

abbrev cut_patch : IpsPatch
cut_patch = record no_patch { modify_data = cut_bytes; modify_target_size = 3; truncate = true }

modify-plain_bytes : modify no_patch plain_bytes ≡ ok (true, plain_patch)
unfolding modify scan accept read_block read24 read16 read8 fetch
modify-plain_bytes = refl

modify-cut_bytes : modify no_patch cut_bytes ≡ ok (true, cut_patch)
unfolding modify scan accept read_block read24 read16 read8 fetch
modify-cut_bytes = refl

apply-plain_patch :
    apply (target_file (source plain_patch old_bytes) true true).1
    ≡ ok (
      success,
      record plain_patch { source_data = old_bytes; target_data = 1 ∷ 2 ∷ 7 ∷ 9 ∷ 9 ∷ [] },
    )
unfolding apply target_file target source patch_loop read_header read_block read24 read16 read8
    fetch copy store fill
apply-plain_patch = refl

apply-modify_fits_example :
    IsSafe (replicate 5 0) (apply (target (source plain_patch old_bytes) (replicate 5 0)))
apply-modify_fits_example =
    apply-modify_fits no_patch plain_patch plain_bytes old_bytes (replicate 5 0) (ground arith)
      (omega arith) modify-plain_bytes refl (unfold size source in omega arith)

truncation_overruns_example : apply (target_file (source cut_patch old_bytes) true true).1 ≡ fault
truncation_overruns_example =
    truncation_overruns no_patch cut_patch cut_rest old_bytes modify-cut_bytes refl (omega arith)
