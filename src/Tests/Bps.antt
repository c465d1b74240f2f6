-- ===== src/Tests/Bps.antt =====
-- ramus/patch/bps-ignore-size.hpp on a small patch.
use mercurial_magic.Prelude.{
  ℕ, ◌≡◌, ◌≢◌, refl, true, List, [], ◌∷◌, ◌++◌, length, drop, replicate, arith, ok, stuck,
}
use mercurial_magic.Ramus.Bps.{BpsPatch, success, decode, no_crc}
use mercurial_magic.Ramus.Bps.Object.{little_endian, modify, apply, c_string}
use mercurial_magic.Ramus.Bps.Format.{
  from_source, literal, copy_source, copy_target, Patch, Patches, encode_patch, encode_body,
  encode_number, perform_all, encode_actions, encode_action, encode_rounds, encode_move, sizes,
  after_sizes, perform, repeat_from,
}
use mercurial_magic.Ramus.Bps.Number.{cursor_at, input_all, decode-encode_number}
use mercurial_magic.Ramus.Bps.Modify.{modify-encode_patch}
use mercurial_magic.Ramus.Bps.Workflow.{patch_file, patch_file-encode_patch}
use mercurial_magic.Ramus.Bps.Termination.{apply-ne-stuck, modify-ne-stuck}
use mercurial_magic.Tests.{byte_sum, blank}

abbrev pub sample : Patch
sample = record {
  source_size = 4;
  target_size = 6;
  markup = [];
  actions = from_source 2 ∷ literal (9 ∷ []) ∷ copy_source 1 2 ∷ copy_target 0 1 ∷ [];
  sums = 0 ∷ 0 ∷ 0 ∷ 0 ∷ 0 ∷ 0 ∷ 0 ∷ 0 ∷ [];
}

abbrev pub rom_bytes : List ℕ
rom_bytes = 11 ∷ 12 ∷ 13 ∷ 14 ∷ 15 ∷ 16 ∷ 17 ∷ 18 ∷ []

abbrev pub own_sum : List ℕ
own_sum = 185 ∷ 5 ∷ 0 ∷ 0 ∷ []

pub sample-Patches : Patches sample rom_bytes own_sum
unfolding encode_patch encode_body encode_actions encode_action encode_number encode_rounds
    encode_move sizes after_sizes perform_all perform repeat_from
sample-Patches = record {
  fits = omega arith;
  small = omega arith;
  enough = omega arith;
  within = (
    (omega arith, omega arith),
    (omega arith, ((omega arith, omega arith), ((omega arith, omega arith), tt))),
  );
  exact = refl;
  eight = refl;
  four = refl;
}

pub sample-sum :
    byte_sum.value (input_all byte_sum byte_sum.init (encode_body sample)) ≡ little_endian own_sum
unfolding encode_body encode_actions encode_action encode_number encode_rounds encode_move sizes
    after_sizes
sample-sum = refl

patch_file-encode_patch_example :
    (p' : BpsPatch) × (patch_file byte_sum blank (encode_patch sample own_sum) rom_bytes
      ≡ ok (success, p'))
    × (p'.target_data
        ≡ perform_all rom_bytes [] sample.actions
          ++ drop (length (perform_all rom_bytes [] sample.actions)) rom_bytes)
patch_file-encode_patch_example =
    patch_file-encode_patch byte_sum sample own_sum rom_bytes blank sample-Patches sample-sum

-- The output of the actions, as the numbers that it is.
perform_all_sample : perform_all rom_bytes [] sample.actions ≡ 11 ∷ 12 ∷ 9 ∷ 12 ∷ 13 ∷ 11 ∷ []
unfolding perform_all perform repeat_from
perform_all_sample = refl

modify-encode_patch_example :
    modify blank (encode_patch sample own_sum)
    ≡ ok (
      true,
      record blank {
        modify_data = encode_patch sample own_sum;
        modify_source_size = 4;
        modify_target_size = 6;
        modify_markup_size = 0;
        metadata_string = c_string [];
      },
    )
modify-encode_patch_example = modify-encode_patch sample own_sum sample-Patches blank

decode-encode_number_example :
    decode no_crc (b'B' ∷ (encode_number 70000 ++ replicate 8 0)) (cursor_at no_crc (b'B' ∷ []))
    ≡ ok (70000, cursor_at no_crc (b'B' ∷ encode_number 70000))
unfolding encode_number encode_rounds
decode-encode_number_example =
    decode-encode_number no_crc 70000 (b'B' ∷ []) (replicate 8 0) (omega arith) (omega arith)
      (omega arith)

-- Bytes that are no patch.
apply-ne-stuck_example : apply byte_sum (record blank { modify_data = replicate 30 1 }) ≢ stuck
apply-ne-stuck_example =
    apply-ne-stuck byte_sum (record blank { modify_data = replicate 30 1 }) (omega arith)

modify-ne-stuck_example : modify blank (replicate 30 1) ≢ stuck
modify-ne-stuck_example = modify-ne-stuck blank (replicate 30 1) (omega arith)
