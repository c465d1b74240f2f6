-- ===== src/Ramus/Bps/Modify.antt =====
-- ramus/patch/bps-ignore-size.hpp: `modify` on a patch in the format.
use mercurial_magic.Prelude.{
  ℕ, ◌≤◌, ◌≡◌, refl, ap, List, [], ◌∷◌, ◌++◌, length, true, arith, ok, append_assoc, length-append,
  u32, ltb-of_le,
}
use mercurial_magic.Ramus.Bps.{BpsPatch, no_crc}
use mercurial_magic.Ramus.Bps.Object.{modify, c_string}
use mercurial_magic.Ramus.Bps.Number.{length-encode_number}
use mercurial_magic.Ramus.Bps.Numbers.{read_sizes-append}
use mercurial_magic.Ramus.Bps.Format.{
  Patch, Patches, encode_number, encode_actions, sizes, after_sizes, encode_body, encode_patch,
}

abbrev pub magic : List ℕ
magic = b'B' ∷ b'P' ∷ b'S' ∷ b'1' ∷ []

module _ (x : Patch) (own : List ℕ) {source : List ℕ} (h : Patches x source own) where
  -- The shortest patch: a header, three numbers, two sums and the checksum.
  pub length-encode_patch : 19 ≤ length (encode_patch x own)
  unfolding encode_patch encode_body sizes after_sizes
  length-encode_patch = omega (
    arith,
    h.eight,
    h.four,
    length-append (encode_body x) own,
    length-append (sizes x) (after_sizes x),
    length-append (encode_number x.source_size)
        (encode_number x.target_size ++ (encode_number (length x.markup) ++ x.markup)),
    length-append (encode_number x.target_size) (encode_number (length x.markup) ++ x.markup),
    length-append (encode_number (length x.markup)) x.markup,
    length-encode_number x.source_size,
    length-encode_number x.target_size,
    length-encode_number (length x.markup),
    length-append (encode_actions 0 0 x.actions) x.sums,
  )

  pub encode_patch-magic : encode_patch x own ≡ magic ++ (sizes x ++ (after_sizes x ++ own))
  unfolding encode_patch encode_body
  encode_patch-magic = ap (λ ys. magic ++ ys) (append_assoc (sizes x) (after_sizes x) own)

  -- A patch in the format that fits some source, as `Patches` says, is accepted by `modify`: the object holds its bytes,
  -- its sizes and the metadata up to the first zero byte, and is otherwise as before.
  pub modify-encode_patch :
      (p : BpsPatch)
      → modify p (encode_patch x own)
        ≡ ok (
          true,
          record p {
            modify_data = encode_patch x own;
            modify_source_size = x.source_size;
            modify_target_size = x.target_size;
            modify_markup_size = length x.markup;
            metadata_string = c_string x.markup;
          },
        )
  unfolding modify
  modify-encode_patch p =
      let long = length-encode_patch in
      let small : u32 x.target_size ≡ x.target_size = omega (arith, h.small) in
      rw
        (
          ltb-of_le (length (encode_patch x own)) 19 long,
          read_sizes-append no_crc x magic (after_sizes x ++ own) (omega arith) h.fits
              encode_patch-magic (omega (arith, h.small, h.enough)) (omega (arith, h.small)),
          small,
        )
        refl
