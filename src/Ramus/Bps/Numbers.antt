-- ===== src/Ramus/Bps/Numbers.antt =====
-- ramus/patch/bps-ignore-size.hpp: the sizes and the markup behind the header.
use mercurial_magic.Prelude.{
  ℕ, ◌+◌, ◌<◌, ◌≤◌, ◌≡◌, refl, ap, ◌∙◌, List, ◌++◌, length, arith, ok, append_assoc, length-append,
  regroup, u32,
}
use mercurial_magic.Ramus.Bps.{Crc32, Sizes, read_sizes}
use mercurial_magic.Ramus.Bps.Number.{cursor_at}
use mercurial_magic.Ramus.Bps.Loops.{read_bytes-append}
use mercurial_magic.Ramus.Bps.Actions.{decode-eq}
use mercurial_magic.Ramus.Bps.Format.{Patch, encode_number, sizes}

abbrev pub read_back : Patch → Sizes
read_back x = record {
  source_size = x.source_size;
  target_size = x.target_size;
  markup_size = length x.markup;
  markup = x.markup;
}

module _ {S : Type 0} (crc : Crc32 S) {bytes : List ℕ} where
  pub read_sizes-append :
      (x : Patch) (front rest : List ℕ)
      → 9 ≤ length bytes
      → length bytes + 10 < 4294967296
      → bytes ≡ front ++ (sizes x ++ rest)
      → x.source_size < 4294967296
      → x.target_size < 4294967296
      → read_sizes crc bytes (cursor_at crc front)
        ≡ ok (read_back x, cursor_at crc (front ++ sizes x))
  unfolding read_sizes sizes
  read_sizes-append x front rest long short h hs ht =
      let a = encode_number x.source_size in
      let b = encode_number x.target_size in
      let c = encode_number (length x.markup) in
      let m = x.markup in
      let f₁ = front ++ a in
      let f₂ = f₁ ++ b in
      let f₃ = f₂ ++ c in
      let whole : (a ++ (b ++ (c ++ m))) ++ rest ≡ a ++ (b ++ (c ++ (m ++ rest))) =
        simp append_assoc in
      let h₀ : bytes ≡ front ++ (a ++ (b ++ (c ++ (m ++ rest)))) =
        h ∙ ap (λ ys. front ++ ys) whole in
      let h₁ = regroup front a (b ++ (c ++ (m ++ rest))) h₀ in
      let h₂ = regroup f₁ b (c ++ (m ++ rest)) h₁ in
      let h₃ = regroup f₂ c (m ++ rest) h₂ in
      let h₄ = regroup f₃ m rest h₃ in
      let front_end : front ++ (a ++ (b ++ (c ++ m))) ≡ f₃ ++ m = simp append_assoc in
      let n : length f₃ + length m + length rest ≡ length bytes =
        omega (arith, ap length h₄, length-append (f₃ ++ m) rest, length-append f₃ m) in
      let n₃ : length f₃ ≡ length f₂ + length c = length-append f₂ c in
      let n₂ : length f₂ ≡ length f₁ + length b = length-append f₁ b in
      let n₁ : length f₁ ≡ length front + length a = length-append front a in
      let small_source : u32 x.source_size ≡ x.source_size = omega arith in
      let small_markup : u32 (length m) ≡ length m = omega arith in
      rw
        (
          decode-eq crc long x.source_size front (b ++ (c ++ (m ++ rest))) h₀ (omega arith)
              (omega arith),
          decode-eq crc long x.target_size f₁ (c ++ (m ++ rest)) h₁ (omega arith) (omega arith),
          decode-eq crc long (length m) f₂ (m ++ rest) h₂ (omega arith) (omega arith),
          small_markup,
          read_bytes-append crc m f₃ rest h₃ (omega arith),
          small_source,
          front_end,
        )
        refl
