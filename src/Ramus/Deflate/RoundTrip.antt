-- ===== src/Ramus/Deflate/RoundTrip.antt =====
-- ramus/encode/deflate.hpp: `compress`, and a reader of its bytes.
use mercurial_magic.Prelude.{
  ℕ, zero, suc, ◌+◌, ◌-◌, ◌/◌, ◌≤◌, ◌<◌, ◌≡◌, refl, sym, ap, ◌∙◌, Bool, none, List, [], ◌∷◌, ◌++◌,
  append_assoc, length, length-append, take, All, IsByte, arith, ok,
}
use mercurial_magic.Ramus.Deflate.{BitBuffer, start_block, finish_block, compress}
use mercurial_magic.Ramus.Deflate.Stream.{bits_of, bits_of_bytes, stream, IsReady, push_bits-stream}
use mercurial_magic.Ramus.Deflate.Inflate.{
  read_number, read_code, read_symbol, inflate_symbols, inflate,
}
use mercurial_magic.Ramus.Deflate.Codes.{Appends}
use mercurial_magic.Ramus.Deflate.Matches.{Appends-bind}
use mercurial_magic.Ramus.Deflate.Writes.{Writes, Writes-append}
use mercurial_magic.Ramus.Deflate.Blocks.{compress_loop-Reaches, literals-Advances}

abbrev pub empty_buffer : BitBuffer
empty_buffer = record { bytes = []; bit_queue = 0; bit_count = 0 }

start_block-stream :
    (s : BitBuffer) → IsReady s → Appends s (bits_of 1 1 ++ bits_of 2 1) (start_block s)
unfolding start_block
start_block-stream s ready =
    Appends-bind s (bits_of 1 1) (bits_of 2 1) _ _
      (push_bits-stream 1 1 s ready (omega arith) (omega arith))
      (λ s' ready'. push_bits-stream 1 2 s' ready' (omega arith) (omega arith))

finish_block-stream :
    (s : BitBuffer) → IsReady s → Appends s (bits_of 7 0 ++ bits_of 7 0) (finish_block s)
unfolding finish_block
finish_block-stream s ready =
    Appends-bind s (bits_of 7 0) (bits_of 7 0) _ _
      (push_bits-stream 0 7 s ready (omega arith) (omega arith))
      (λ s' ready'. push_bits-stream 0 7 s' ready' (omega arith) (omega arith))

-- Of two ways to cut a list, the one with the shorter end has the other's front in its own.
cut_later :
    (xs ys us bs : List Bool)
    → xs ++ ys ≡ us ++ bs
    → length ys ≤ length bs
    → (rest : List Bool) × (xs ≡ us ++ rest)
cut_later xs ys [] bs e h = (xs, refl)
cut_later [] ys (a ∷ us) bs e h = absurd (omega (arith, ap length e, length-append us bs))
cut_later (x ∷ xs) ys (a ∷ us) bs e h =
    let (rest, same) = cut_later xs ys us bs (cc e) h in
    let first : x ≡ a = cc e in (rest, rw (first, same) refl)

length-bits_of : (n v : ℕ) → length (bits_of n v) ≡ n
length-bits_of zero v = refl
length-bits_of (suc n) v = ap suc (length-bits_of n (v / 2))

inflate-end_mark :
    (fuel : ℕ) (rest : List Bool) (out : List ℕ)
    → 1 ≤ fuel
    → inflate_symbols fuel (bits_of 7 0 ++ rest) out ≡ ok out
unfolding inflate_symbols read_symbol read_code
inflate-end_mark zero rest out some_fuel = absurd (omega arith)
inflate-end_mark (suc fuel) rest out some_fuel = refl

inflate-Writes :
    (source : List ℕ) (size : ℕ) (bits rest : List Bool)
    → Writes source 0 size bits
    → inflate ((bits_of 1 1 ++ bits_of 2 1) ++ (bits ++ (bits_of 7 0 ++ rest)))
      ≡ ok (take size source)
unfolding inflate read_number
inflate-Writes source size bits rest (k, few, reads) =
    let total = suc (suc (suc (length (bits ++ (bits_of 7 0 ++ rest))))) in
    let more : k + 1 ≤ total = omega (arith, length-append bits (bits_of 7 0 ++ rest)) in
    reads total (total - k) (bits_of 7 0 ++ rest) (omega arith)
    ∙ inflate-end_mark (total - k) rest (take size source) (omega arith)

-- The stream of a block, cut before and behind the end mark.
regroup_stream :
    (head xs ys mark more : List Bool)
    → ((head ++ xs) ++ ys) ++ (mark ++ more) ≡ (head ++ ((xs ++ ys) ++ mark)) ++ more
regroup_stream [] xs ys mark more = sym (append_assoc (xs ++ ys) mark more)
regroup_stream (h ∷ head) xs ys mark more = ap (◌∷◌ h) (regroup_stream head xs ys mark more)

regroup_end :
    (head bits mark rest : List Bool)
    → (head ++ (bits ++ mark)) ++ rest ≡ head ++ (bits ++ (mark ++ rest))
regroup_end [] bits mark rest = append_assoc bits mark rest
regroup_end (h ∷ head) bits mark rest = ap (◌∷◌ h) (regroup_end head bits mark rest)

-- `compress` returns on every buffer of bytes after which a byte can be read, and from the bytes
-- that it makes a reader of DEFLATE blocks with fixed codes gets the buffer's bytes.
pub inflate-compress :
    (source : List ℕ) (size : ℕ)
    → All IsByte source
    → size < length source
    → (buffer : BitBuffer) × (compress source size ≡ ok buffer)
      × (inflate (bits_of_bytes buffer.bytes) ≡ ok (take size source))
unfolding compress
inflate-compress source size octets readable =
    let (s₁, started, head, ready₁) =
      start_block-stream empty_buffer (record { few = omega arith; small = omega arith }) in
    let (p, s₂, looped, inside, (xs, stream₂, ready₂, first)) =
      compress_loop-Reaches source octets size readable (suc size) (λ bucket. none) 0 s₁
        (omega arith) (omega arith) ready₁ in
    let (s₃, ended, (ys, stream₃, ready₃, second)) =
      literals-Advances source octets (size - p) p s₂ (omega arith) ready₂ in
    let (s₄, finished, tail, ready₄) = finish_block-stream s₃ ready₃ in
    let header = bits_of 1 1 ++ bits_of 2 1 in
    let mark = bits_of 7 0 in
    let whole : stream s₄ ≡ ((header ++ xs) ++ ys) ++ (mark ++ mark) =
      rw (tail, stream₃, stream₂, head) refl in
    let (rest, written) =
      cut_later (bits_of_bytes s₄.bytes) (bits_of s₄.bit_count s₄.bit_queue)
        (header ++ ((xs ++ ys) ++ mark)) mark (whole ∙ regroup_stream header xs ys mark mark)
        (omega (arith, length-bits_of s₄.bit_count s₄.bit_queue, ready₄.few)) in
    let to_end : p + (size - p) ≡ size = omega arith in
    let all = rw to_end at (Writes-append source 0 p (p + (size - p)) xs ys first second) in
    (
      s₄,
      rw (started, looped, ended) finished,
      rw (written, regroup_end header (xs ++ ys) mark rest)
          (inflate-Writes source size (xs ++ ys) rest all),
    )
