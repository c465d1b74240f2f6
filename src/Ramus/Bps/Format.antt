-- ===== src/Ramus/Bps/Format.antt =====
-- The beat patch format by itself: numbers, actions with absolute positions, and what a list of
-- actions makes of a source.
use mercurial_magic.Prelude.{
  ℕ, zero, suc, ◌+◌, ◌-◌, ◌*◌, ◌/◌, ◌%◌, ◌≤◌, ◌<◌, ◌≡◌, List, [], ◌∷◌, ◌++◌, length, get_or, take,
  drop, ltb, leb, if◌then◌else◌,
}

-- Groups of seven bits, lowest first; the last has the top bit, and each other one counts one more.
unfoldable pub encode_rounds : ℕ → ℕ → List ℕ
encode_rounds zero v = (128 + v % 128) ∷ []
encode_rounds (suc k) v =
    let rest = encode_rounds k (v / 128 - 1) in
    if ltb v 128 then (128 + v) ∷ [] else (v % 128) ∷ rest

-- Ten groups hold every 64-bit number.
unfoldable pub encode_number : ℕ → List ℕ
unfolding encode_rounds
encode_number v = encode_rounds 9 v

-- What is copied by an action, with absolute positions.
pub data Action : Type 0 where
  from_source : ℕ → Action
  literal : List ℕ → Action
  copy_source copy_target : ℕ → ℕ → Action

-- A move from one position to another, the sign in the lowest bit.
unfoldable pub encode_move : ℕ → ℕ → ℕ
encode_move from to = if leb from to then (to - from) * 2 else (from - to) * 2 + 1

-- The positions behind the last copy from the source, and from the target.
abbrev pub next_source : ℕ → Action → ℕ
next_source sr (copy_source pos n) = pos + n
next_source sr _ = sr

abbrev pub next_target : ℕ → Action → ℕ
next_target tr (copy_target pos n) = pos + n
next_target tr _ = tr

unfoldable pub encode_action : ℕ → ℕ → Action → List ℕ
encode_action sr tr (from_source n) = encode_number ((n - 1) * 4 + 0)
encode_action sr tr (literal bytes) = encode_number ((length bytes - 1) * 4 + 1) ++ bytes
encode_action sr tr (copy_source pos n) =
    encode_number ((n - 1) * 4 + 2) ++ encode_number (encode_move sr pos)
encode_action sr tr (copy_target pos n) =
    encode_number ((n - 1) * 4 + 3) ++ encode_number (encode_move tr pos)

unfoldable pub encode_actions : ℕ → ℕ → List Action → List ℕ
encode_actions sr tr [] = []
encode_actions sr tr (a ∷ more) =
    encode_action sr tr a ++ encode_actions (next_source sr a) (next_target tr a) more

-- The output, with n bytes more that repeat it from `pos` on. The copy may run into itself.
unfoldable pub repeat_from : ℕ → ℕ → List ℕ → List ℕ
repeat_from zero pos out = out
repeat_from (suc n) pos out = repeat_from n (pos + 1) (out ++ get_or out pos 0 ∷ [])

abbrev pub slice : ℕ → ℕ → List ℕ → List ℕ
slice pos n xs = take n (drop pos xs)

unfoldable pub perform : List ℕ → List ℕ → Action → List ℕ
perform source out (from_source n) = out ++ slice (length out) n source
perform source out (literal bytes) = out ++ bytes
perform source out (copy_source pos n) = out ++ slice pos n source
perform source out (copy_target pos n) = repeat_from n pos out

unfoldable pub perform_all : List ℕ → List ℕ → List Action → List ℕ
perform_all source out [] = out
perform_all source out (a ∷ more) = perform_all source (perform source out a) more

-- An action copies at least a byte, and only bytes that are there. Positions below 2^30 fit the
-- signed moves of the format.
abbrev pub IsWithin : List ℕ → List ℕ → Action → Type 0
IsWithin source out (from_source n) = (1 ≤ n) × (length out + n ≤ length source)
IsWithin source out (literal bytes) = 1 ≤ length bytes
IsWithin source out (copy_source pos n) = (1 ≤ n) × (pos + n ≤ length source)
IsWithin source out (copy_target pos n) = (1 ≤ n) × (pos < length out)

abbrev pub AllWithin : List ℕ → List ℕ → List Action → Type 0
AllWithin source out [] = Unit {0}
AllWithin source out (a ∷ more) =
    IsWithin source out a × AllWithin source (perform source out a) more

-- A patch. The sums are the checksums of source and target, which this reader skips.
pub record Patch : Type 0 where
  pub source_size : ℕ
  pub target_size : ℕ
  pub markup : List ℕ
  pub actions : List Action
  pub sums : List ℕ

unfoldable pub after_sizes : Patch → List ℕ
after_sizes x = encode_actions 0 0 x.actions ++ x.sums

unfoldable pub sizes : Patch → List ℕ
sizes x =
    encode_number x.source_size
    ++ (encode_number x.target_size ++ (encode_number (length x.markup) ++ x.markup))

-- All but the patch's own checksum, which the last four bytes hold.
unfoldable pub encode_body : Patch → List ℕ
encode_body x = b'B' ∷ b'P' ∷ b'S' ∷ b'1' ∷ (sizes x ++ after_sizes x)

unfoldable pub encode_patch : Patch → List ℕ → List ℕ
encode_patch x own = encode_body x ++ own

-- The patch fits the format's 32 bits, and turns `source` into `target_size` bytes.
pub record Patches (x : Patch) (source own : List ℕ) : Type 0 where
  pub fits : length (encode_patch x own) + 10 < 4294967296
  pub small : (length source < 1073741824) × (x.target_size < 1073741824)
  pub enough : x.source_size ≤ length source
  pub within : AllWithin source [] x.actions
  pub exact : length (perform_all source [] x.actions) ≡ x.target_size
  pub eight : length x.sums ≡ 8
  pub four : length own ≡ 4
