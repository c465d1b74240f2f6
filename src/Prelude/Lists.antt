-- ===== src/Prelude/Lists.antt =====
-- Lists measured and indexed by native numbers, under the library's names, and buffers of bytes.
use Prim.Native.Nat.{ℕ, zero, suc, ◌+◌, ◌-◌, ◌≤◌, ◌<◌}
use mathlib.Core.Path.{◌≡◌, refl, sym, ap, ◌∙◌}
use mathlib.Core.List.{List, [], ◌∷◌, ◌++◌, append_assoc}
use mathlib.Core.Option.{Option, none, some}
use native.Mathlib.Omega.{arith}

module _ {ℓ} {A : Type ℓ} where
  abbrev pub length : List A → ℕ
  length [] = 0
  length (x ∷ xs) = suc (length xs)

  abbrev pub get_elem? : List A → ℕ → Option A
  get_elem? [] i = none
  get_elem? (x ∷ xs) zero = some x
  get_elem? (x ∷ xs) (suc i) = get_elem? xs i

  -- A write out of bounds changes nothing.
  abbrev pub set : List A → ℕ → A → List A
  set [] i v = []
  set (x ∷ xs) zero v = v ∷ xs
  set (x ∷ xs) (suc i) v = x ∷ set xs i v

  abbrev pub get_or : List A → ℕ → A → A
  get_or [] i d = d
  get_or (x ∷ xs) zero d = x
  get_or (x ∷ xs) (suc i) d = get_or xs i d

  abbrev pub take : ℕ → List A → List A
  take zero xs = []
  take (suc n) [] = []
  take (suc n) (x ∷ xs) = x ∷ take n xs

  abbrev pub drop : ℕ → List A → List A
  drop zero xs = xs
  drop (suc n) [] = []
  drop (suc n) (x ∷ xs) = drop n xs

  abbrev pub replicate : ℕ → A → List A
  replicate zero a = []
  replicate (suc n) a = a ∷ replicate n a

  abbrev pub All {κ} : (A → Type κ) → List A → Type κ
  All P [] = Unit {κ}
  All P (x ∷ xs) = P x × All P xs

module _ {ℓ} {A : Type ℓ} where
  pub length-append : (xs ys : List A) → length (xs ++ ys) ≡ length xs + length ys
  length-append [] ys = omega arith
  length-append (x ∷ xs) ys = omega (arith, length-append xs ys)

  pub length-set : (xs : List A) (i : ℕ) (v : A) → length (set xs i v) ≡ length xs
  length-set [] i v = refl
  length-set (x ∷ xs) zero v = refl
  length-set (x ∷ xs) (suc i) v = ap suc (length-set xs i v)

  pub length-drop : (n : ℕ) (xs : List A) → length (drop n xs) ≡ length xs - n
  length-drop zero xs = omega arith
  length-drop (suc n) [] = omega arith
  length-drop (suc n) (x ∷ xs) = omega (arith, length-drop n xs)

  pub length-replicate : (n : ℕ) (a : A) → length (replicate n a) ≡ n
  length-replicate zero a = refl
  length-replicate (suc n) a = ap suc (length-replicate n a)

  -- What stands behind a front part, and a write there.
  pub get_elem?-append :
      (front : List A) (x : A) (rest : List A)
      → get_elem? (front ++ x ∷ rest) (length front) ≡ some x
  get_elem?-append [] x rest = refl
  get_elem?-append (y ∷ front) x rest = get_elem?-append front x rest

  pub set-append :
      (front : List A) (x v : A) (rest : List A)
      → set (front ++ x ∷ rest) (length front) v ≡ front ++ v ∷ rest
  set-append [] x v rest = refl
  set-append (y ∷ front) x v rest = ap (◌∷◌ y) (set-append front x v rest)

  pub get_elem?-lt : (xs : List A) (i : ℕ) → i < length xs → (x : A) × (get_elem? xs i ≡ some x)
  get_elem?-lt [] i h = elim h [ ]
  get_elem?-lt (x ∷ xs) zero h = (x, refl)
  get_elem?-lt (x ∷ xs) (suc i) h = get_elem?-lt xs i (omega arith)

  pub get_elem?-front :
      (xs ys : List A) (i : ℕ) (x : A) → get_elem? xs i ≡ some x → get_elem? (xs ++ ys) i ≡ some x
  get_elem?-front [] ys i x h = cc
  get_elem?-front (y ∷ xs) ys zero x h = h
  get_elem?-front (y ∷ xs) ys (suc i) x h = get_elem?-front xs ys i x h

  -- One element moves from the rest to the front.
  pub append-cons : (xs : List A) (y : A) (ys : List A) → xs ++ y ∷ ys ≡ (xs ++ y ∷ []) ++ ys
  append-cons [] y ys = refl
  append-cons (x ∷ xs) y ys = ap (◌∷◌ x) (append-cons xs y ys)

  pub length-snoc : (xs : List A) (y : A) → length (xs ++ y ∷ []) ≡ length xs + 1
  length-snoc xs y = omega (arith, length-append xs (y ∷ []))

  pub take-append-drop : (n : ℕ) (xs : List A) → take n xs ++ drop n xs ≡ xs
  take-append-drop zero xs = refl
  take-append-drop (suc n) [] = refl
  take-append-drop (suc n) (x ∷ xs) = ap (◌∷◌ x) (take-append-drop n xs)

  pub length-take_le : (n : ℕ) (xs : List A) → n ≤ length xs → length (take n xs) ≡ n
  length-take_le zero xs h = refl
  length-take_le (suc n) [] h = absurd (omega arith)
  length-take_le (suc n) (x ∷ xs) h = ap suc (length-take_le n xs (omega arith))

  -- A run of elements moves from the rest to the front.
  pub regroup :
      {zs : List A} (front xs rest : List A)
      → zs ≡ front ++ (xs ++ rest)
      → zs ≡ (front ++ xs) ++ rest
  regroup front xs rest h = h ∙ sym (append_assoc front xs rest)

  pub drop_all : (n : ℕ) (xs : List A) → length xs ≤ n → drop n xs ≡ []
  drop_all zero [] h = refl
  drop_all zero (x ∷ xs) h = absurd (omega arith)
  drop_all (suc n) [] h = refl
  drop_all (suc n) (x ∷ xs) h = drop_all n xs (omega arith)

  pub length-eq_zero : (xs : List A) → length xs ≡ 0 → xs ≡ []
  length-eq_zero [] h = refl
  length-eq_zero (x ∷ xs) h = absurd (omega arith)

  pub drop-append : (front rest : List A) (n : ℕ) → length front ≡ n → drop n (front ++ rest) ≡ rest
  drop-append [] rest zero e = refl
  drop-append [] rest (suc n) e = absurd (omega arith)
  drop-append (x ∷ front) rest zero e = absurd (omega arith)
  drop-append (x ∷ front) rest (suc n) e = drop-append front rest n (omega arith)

  pub take-append :
      (front rest : List A) (n : ℕ) → length front ≡ n → take n (front ++ rest) ≡ front
  take-append [] rest zero e = refl
  take-append [] rest (suc n) e = absurd (omega arith)
  take-append (x ∷ front) rest zero e = absurd (omega arith)
  take-append (x ∷ front) rest (suc n) e = ap (◌∷◌ x) (take-append front rest n (omega arith))
