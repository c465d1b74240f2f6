-- ===== src/Ramus/Memory/Laws.antt =====
-- Accesses through pointers: inside a buffer, and what they leave of it.
use mercurial_magic.Prelude.{
  ltb, Ends, returns, faults, Ends-bind, Ends-if, Run, fault, ℕ, zero, suc, ◌+◌, ◌≤◌, ◌<◌, ◌≡◌,
  refl, List, [], ◌∷◌, ◌++◌, length, set, arith, ok, stuck, get_elem?-append, append-cons,
  length-snoc, set-append, length-append, length-set, get_elem?-lt, lt→ltb, ◌≢◌, ap, ◌∙◌,
}
use mercurial_magic.Ramus.Memory.{fetch, store, copy, fill}

pub fetch-append :
    (front : List ℕ) (x : ℕ) (rest : List ℕ) → fetch (front ++ x ∷ rest) (length front) ≡ ok x
unfolding fetch
fetch-append front x rest = rw (fetch, get_elem?-append front x rest)

-- The same of a buffer that is known by an equation.
pub fetch-at :
    {bytes : List ℕ} {i : ℕ} (front : List ℕ) (x : ℕ) (rest : List ℕ)
    → bytes ≡ front ++ x ∷ rest
    → i ≡ length front
    → fetch bytes i ≡ ok x
fetch-at front x rest h e = rw (h, e) (fetch-append front x rest)

pub store-append :
    (front : List ℕ) (x v : ℕ) (rest : List ℕ)
    → store (front ++ x ∷ rest) (length front) v ≡ ok (front ++ v ∷ rest)
unfolding store
store-append front x v rest =
    rw
      (lt→ltb (length front) (length (front ++ x ∷ rest))
        (omega (arith, length-append front (x ∷ rest))))
      (ap ok (set-append front x v rest))

pub fetch-lt : (bytes : List ℕ) (i : ℕ) → i < length bytes → (x : ℕ) × (fetch bytes i ≡ ok x)
unfolding fetch
fetch-lt bytes i h = let (x, e) = get_elem?-lt bytes i h in (x, rw (fetch, e))

pub fetch-ok : (bytes : List ℕ) (i : ℕ) {x : ℕ} → fetch bytes i ≡ ok x → i < length bytes
unfolding fetch
fetch-ok [] i h = cc
fetch-ok (b ∷ bs) zero h = omega arith
fetch-ok (b ∷ bs) (suc i) h = omega (arith, fetch-ok bs i h)

pub fetch-ne-stuck : (bytes : List ℕ) (i : ℕ) → fetch bytes i ≢ stuck
unfolding fetch
fetch-ne-stuck bytes i h = ground arith

pub length-store :
    (bytes : List ℕ) (i x : ℕ) {bytes' : List ℕ}
    → store bytes i x ≡ ok bytes'
    → length bytes' ≡ length bytes
unfolding store
length-store bytes i x h = ground (arith, length-set bytes i x)

-- Inside both buffers a copy succeeds, and the target keeps its length.
pub copy-fits :
    (n : ℕ) (source : List ℕ) (from : ℕ) (target : List ℕ) (to : ℕ)
    → from + n ≤ length source
    → to + n ≤ length target
    → (t : List ℕ) × (copy n source from target to ≡ ok t) × (length t ≡ length target)
unfolding copy store
copy-fits zero source from target to hs ht = (target, refl, refl)
copy-fits (suc n) source from target to hs ht =
    let (x, e) = fetch-lt source from (omega arith) in
    let (t, done, same) =
      copy-fits n source (from + 1) (set target to x) (to + 1) (omega arith)
        (omega (arith, length-set target to x)) in
    (t, rw (e, lt→ltb to (length target) (omega arith)) done, same ∙ length-set target to x)

pub fill-fits :
    (n value : ℕ) (target : List ℕ) (to : ℕ)
    → to + n ≤ length target
    → (t : List ℕ) × (fill n value target to ≡ ok t) × (length t ≡ length target)
unfolding fill store
fill-fits zero value target to ht = (target, refl, refl)
fill-fits (suc n) value target to ht =
    let (t, done, same) =
      fill-fits n value (set target to value) (to + 1)
        (omega (arith, length-set target to value)) in
    (t, rw (lt→ltb to (length target) (omega arith)) done, same ∙ length-set target to value)

-- A copy over `old`, of the same length as what is copied.
pub copy-append :
    (xs front rest before old after : List ℕ)
    → length old ≡ length xs
    → copy
        (length xs)
        (front ++ (xs ++ rest))
        (length front)
        (before ++ (old ++ after))
        (length before)
      ≡ ok (before ++ (xs ++ after))
unfolding copy
copy-append [] front rest before [] after h = refl
copy-append [] front rest before (y ∷ old) after h = absurd (omega arith)
copy-append (x ∷ xs) front rest before [] after h = absurd (omega arith)
copy-append (x ∷ xs) front rest before (y ∷ old) after h =
    rw
      (
        fetch-append front x (xs ++ rest),
        store-append before y x (old ++ after),
        append-cons front x (xs ++ rest),
        append-cons before x (old ++ after),
        append-cons before x (xs ++ after),
        ← length-snoc front x,
        ← length-snoc before x,
      )
      (copy-append xs (front ++ x ∷ []) rest (before ++ x ∷ []) old after (omega arith))

-- No access is stuck.
pub fetch-Ends : (bytes : List ℕ) (i : ℕ) → Ends (λ x. i < length bytes) (fetch bytes i)
fetch-Ends bytes i = go (fetch bytes i) refl
  where
    go : (m : Run ℕ) → fetch bytes i ≡ m → Ends (λ x. i < length bytes) m
    go (ok x) e = returns x (fetch-ok bytes i e)
    go fault e = faults
    go stuck e = absurd (fetch-ne-stuck bytes i e)

pub store-Ends : (bytes : List ℕ) (i x : ℕ) → Ends (λ t. Unit {0}) (store bytes i x)
unfolding store
store-Ends bytes i x =
    Ends-if (ltb i (length bytes)) (ok (set bytes i x)) fault (λ _. returns (set bytes i x) tt)
      (λ _. faults)

pub copy-Ends :
    (n : ℕ) (source : List ℕ) (from : ℕ) (target : List ℕ) (to : ℕ)
    → Ends (λ t. Unit {0}) (copy n source from target to)
unfolding copy
copy-Ends zero source from target to = returns target tt
copy-Ends (suc n) source from target to =
    Ends-bind _ _ (fetch-Ends source from)
      λ x _. Ends-bind _ _ (store-Ends target to x) λ t _. copy-Ends n source (from + 1) t (to + 1)
