-- ===== src/Prelude/Outcome.antt =====
-- The outcome of code that reads and writes through raw pointers.
use mathlib.Core.Path.{◌≡◌, refl}
use mathlib.Core.Logic.{◌⊎◌, inl, inr}
use mathlib.Core.Bool.{Bool, true, false}
use mercurial_magic.Prelude.Tests.{if◌then◌else◌}

-- `fault` is an access outside a buffer, which C++ leaves undefined. `stuck` is no outcome of the
-- program: a loop of the model ran out of fuel.
pub data Run {ℓ} (A : Type ℓ) : Type ℓ where
  fault stuck : Run A
  ok : A → Run A

infixl 5 ◌>>=◌
abbrev pub ◌>>=◌ {κ ℓ} : {B : Type κ} {A : Type ℓ} → Run A → (A → Run B) → Run B
fault >>= next = fault
stuck >>= next = stuck
ok a >>= next = next a

-- Inversion of a bind that returned.
pub >>=-eq-ok {κ ℓ} :
    {B : Type κ} {A : Type ℓ} (run : Run A) (next : A → Run B) {final : B}
    → (run >>= next) ≡ ok final
    → (x : A) × (run ≡ ok x) × (next x ≡ ok final)
>>=-eq-ok fault next returned = cc
>>=-eq-ok stuck next returned = cc
>>=-eq-ok (ok x) next returned = (x, refl, returned)

-- The code ends: it returns a value with the property, or it faults.
pub data Ends {ℓ κ} {A : Type ℓ} (P : A → Type κ) : Run A → Type (ℓ ⊔ κ) where
  returns : (a : A) → P a → Ends P (ok a)
  faults : Ends P fault

pub Ends-bind {ℓ κ ι θ} :
    {A : Type ℓ} {B : Type κ} {P : A → Type ι} {Q : B → Type θ} (m : Run A) (f : A → Run B)
    → Ends P m
    → ((a : A) → P a → Ends Q (f a))
    → Ends Q (m >>= f)
Ends-bind m f (returns a h) k = k a h
Ends-bind m f faults k = faults

pub Ends-ne-stuck {ℓ κ} : {A : Type ℓ} {P : A → Type κ} (m : Run A) → Ends P m → m ≡ stuck → ⊥
Ends-ne-stuck m (returns a h) e = cc
Ends-ne-stuck m faults e = cc

pub Ends-weaken {ℓ κ ι} :
    {A : Type ℓ} {P : A → Type κ} {Q : A → Type ι} (m : Run A)
    → ((a : A) → P a → Q a)
    → Ends P m
    → Ends Q m
Ends-weaken m k (returns a h) = returns a (k a h)
Ends-weaken m k faults = faults

pub Ends-if {ℓ κ} :
    {A : Type ℓ} {P : A → Type κ} (b : Bool) (m n : Run A)
    → (b ≡ true → Ends P m)
    → (b ≡ false → Ends P n)
    → Ends P (if b then m else n)
Ends-if true m n h k = h refl
Ends-if false m n h k = k refl

pub Ends-cases {ℓ κ} :
    {A : Type ℓ} {P : A → Type κ} (m : Run A)
    → Ends P m
    → ((a : A) × (m ≡ ok a) × P a) ⊎ (m ≡ fault)
Ends-cases m (returns a h) = inl (a, refl, h)
Ends-cases m faults = inr refl

-- The code returns, and with the property: it neither faults nor runs out of fuel.
pub data Safe {ℓ κ} {A : Type ℓ} (P : A → Type κ) : Run A → Type (ℓ ⊔ κ) where
  safe : (a : A) → P a → Safe P (ok a)

pub Safe-bind {ℓ κ ι θ} :
    {A : Type ℓ} {B : Type κ} {P : A → Type ι} {Q : B → Type θ} (m : Run A) (f : A → Run B)
    → Safe P m
    → ((a : A) → P a → Safe Q (f a))
    → Safe Q (m >>= f)
Safe-bind m f (safe a h) k = k a h

pub Safe-if {ℓ κ} :
    {A : Type ℓ} {P : A → Type κ} (b : Bool) (m n : Run A)
    → (b ≡ true → Safe P m)
    → (b ≡ false → Safe P n)
    → Safe P (if b then m else n)
Safe-if true m n h k = h refl
Safe-if false m n h k = k refl

pub Safe-ok {ℓ κ} :
    {A : Type ℓ} {P : A → Type κ} {m : Run A} → Safe P m → (a : A) × (m ≡ ok a) × P a
Safe-ok (safe a h) = (a, refl, h)

-- The code returns some value.
abbrev pub Defined {ℓ} : {A : Type ℓ} → Run A → Type ℓ
Defined m = Safe {ℓ, 0} (λ _. Unit) m

pub Safe-weaken {ℓ κ ι} :
    {A : Type ℓ} {P : A → Type κ} {Q : A → Type ι} (m : Run A)
    → ((a : A) → P a → Q a)
    → Safe P m
    → Safe Q m
Safe-weaken m k (safe a h) = safe a (k a h)

-- The rules by which `search` follows code that only reads.
pub Defined-bind {ℓ κ} :
    {A : Type ℓ} {B : Type κ} (m : Run A) (f : A → Run B)
    → Defined m
    → ((a : A) → Defined (f a))
    → Defined (m >>= f)
Defined-bind m f (safe a h) k = k a

pub Defined-if {ℓ} :
    {A : Type ℓ} (b : Bool) (m n : Run A) → Defined m → Defined n → Defined (if b then m else n)
Defined-if true m n h k = h
Defined-if false m n h k = k

pub Defined-ok {ℓ} : {A : Type ℓ} (a : A) → Defined (ok a)
Defined-ok a = safe a tt

pub ruleset defined = (Defined-bind, Defined-if, Defined-ok)
