-- ===== src/Prelude/Options.antt =====
-- Chains of optional results: `if (!test) return null` in a function that returns null or a value.
use mathlib.Core.Path.{◌≡◌, refl}
use mathlib.Core.Bool.{Bool, true, false}
use mathlib.Core.Option.{Option, none, some}
use filenymous.Prelude.Tests.{if◌then◌else◌}

infixl 5 ◌>>=◌ ◌>>◌
abbrev pub ◌>>=◌ {ℓ κ} : {A : Type ℓ} {B : Type κ} → Option A → (A → Option B) → Option B
none >>= f = none
some a >>= f = f a

abbrev pub ◌>>◌ {ℓ} : {B : Type ℓ} → Option (Unit {0}) → Option B → Option B
m >> k = m >>= λ _. k

abbrev pub guard : Bool → Option (Unit {0})
guard true = some tt
guard false = none

-- A predicate on the result, if there is one.
abbrev pub Each {ℓ κ} : {A : Type ℓ} → (A → Type κ) → Option A → Type κ
Each P none = Unit
Each P (some a) = P a

pub Each-bind {ℓ κ} :
    {A : Type ℓ} {B : Type κ} (Q : B → Type 0) (m : Option A) (f : A → Option B)
    → ((a : A) → m ≡ some a → Each Q (f a))
    → Each Q (m >>= f)
Each-bind Q none f k = tt
Each-bind Q (some a) f k = k a refl

pub Each-guard {ℓ} :
    {B : Type ℓ} (Q : B → Type 0) (t : Bool) (m : Option B)
    → (t ≡ true → Each Q m)
    → Each Q (guard t >>= λ _. m)
Each-guard Q true m k = k refl
Each-guard Q false m k = tt

pub Each-if {ℓ} :
    {A : Type ℓ} (Q : A → Type 0) (t : Bool) (m k : Option A)
    → Each Q m
    → Each Q k
    → Each Q (if t then m else k)
Each-if Q true m k h l = h
Each-if Q false m k h l = l

pub Each-map {ℓ κ ι} :
    {A : Type ℓ} {P : A → Type κ} {Q : A → Type ι}
    → ((a : A) → P a → Q a)
    → (o : Option A) → Each P o
    → Each Q o
Each-map f none h = tt
Each-map f (some a) h = f a h

pub Each-of {ℓ κ} :
    {A : Type ℓ} (P : A → Type κ) (o : Option A) → ((a : A) → o ≡ some a → P a) → Each P o
Each-of P none k = tt
Each-of P (some a) k = k a refl
