-- ===== src/Prelude/Items.antt =====
-- Lists and properties inside values of type `unknown`.
use Prim.Native.Nat.{ℕ, suc, ◌≤◌}
use mathlib.Core.Path.{◌≡◌, refl, ap, subst}
use mathlib.Core.Logic.{inl, inr}
use filenymous.Prelude.Tests.{leb, leb→le, if◌then◌else◌, Bool-cases, Option-cases}
use mathlib.Core.Bool.{Bool, true, false}
use mathlib.Core.Option.{Option, none, some}
use mathlib.Core.List.{List, [], ◌∷◌}
use filenymous.Prelude.Lists.{length, All}
use filenymous.Prelude.Strings.{Text}
use native.Mathlib.Omega.{arith}
use filenymous.Prelude.Options.{◌>>=◌, Each, Each-bind, Each-map, Each-of}
use filenymous.Prelude.Json.{
  Json, undefined, null, boolean, number, string, array, object, Items, nil, cons, Fields, end,
  with_field, int, int_bounds, max_safe_integer,
}

unfoldable pub items_of : Items → List Json
items_of nil = []
items_of (cons v vs) = v ∷ items_of vs

-- `Array.isArray(v)`, with the items.
unfoldable pub as_array : Json → Option (List Json)
unfolding items_of
as_array (array vs) = some (items_of vs)
as_array _ = none

-- `Object.entries(o)`
unfoldable pub entries : Fields → List (Text × Json)
entries end = []
entries (with_field k v fs) = (k, v) ∷ entries fs

-- `v === true`
unfoldable pub is_true : Json → Bool
is_true (boolean b) = b
is_true _ = false

-- `typeof v === "string" && test(v)`, with the string.
unfoldable pub text_of : (Text → Bool) → Json → Option Text
text_of test (string s) = if test s then some s else none
text_of test _ = none

-- `v.length <= max`
unfoldable pub fits : ℕ → Text → Bool
fits max s = leb (length s) max

-- Undefined, or a value that passes.
unfoldable pub optional {ℓ} : {A : Type ℓ} → (Json → Option A) → Json → Option (Option A)
optional f undefined = some none
optional f v = do a ← f v; some (some a)

-- Null, or a value that passes.
unfoldable pub nullable {ℓ} : {A : Type ℓ} → (Json → Option A) → Json → Option (Option A)
nullable f null = some none
nullable f v = do a ← f v; some (some a)

-- Undefined or null, or a value that passes.
unfoldable pub missing {ℓ} : {A : Type ℓ} → (Json → Option A) → Json → Option (Option A)
missing f undefined = some none
missing f null = some none
missing f v = do a ← f v; some (some a)

-- `vs.map(f)` when no result is null.
unfoldable pub all_of {ℓ} : {A : Type ℓ} → (Json → Option A) → List Json → Option (List A)
all_of f [] = some []
all_of f (v ∷ vs) = let rest = all_of f vs in do a ← f v; xs ← rest; some (a ∷ xs)

unfoldable pub add_some {ℓ} : {A : Type ℓ} → Option A → List A → List A
add_some none xs = xs
add_some (some x) xs = x ∷ xs

-- `vs.map(f).filter(Boolean)`
unfoldable pub those_of {ℓ} : {A : Type ℓ} → (Json → Option A) → List Json → List A
unfolding add_some
those_of f [] = []
those_of f (v ∷ vs) = add_some (f v) (those_of f vs)

pub text_of-Each : (test : Text → Bool) (v : Json) → Each (λ s. test s ≡ true) (text_of test v)
unfolding text_of
text_of-Each test undefined = tt
text_of-Each test null = tt
text_of-Each test (boolean b) = tt
text_of-Each test (number n) = tt
text_of-Each test (string s) = elim (Bool-cases (test s)) [
  | inl e ↦ rw (e, e) refl
  | inr e ↦ rw e tt
]
text_of-Each test (array vs) = tt
text_of-Each test (object fs) = tt

pub text_of-fits : (max : ℕ) (v : Json) → Each (λ (s : Text). length s ≤ max) (text_of (fits max) v)
unfolding fits
text_of-fits max v =
    Each-map (λ s h. leb→le (length s) max h) (text_of (fits max) v) (text_of-Each (fits max) v)

pub int-Each :
    (least : ℕ) (v : Json) → Each (λ n. (least ≤ n) × (n ≤ max_safe_integer)) (int least v)
int-Each least v =
    Each-of (λ n. (least ≤ n) × (n ≤ max_safe_integer)) (int least v) λ n e. int_bounds least v e

pub length-those_of-le {ℓ} :
    {A : Type ℓ} (f : Json → Option A) (vs : List Json) → length (those_of f vs) ≤ length vs
unfolding those_of add_some
length-those_of-le f [] = omega arith
length-those_of-le f (v ∷ vs) = elim (Option-cases (f v)) [
  | inl e ↦ rw e (omega (arith, length-those_of-le f vs))
  | inr (a, e) ↦ rw e (omega (arith, length-those_of-le f vs))
]

module _ {ℓ} {A : Type ℓ} (P : A → Type 0) (f : Json → Option A) where
  pub all_of-All :
      ((v : Json) → Each P (f v))
      → (vs : List Json) → Each (λ (xs : List A). All P xs × (length xs ≡ length vs)) (all_of f vs)
  unfolding all_of
  all_of-All h [] = (tt, refl)
  all_of-All h (v ∷ vs) =
      let Good : ℕ → List A → Type 0 = λ n xs. All P xs × (length xs ≡ n) in
      Each-bind (Good (suc (length vs))) (f v) _ λ a e.
        Each-bind (Good (suc (length vs))) (all_of f vs) _ λ xs e'.
          let ih = subst (Each (Good (length vs))) e' (all_of-All h vs) in
          ((subst (Each P) e (h v), ih.0), ap suc ih.1)

  add_some-All : (o : Option A) (xs : List A) → Each P o → All P xs → All P (add_some o xs)
  unfolding add_some
  add_some-All none xs h k = k
  add_some-All (some x) xs h k = (h, k)

  pub those_of-All : ((v : Json) → Each P (f v)) → (vs : List Json) → All P (those_of f vs)
  unfolding those_of
  those_of-All h [] = tt
  those_of-All h (v ∷ vs) = add_some-All (f v) _ (h v) (those_of-All h vs)

module _ {ℓ} {A : Type ℓ} (P : A → Type 0) (f : Json → Option A)
    (h : (v : Json) → Each P (f v)) where
  wrapped-Each : (v : Json) → Each (Each P) (f v >>= λ a. some (some a))
  wrapped-Each v = Each-bind (Each P) (f v) _ λ a e. subst (Each P) e (h v)

  pub optional-Each : (v : Json) → Each (Each P) (optional f v)
  unfolding optional
  optional-Each undefined = tt
  optional-Each null = wrapped-Each null
  optional-Each (boolean b) = wrapped-Each (boolean b)
  optional-Each (number n) = wrapped-Each (number n)
  optional-Each (string s) = wrapped-Each (string s)
  optional-Each (array vs) = wrapped-Each (array vs)
  optional-Each (object fs) = wrapped-Each (object fs)

  pub nullable-Each : (v : Json) → Each (Each P) (nullable f v)
  unfolding nullable
  nullable-Each undefined = wrapped-Each undefined
  nullable-Each null = tt
  nullable-Each (boolean b) = wrapped-Each (boolean b)
  nullable-Each (number n) = wrapped-Each (number n)
  nullable-Each (string s) = wrapped-Each (string s)
  nullable-Each (array vs) = wrapped-Each (array vs)
  nullable-Each (object fs) = wrapped-Each (object fs)

  pub missing-Each : (v : Json) → Each (Each P) (missing f v)
  unfolding missing
  missing-Each undefined = tt
  missing-Each null = tt
  missing-Each (boolean b) = wrapped-Each (boolean b)
  missing-Each (number n) = wrapped-Each (number n)
  missing-Each (string s) = wrapped-Each (string s)
  missing-Each (array vs) = wrapped-Each (array vs)
  missing-Each (object fs) = wrapped-Each (object fs)

-- The continuations of a chain, with what the step before has found.
module _ {ℓ κ} {A : Type ℓ} {B : Type κ} (Q : B → Type 0) where
  pub Each-then :
      (P : A → Type 0) (m : Option A) (f : A → Option B)
      → Each P m
      → ((a : A) → P a → Each Q (f a))
      → Each Q (m >>= f)
  Each-then P none f h k = tt
  Each-then P (some a) f h k = k a h

module _ {κ} {B : Type κ} (Q : B → Type 0) where
  pub Each-text :
      (test : Text → Bool) (v : Json) (f : Text → Option B)
      → ((s : Text) → test s ≡ true → Each Q (f s))
      → Each Q (text_of test v >>= f)
  Each-text test v f k = Each-then Q (λ s. test s ≡ true) (text_of test v) f (text_of-Each test v) k

  pub Each-fits :
      (max : ℕ) (v : Json) (f : Text → Option B)
      → ((s : Text) → length s ≤ max → Each Q (f s))
      → Each Q (text_of (fits max) v >>= f)
  unfolding fits
  Each-fits max v f k = Each-text (fits max) v f λ s h. k s (leb→le (length s) max h)

  pub Each-int :
      (least : ℕ) (v : Json) (f : ℕ → Option B)
      → ((n : ℕ) → least ≤ n → n ≤ max_safe_integer → Each Q (f n))
      → Each Q (int least v >>= f)
  Each-int least v f k =
      Each-bind Q (int least v) f λ n e. k n (int_bounds least v e).0 (int_bounds least v e).1
