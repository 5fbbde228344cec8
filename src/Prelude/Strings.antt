-- ===== src/Prelude/Strings.antt =====
-- JavaScript strings as lists of UTF-16 code units, and the string operations that the sources call.
use Prim.Native.Char.{code}
use Prim.Native.String.{String}
use Prim.Native.Nat.{ℕ, ◌≤◌}
use mathlib.Core.Path.{◌≡◌, refl}
use mathlib.Core.Logic.{◌↔◌}
use mathlib.Core.Bool.{Bool, true, false, ◌&&◌, ◌||◌}
use mathlib.Core.List.{List, [], ◌∷◌, reverse}
use native.Mathlib.Omega.{arith}
use filenymous.Prelude.Tests.{leb, ◌==◌, if◌then◌else◌}
use filenymous.Prelude.Lists.{length, length-reverse, All, All-reverse}

abbrev pub Text : Type 0
Text = List ℕ

-- The code units of a literal in the Basic Multilingual Plane.
abbrev pub codes : String → Text
codes String.[] = []
codes (String.◌∷◌ c s) = code c ∷ codes s

-- `a === b`
unfoldable pub text_eq : Text → Text → Bool
text_eq [] [] = true
text_eq [] (_ ∷ _) = false
text_eq (_ ∷ _) [] = false
text_eq (x ∷ xs) (y ∷ ys) = (x == y) && text_eq xs ys

pub text_eq_iff : (a b : Text) → (text_eq a b ≡ true) ↔ (a ≡ b)
unfolding text_eq
text_eq_iff [] [] = (λ _. refl, λ _. refl)
text_eq_iff [] (y ∷ ys) = ground arith
text_eq_iff (x ∷ xs) [] = ground arith
text_eq_iff (x ∷ xs) (y ∷ ys) = ground (arith, text_eq_iff xs ys)

pub text_eq_refl : (a : Text) → text_eq a a ≡ true
text_eq_refl a = (text_eq_iff a a).1 refl

-- White space of `trim` and of `\s`.
unfoldable pub is_space : ℕ → Bool
is_space c =
    (leb 9 c && leb c 13)
    || c == 32
    || c == 0xa0
    || c == 0x1680
    || (leb 0x2000 c && leb c 0x200a)
    || c == 0x2028
    || c == 0x2029
    || c == 0x202f
    || c == 0x205f
    || c == 0x3000
    || c == 0xfeff

unfoldable pub trim_start : Text → Text
trim_start [] = []
trim_start (c ∷ s) = let rest = trim_start s in if is_space c then rest else c ∷ s

-- `s.trim()`
unfoldable pub trim : Text → Text
unfolding trim_start is_space
trim s = reverse (trim_start (reverse (trim_start s)))

-- `s.replace(/\r\n?/g, "\n")`; the flag says that the unit before was a carriage return.
newlines_from : Bool → Text → Text
newlines_from after_cr [] = []
newlines_from after_cr (c ∷ s) =
    let rest = newlines_from (c == 13) s in
    if c == 13 then 10 ∷ rest else if after_cr && c == 10 then rest else c ∷ rest

unfoldable pub unify_newlines : Text → Text
unfolding newlines_from
unify_newlines s = newlines_from false s

module _ {ℓ} (P : ℕ → Type ℓ) where
  pub All-trim_start : (s : Text) → All P s → All P (trim_start s)
  unfolding trim_start
  All-trim_start [] h = tt
  All-trim_start (c ∷ s) h = ground (arith, All-trim_start s)

  pub All-trim : (s : Text) → All P s → All P (trim s)
  unfolding trim
  All-trim s h = All-reverse P _ (All-trim_start _ (All-reverse P _ (All-trim_start s h)))

  All-newlines_from : (b : Bool) (s : Text) → P 10 → All P s → All P (newlines_from b s)
  unfolding newlines_from
  All-newlines_from b [] nl h = tt
  All-newlines_from b (c ∷ s) nl h = ground (arith, All-newlines_from (c == 13) s)

  pub All-unify_newlines : (s : Text) → P 10 → All P s → All P (unify_newlines s)
  unfolding unify_newlines
  All-unify_newlines s nl h = All-newlines_from false s nl h

-- `s.replace(/[…]/g, "")` for a class of units
unfoldable pub strip : (ℕ → Bool) → Text → Text
strip drops [] = []
strip drops (c ∷ s) = let rest = strip drops s in if drops c then rest else c ∷ rest

-- No unit of the class is left.
pub strip-All : (drops : ℕ → Bool) (s : Text) → All (λ c. drops c ≡ false) (strip drops s)
unfolding strip
strip-All drops [] = tt
strip-All drops (c ∷ s) = ground (arith, strip-All drops s)

pub length-strip-le : (drops : ℕ → Bool) (s : Text) → length (strip drops s) ≤ length s
unfolding strip
length-strip-le drops [] = omega arith
length-strip-le drops (c ∷ s) = ground (arith, length-strip-le drops s)

-- `s.replace(/[…]/g, " ")` for a class of units
unfoldable pub blank : (ℕ → Bool) → Text → Text
blank drops [] = []
blank drops (c ∷ s) = (if drops c then 32 else c) ∷ blank drops s

collapse_from : Bool → Text → Text
collapse_from after_space [] = []
collapse_from after_space (c ∷ s) =
    let rest = collapse_from (is_space c) s in
    if is_space c then if after_space then rest else 32 ∷ rest else c ∷ rest

-- `s.replace(/\s+/g, " ")`
unfoldable pub collapse_spaces : Text → Text
unfolding collapse_from is_space
collapse_spaces s = collapse_from false s

pub length-trim_start-le : (s : Text) → length (trim_start s) ≤ length s
unfolding trim_start
length-trim_start-le [] = omega arith
length-trim_start-le (c ∷ s) = ground (arith, length-trim_start-le s)

pub length-trim-le : (s : Text) → length (trim s) ≤ length s
unfolding trim
length-trim-le s = omega (
  arith,
  length-reverse (trim_start (reverse (trim_start s))),
  length-trim_start-le (reverse (trim_start s)),
  length-reverse (trim_start s),
  length-trim_start-le s,
)

length-collapse_from-le : (b : Bool) (s : Text) → length (collapse_from b s) ≤ length s
unfolding collapse_from
length-collapse_from-le b [] = omega arith
length-collapse_from-le b (c ∷ s) = ground (arith, length-collapse_from-le (is_space c) s)

pub length-collapse_spaces-le : (s : Text) → length (collapse_spaces s) ≤ length s
unfolding collapse_spaces
length-collapse_spaces-le s = length-collapse_from-le false s

module _ (P : ℕ → Type 0) where
  All-collapse_from : (b : Bool) (s : Text) → P 32 → All P s → All P (collapse_from b s)
  unfolding collapse_from
  All-collapse_from b [] p h = tt
  All-collapse_from b (c ∷ s) p h = ground (arith, All-collapse_from (is_space c) s)

  pub All-collapse_spaces : (s : Text) → P 32 → All P s → All P (collapse_spaces s)
  unfolding collapse_spaces
  All-collapse_spaces s p h = All-collapse_from false s p h
