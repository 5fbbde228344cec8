-- ===== src/P2p/Links/Numerals.antt =====
-- Numbers in base 36 are read back.
use filenymous.Prelude.{
  ℕ, zero, suc, ◌+◌, ◌*◌, ◌/◌, ◌%◌, ◌<◌, ◌≤◌, ◌≡◌, refl, ◌∙◌, inl, inr, true, Bool-cases, [], ◌∷◌,
  ◌++◌, ltb, ltb→lt, lt→ltb, arith, Text, length, length-append, All, All-append,
}
use filenymous.Wall.Collab.{is_digit}
use filenymous.P2p.Links.{digit36, to_base36, value36, from_base36, in_base36}

unfoldable pub pow36 : ℕ → ℕ
pow36 zero = 1
pow36 (suc k) = 36 * pow36 k

value36-digit36 : (n : ℕ) → n < 36 → value36 (digit36 n) ≡ n
unfolding value36 digit36 is_digit
value36-digit36 n h = ground arith

in_base36-digit36 : (n : ℕ) → n < 36 → in_base36 (digit36 n) ≡ true
unfolding in_base36 digit36 is_digit
in_base36-digit36 n h = ground arith

from_base36-append :
    (a : ℕ) (s : Text) (c : ℕ) → from_base36 a (s ++ (c ∷ [])) ≡ from_base36 a s * 36 + value36 c
unfolding from_base36
from_base36-append a [] c = refl
from_base36-append a (d ∷ s) c = from_base36-append (a * 36 + value36 d) s c

pub from_base36-to_base36 :
    (digits n : ℕ) → n < pow36 digits → from_base36 0 (to_base36 digits n) ≡ n
unfolding to_base36 from_base36 pow36
from_base36-to_base36 zero n h = omega arith
from_base36-to_base36 (suc digits) n h = elim (Bool-cases (ltb n 36)) [
  | inl e ↦ rw e (omega (arith, value36-digit36 n (ltb→lt n 36 e)))
  | inr e ↦
      let rest = from_base36-to_base36 digits (n / 36) (omega arith) in
      let last = value36-digit36 (n % 36) (omega arith) in
      rw e (
        from_base36-append 0 (to_base36 digits (n / 36)) (digit36 (n % 36))
        ∙ omega (arith, rest, last))
]

pub to_base36-All : (digits n : ℕ) → All (λ c. in_base36 c ≡ true) (to_base36 digits n)
unfolding to_base36
to_base36-All zero n = tt
to_base36-All (suc digits) n = elim (Bool-cases (ltb n 36)) [
  | inl e ↦ rw e (in_base36-digit36 n (ltb→lt n 36 e), tt)
  | inr e ↦ rw e (
      All-append (λ c. in_base36 c ≡ true) (to_base36 digits (n / 36)) (digit36 (n % 36) ∷ [])
        (to_base36-All digits (n / 36)) (in_base36-digit36 (n % 36) (omega arith), tt))
]

-- As many digits as the power says, and one at least.
pub length-to_base36 :
    (digits k n : ℕ)
    → n < pow36 (suc k)
    → k < digits
    → (1 ≤ length (to_base36 digits n)) × (length (to_base36 digits n) ≤ suc k)
unfolding to_base36 pow36
length-to_base36 zero k n h l = ground arith
length-to_base36 (suc digits) zero n h l = rw (lt→ltb n 36 (omega arith)) (omega arith, omega arith)
length-to_base36 (suc digits) (suc k) n h l = elim (Bool-cases (ltb n 36)) [
  | inl e ↦ rw e (omega arith, omega arith)
  | inr e ↦
      let rest = length-to_base36 digits k (n / 36) (omega (arith, h)) (omega (arith, l)) in
      let all_of = length-append (to_base36 digits (n / 36)) (digit36 (n % 36) ∷ []) in
      rw e (omega (arith, all_of), omega (arith, all_of, rest.1))
]
