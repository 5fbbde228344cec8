-- ===== src/Wall/Collab.antt =====
-- ui/src/wall/collab.ts: what its parts share.
use filenymous.Prelude.{
  ℕ, ◌+◌, ◌≤◌, ◌≡◌, sym, subst, inl, inr, arith, Bool, true, Bool-cases, text_eq_iff, false, ◌&&◌,
  ◌||◌, Option, none, some, [], ◌∷◌, leb, ◌==◌, if◌then◌else◌, Text, codes, text_eq, length, take,
  trim, unify_newlines, strip, all, length-take-le, All, All-imply, All-all, ==_iff,
}
use filenymous.Prelude.Options.{Each, Each-map}

-- Control characters but line feed.
unfoldable pub is_dropped : ℕ → Bool
is_dropped c = leb c 9 || (leb 0xb c && leb c 0x1f) || c == 0x7f

unfoldable pub clean : Text → ℕ → Text
unfolding is_dropped unify_newlines strip trim
clean v max = take max (trim (strip is_dropped (unify_newlines v)))

pub length-clean : (v : Text) (max : ℕ) → length (clean v max) ≤ max
unfolding clean
length-clean v max = length-take-le max _

unfoldable pub is_digit : ℕ → Bool
is_digit c = leb b'0' c && leb c b'9'

unfoldable pub is_hex : ℕ → Bool
unfolding is_digit
is_hex c = is_digit c || (leb b'a' c && leb c b'f')

-- `/^(host|peer:\d{1,6})$/`
peer_number : Text → Bool
unfolding is_digit
peer_number s = leb 1 (length s) && leb (length s) 6 && all is_digit s

unfoldable pub after_prefix : Text → Text → Option Text
after_prefix [] s = some s
after_prefix (c ∷ p) [] = none
after_prefix (c ∷ p) (d ∷ s) = let rest = after_prefix p s in if c == d then rest else none

unfoldable pub is_label : Text → Bool
unfolding text_eq after_prefix peer_number
is_label s =
    text_eq s (codes "host")
    || elim (after_prefix (codes "peer:") s) [ none ↦ false | some n ↦ peer_number n ]

-- `/^t-[0-9a-f]{16}$/`
unfoldable pub is_task_id : Text → Bool
unfolding after_prefix is_hex
is_task_id s = elim (after_prefix (codes "t-") s) [
  | none ↦ false
  | some h ↦ length h == 16 && all is_hex h
]

-- `/^[A-Za-z0-9_-]{1,64}$/`, for results and for the elements of the board
unfoldable pub is_word_unit : ℕ → Bool
unfolding is_digit
is_word_unit c =
    is_digit c || (leb b'A' c && leb c b'Z') || (leb b'a' c && leb c b'z') || c == b'_' || c == b'-'

unfoldable pub is_result_id : Text → Bool
unfolding is_word_unit
is_result_id s = leb 1 (length s) && leb (length s) 64 && all is_word_unit s

pub length-after_prefix :
    (p s : Text) → Each (λ (r : Text). length s ≡ length p + length r) (after_prefix p s)
unfolding after_prefix
length-after_prefix [] s = omega arith
length-after_prefix (c ∷ p) [] = tt
length-after_prefix (c ∷ p) (d ∷ s) = elim (Bool-cases (c == d)) [
  | inl e ↦ rw e (Each-map (λ r h. omega (arith, h)) (after_prefix p s) (length-after_prefix p s))
  | inr e ↦ rw e tt
]

numbered :
    (o : Option Text) (s : Text)
    → Each (λ (r : Text). length s ≡ 5 + length r) o
    → elim o [ none ↦ false | some n ↦ peer_number n ] ≡ true
    → (1 ≤ length s) × (length s ≤ 11)
unfolding peer_number
numbered none s k h = ground arith
numbered (some r) s k h = ground arith

prefixed-All :
    (P : ℕ → Type 0) (p s : Text)
    → All P p
    → ((c : ℕ) → is_digit c ≡ true → P c)
    → elim (after_prefix p s) [ none ↦ false | some n ↦ peer_number n ] ≡ true
    → All P s
unfolding after_prefix peer_number
prefixed-All P [] s q digit h =
    All-imply (λ c. is_digit c ≡ true) P s digit (All-all is_digit s (ground arith))
prefixed-All P (c ∷ p) [] q digit h = tt
prefixed-All P (c ∷ p) (d ∷ s) (q, qs) digit h = elim (Bool-cases (c == d)) [
  | inl e ↦ (subst P ((==_iff c d).0 e) q, prefixed-All P p s qs digit (rw e at h))
  | inr e ↦ absurd (ground (arith, rw e at h))
]

-- What holds of the characters of "host" and "peer:" and of digits holds of those of a label.
pub is_label-All :
    (P : ℕ → Type 0)
    → All P (codes "host")
    → All P (codes "peer:")
    → ((c : ℕ) → is_digit c ≡ true → P c)
    → (s : Text) → is_label s ≡ true
    → All P s
unfolding is_label
is_label-All P in_host in_peer digit s h = elim (Bool-cases (text_eq s (codes "host"))) [
  | inl e ↦ subst (All P) (sym ((text_eq_iff s (codes "host")).0 e)) in_host
  | inr e ↦ prefixed-All P (codes "peer:") s in_peer digit (rw e at h)
]

pub is_label-bounds : (s : Text) → is_label s ≡ true → (1 ≤ length s) × (length s ≤ 11)
unfolding is_label
is_label-bounds s h = elim (Bool-cases (text_eq s (codes "host"))) [
  | inl e ↦
      subst (λ (t : Text). (1 ≤ length t) × (length t ≤ 11))
        (sym ((text_eq_iff s (codes "host")).0 e)) (omega arith, omega arith)
  | inr e ↦
      numbered (after_prefix (codes "peer:") s) s (length-after_prefix (codes "peer:") s)
        (rw e at h)
]
