-- ===== src/Wall/Scope/Visibility.antt =====
-- What an agent in limited view sees.
use filenymous.Prelude.{
  ◌≡◌, ◌≤◌, length, refl, ap, inl, inr, ◌⊎◌, ◌↔◌, Bool, true, false, Option, none, some, [], ◌∷◌,
  Text, text_eq, text_eq_iff, text_eq_refl, any, arith, Bool-cases,
}
use filenymous.Wall.Scope.{AgentScope, Visible, is_label_of, answers, is_limited, visible_to}

-- The ways in which an entry concerns a member, or was shared with it.
pub data Concerns (label : Text) (shared : Text → Bool) (e : Visible) (by_of : Text → Option Text)
    : Type 0 where
  wrote : e.by ≡ label → Concerns label shared e by_of
  was_shown : shared e.id ≡ true → Concerns label shared e by_of
  mentioned : any (λ m. text_eq m label) e.mentions ≡ true → Concerns label shared e by_of
  owns : e.owner ≡ some label → Concerns label shared e by_of
  answered :
      (id : Text)
      → 1 ≤ length id
      → e.reply_to ≡ some id
      → by_of id ≡ some label
      → Concerns label shared e by_of

is_label_of-some : (label : Text) (o : Option Text) → is_label_of label o ≡ true → o ≡ some label
unfolding is_label_of
is_label_of-some label none h = ground arith
is_label_of-some label (some l) h = ap (λ k. some k) ((text_eq_iff l label).0 h)

answers_sound :
    (label : Text) (by_of : Text → Option Text) (o : Option Text)
    → answers label by_of o ≡ true
    → (id : Text) × (1 ≤ length id) × (o ≡ some id) × (by_of id ≡ some label)
unfolding answers
answers_sound label by_of none h = ground arith
answers_sound label by_of (some []) h = ground arith
answers_sound label by_of (some (c ∷ s)) h =
    (c ∷ s, omega arith, refl, is_label_of-some label (by_of (c ∷ s)) h)

answers_complete :
    (label : Text) (by_of : Text → Option Text) (id : Text)
    → 1 ≤ length id
    → by_of id ≡ some label
    → answers label by_of (some id) ≡ true
unfolding answers is_label_of
answers_complete label by_of [] h e = ground arith
answers_complete label by_of (c ∷ s) h e = rw e (text_eq_refl label)

module _ (label : Text) (scope : Option AgentScope) (shared : Text → Bool) (e : Visible)
    (by_of : Text → Option Text) where
  visible_to_sound :
      visible_to label scope shared e by_of ≡ true
      → (is_limited scope ≡ false) ⊎ Concerns label shared e by_of
  unfolding visible_to
  visible_to_sound h = elim (Bool-cases (is_limited scope)) [
    | inr free ↦ inl free
    | inl l ↦ elim (Bool-cases (text_eq e.by label)) [
      | inl w ↦ inr (wrote ((text_eq_iff e.by label).0 w))
      | inr w ↦ elim (Bool-cases (shared e.id)) [
        | inl k ↦ inr (was_shown k)
        | inr k ↦ elim (Bool-cases (any (λ m. text_eq m label) e.mentions)) [
          | inl m ↦ inr (mentioned m)
          | inr m ↦ elim (Bool-cases (is_label_of label e.owner)) [
            | inl o ↦ inr (owns (is_label_of-some label e.owner o))
            | inr o ↦
                let a = answers_sound label by_of e.reply_to (rw (l, w, k, m, o) at h) in
                inr (answered a.0 a.1 a.2 a.3)
          ]
        ]
      ]
    ]
  ]

  visible_to_complete : Concerns label shared e by_of → visible_to label scope shared e by_of ≡ true
  unfolding visible_to is_label_of
  visible_to_complete (wrote w) = let k = (text_eq_iff e.by label).1 w in ground arith
  visible_to_complete (was_shown k) = ground arith
  visible_to_complete (mentioned m) = ground arith
  visible_to_complete (owns o) = let k = text_eq_refl label in rw o (ground arith)
  visible_to_complete (answered id full r b) =
      let a = answers_complete label by_of id full b in rw r (ground arith)

-- An agent that is not in limited view sees every entry, and one that is sees exactly what it wrote,
-- what was shared with it, what mentions it, what it owns and what answers an entry that it wrote.
pub visible_to-Concerns :
    (label : Text) (scope : Option AgentScope) (shared : Text → Bool) (e : Visible)
    (by_of : Text → Option Text)
    → (visible_to label scope shared e by_of ≡ true)
      ↔ ((is_limited scope ≡ false) ⊎ Concerns label shared e by_of)
visible_to-Concerns label scope shared e by_of = (
  visible_to_sound label scope shared e by_of,
  λ h. elim h [
    | inl free ↦ unfold visible_to in ground arith
    | inr c ↦ visible_to_complete label scope shared e by_of c
  ],
)
