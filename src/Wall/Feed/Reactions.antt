-- ===== src/Wall/Feed/Reactions.antt =====
-- A click on a reaction flips the member's own reaction with that emoji, and no other.
use filenymous.Prelude.{
  ◌+◌, ◌≤◌, ◌≡◌, ◌≢◌, refl, sym, ap, ◌∙◌, ◌⊎◌, inl, inr, Bool, true, false, not, Option, none, some,
  List, [], ◌∷◌, ◌++◌, arith, leb, subst, if◌then◌else◌, Text, text_eq, text_eq_iff, Bool-cases,
  Option-cases,
}
use mathlib.Core.Option.{some-injective}
use filenymous.JsMap
use filenymous.JsMap.{JsMap, set_found, get-set, get-delete, size-set, size-delete-le, has-get}
use filenymous.Wall.Feed.{Post, includes, without, max_reaction_kinds, toggled, toggle_reaction}
use filenymous.Wall.Feed.Votes.{includes-without, includes-append}

abbrev stands : Text → Option (List Text) → Bool
stands label none = false
stands label (some who) = includes label who

-- The member reacts with the emoji.
abbrev pub reacts : Text → Text → JsMap (List Text) → Bool
reacts label emoji reactions = stands label (JsMap.get emoji reactions)

-- Some member stands behind each emoji, and there are at most 20 emoji.
pub record IsReactions (reactions : JsMap (List Text)) : Type 0 where
  pub few : JsMap.size reactions ≤ max_reaction_kinds
  pub someone : (emoji : Text) → JsMap.get emoji reactions ≢ some []

List-cases : {A : Type 0} (xs : List A) → (xs ≡ []) ⊎ ((y : A) × (ys : List A) × (xs ≡ y ∷ ys))
List-cases [] = inl refl
List-cases (x ∷ xs) = inr (x, xs, refl)

append_not_empty : {A : Type 0} (x : A) (xs : List A) → (xs ++ x ∷ []) ≢ []
append_not_empty x [] e = ground arith
append_not_empty x (y ∷ xs) e = ground arith

-- What a click turns a member's reaction into.
abbrev pub Flips : Text → Text → JsMap (List Text) → JsMap (List Text) → Type 0
Flips emoji label before after =
    (l e : Text)
    → reacts l e after ≡ (
        if text_eq emoji e
        then (if text_eq label l then not (reacts l e before) else reacts l e before)
        else reacts l e before)

module _ (emoji label : Text) (before after : JsMap (List Text)) where
  -- One entry is written, and in it the member's label comes or goes.
  written-Flips :
      (new : Option (List Text))
      → ((e : Text) → JsMap.get e after ≡ (if text_eq emoji e then new else JsMap.get e before))
      → ((l : Text)
          → stands l new ≡ (
              if text_eq label l
              then not (stands l (JsMap.get emoji before))
              else stands l (JsMap.get emoji before)))
      → Flips emoji label before after
  written-Flips new at flip l e = elim (Bool-cases (text_eq emoji e)) [
    | inl h ↦
        subst
          (λ k. reacts l k after ≡ (
            if text_eq emoji k
            then (if text_eq label l then not (reacts l k before) else reacts l k before)
            else reacts l k before))
          ((text_eq_iff emoji e).0 h) (rw (at emoji, (text_eq_iff emoji emoji).1 refl) (flip l))
    | inr h ↦ rw (at e, h) refl
  ]

  own : (l : Text) (who : List Text) → text_eq label l ≡ true → includes l who ≡ includes label who
  own l who h = ap (λ k. includes k who) (sym ((text_eq_iff label l).0 h))

  toggled-Flips : toggled emoji label before ≡ some after → Flips emoji label before after
  unfolding toggled
  toggled-Flips h = elim (Option-cases (JsMap.get emoji before)) [
    | inl g ↦ elim (Bool-cases (leb max_reaction_kinds (JsMap.size before))) [
      | inl f ↦ let no_map = rw (g, toggled, f) at h in ground arith
      | inr f ↦
          let same = some-injective _ after (rw (g, toggled, f) at h) in
          written-Flips (some (label ∷ []))
            (λ e. ap (JsMap.get e) (sym same) ∙ get-set emoji e (label ∷ []) before)
            λ l. rw g (unfold includes in ground arith)
    ]
    | inr (who, g) ↦ elim (Bool-cases (includes label who)) [
      | inl f ↦ elim (List-cases (without label who)) [
        | inl none_left ↦
            let same = some-injective _ after (rw (g, toggled, f, none_left) at h) in
            written-Flips none (λ e. ap (JsMap.get e) (sym same) ∙ get-delete emoji e before)
              λ l. rw g (
                let c = includes-without l label who in
                let o = own l who in
                let e = ap (includes l) none_left in unfold includes in ground arith)
        | inr (x, xs, left) ↦
            let same = some-injective _ after (rw (g, toggled, f, left) at h) in
            written-Flips (some (x ∷ xs))
              (λ e. ap (JsMap.get e) (sym same) ∙ get-set emoji e (x ∷ xs) before)
              λ l. rw g (
                let c = includes-without l label who in
                let o = own l who in let e = ap (includes l) left in ground arith)
      ]
      | inr f ↦
          let same = some-injective _ after (rw (g, toggled, f) at h) in
          written-Flips (some (who ++ label ∷ []))
            (λ e. ap (JsMap.get e) (sym same) ∙ get-set emoji e (who ++ label ∷ []) before)
            λ l. rw g (let c = includes-append l label who in let o = own l who in ground arith)
    ]
  ]

  set-IsReactions :
      (who : List Text)
      → IsReactions before
      → who ≢ []
      → (JsMap.get emoji before ≡ none → JsMap.size before + 1 ≤ max_reaction_kinds)
      → IsReactions (JsMap.set emoji who before)
  set-IsReactions who valid full room = record {
    few = ground (arith, size-set emoji who before, has-get emoji before, valid.few);
    someone = λ e k. elim (set_found emoji e who before k) [
      | inl (here, new) ↦ full new
      | inr (there, old) ↦ valid.someone e old
    ];
  }

  toggled-IsReactions :
      IsReactions before → toggled emoji label before ≡ some after → IsReactions after
  unfolding toggled
  toggled-IsReactions valid h = elim (Option-cases (JsMap.get emoji before)) [
    | inl g ↦ elim (Bool-cases (leb max_reaction_kinds (JsMap.size before))) [
      | inl f ↦ let no_map = rw (g, toggled, f) at h in ground arith
      | inr f ↦
          subst IsReactions (some-injective _ after (rw (g, toggled, f) at h))
            (set-IsReactions (label ∷ []) valid (λ e. ground arith) (λ has. ground arith))
    ]
    | inr (who, g) ↦ elim (Bool-cases (includes label who)) [
      | inl f ↦ elim (List-cases (without label who)) [
        | inl none_left ↦
            subst IsReactions (some-injective _ after (rw (g, toggled, f, none_left) at h)) record {
              few = omega (arith, valid.few, size-delete-le emoji before);
              someone = λ e k. let m = get-delete emoji e before in valid.someone e (ground arith);
            }
        | inr (x, xs, left) ↦
            subst IsReactions (some-injective _ after (rw (g, toggled, f, left) at h))
              (set-IsReactions (x ∷ xs) valid (λ e. ground arith) (λ missing. ground arith))
      ]
      | inr f ↦ subst IsReactions (some-injective _ after (rw (g, toggled, f) at h)) (
          set-IsReactions (who ++ label ∷ []) valid (append_not_empty label who)
            (λ missing. ground arith))
    ]
  ]

toggled_full :
    (emoji label : Text) (before : JsMap (List Text))
    → toggled emoji label before ≡ none
    → (JsMap.get emoji before ≡ none) × (max_reaction_kinds ≤ JsMap.size before)
unfolding toggled
toggled_full emoji label before h = elim (Option-cases (JsMap.get emoji before)) [
  | inl g ↦ elim (Bool-cases (leb max_reaction_kinds (JsMap.size before))) [
    | inl f ↦ (g, ground arith)
    | inr f ↦ let no_map = rw (g, toggled, f) at h in ground arith
  ]
  | inr (who, g) ↦ elim (Bool-cases (includes label who)) [
    | inl f ↦ elim (List-cases (without label who)) [
      | inl none_left ↦ let no_map = rw (g, toggled, f, none_left) at h in ground arith
      | inr (x, xs, left) ↦ let no_map = rw (g, toggled, f, left) at h in ground arith
    ]
    | inr f ↦ let no_map = rw (g, toggled, f) at h in ground arith
  ]
]

-- A click on an emoji keeps the reactions so that each emoji has some member behind it and there
-- are at most 20 emoji, and changes nothing else of the post. It is refused, and the post stays as
-- it was, only if the text is not an emoji or if it would be a new one beyond the 20; otherwise it
-- flips the member's reaction with this emoji, and no other reaction of any member.
pub toggle_reaction-Flips :
    (is_emoji : Text → Bool) (post : Post) (emoji label : Text)
    → IsReactions post.reactions
    → (q : JsMap (List Text)) × (toggle_reaction is_emoji post emoji label
        ≡ record post { reactions = q })
      × IsReactions q
      × (((q ≡ post.reactions)
            × ((is_emoji emoji ≡ false)
                ⊎ ((JsMap.get emoji post.reactions ≡ none)
                    × (max_reaction_kinds ≤ JsMap.size post.reactions))))
          ⊎ Flips emoji label post.reactions q)
unfolding toggle_reaction
toggle_reaction-Flips is_emoji post emoji label valid = elim (Bool-cases (is_emoji emoji)) [
  | inr f ↦ (post.reactions, rw f refl, valid, inl (refl, inl f))
  | inl f ↦ elim (Option-cases (toggled emoji label post.reactions)) [
    | inl g ↦ (
      post.reactions,
      rw (f, g) refl,
      valid,
      inl (refl, inr (toggled_full emoji label post.reactions g)),
    )
    | inr (q, g) ↦ (
      q,
      rw (f, g) refl,
      toggled-IsReactions emoji label post.reactions q valid g,
      inr (toggled-Flips emoji label post.reactions q g),
    )
  ]
]
