-- ===== src/Wall/Board/Progress.antt =====
-- What `merge` does to each element of the scene.
use filenymous.Prelude.{
  ℕ, ◌≡◌, ◌⊎◌, refl, inl, inr, true, false, Option, none, some, List, [], ◌∷◌, ◌++◌, arith, Text,
  text_eq, text_eq_iff, text_eq_refl, take, any, All, All-append, Bool-cases, subst, ◌∙◌,
}
use filenymous.Prelude.Json.{Json}
use filenymous.JsMap
use filenymous.JsMap.{JsMap, get-set}
use filenymous.Wall.Board.{
  BoardElement, BoardStore, newer_than, newer_element, merge_one, merge_all, merge,
  clean_board_element,
}
use filenymous.Wall.Board.Versions.{newer_than_trans}
use filenymous.Wall.Board.Capacity.{accept_cases}

-- From `old` to `new` nothing was lost and no version went back.
abbrev pub Advances : Option BoardElement → Option BoardElement → Type 0
Advances none new = Unit
Advances (some o) none = ⊥
Advances (some o) (some n) = (n ≡ o) ⊎ (newer_than n o ≡ true)

Advances-refl : (o : Option BoardElement) → Advances o o
Advances-refl none = tt
Advances-refl (some o) = inl refl

Advances-trans : (o p q : Option BoardElement) → Advances o p → Advances p q → Advances o q
Advances-trans none p q h k = tt
Advances-trans (some o) none q h k = absurd h
Advances-trans (some o) (some p) none h k = absurd k
Advances-trans (some o) (some p) (some q) h k = ground (arith, newer_than_trans q p o)

-- One step of a merge, from the store `b` to the store and the accepted elements of `r`.
record IsMerge (b : BoardStore) (r : BoardStore × List BoardElement) : Type 0 where
  forward : (j : Text) → Advances (JsMap.get j b.els) (JsMap.get j r.0.els)
  applied : All (λ a. Advances (some a) (JsMap.get a.id r.0.els)) r.1
  told :
      (j : Text)
      → any (λ (a : BoardElement). text_eq a.id j) r.1 ≡ false
      → JsMap.get j r.0.els ≡ JsMap.get j b.els

nothing-IsMerge : (b : BoardStore) → IsMerge b (b, [])
nothing-IsMerge b = record {
  forward = λ j. Advances-refl (JsMap.get j b.els);
  applied = tt;
  told = λ j _. refl;
}

newer-Advances :
    (el : BoardElement) (cur : Option BoardElement)
    → newer_element el cur ≡ true
    → Advances cur (some el)
unfolding newer_element
newer-Advances el none h = tt
newer-Advances el (some c) h = inr h

put-IsMerge :
    (b : BoardStore) (el : BoardElement) (chars : ℕ)
    → newer_element el (JsMap.get el.id b.els) ≡ true
    → IsMerge b (record { els = JsMap.set el.id el b.els; chars = chars }, el ∷ [])
put-IsMerge b el chars newer = record {
  forward = λ j. elim (Bool-cases (text_eq el.id j)) [
    | inl e ↦
        rw (get-set el.id j el b.els, e)
          (subst (λ k. Advances (JsMap.get k b.els) (some el)) ((text_eq_iff el.id j).0 e)
            (newer-Advances el (JsMap.get el.id b.els) newer))
    | inr e ↦ rw (get-set el.id j el b.els, e) (Advances-refl (JsMap.get j b.els))
  ];
  applied = (rw (get-set el.id el.id el b.els, text_eq_refl el.id) (inl refl), tt);
  told = λ j h. ground (arith, get-set el.id j el b.els);
}

merge_one-IsMerge : (b : BoardStore) (o : Option BoardElement) → IsMerge b (merge_one b o)
unfolding merge_one
merge_one-IsMerge b none = nothing-IsMerge b
merge_one-IsMerge b (some el) =
    accept_cases b el (JsMap.get el.id b.els) refl (IsMerge b) (nothing-IsMerge b)
      (λ newer _ _. put-IsMerge b el _ newer)

carry :
    (b c : BoardStore)
    → ((j : Text) → Advances (JsMap.get j b.els) (JsMap.get j c.els))
    → (es : List BoardElement) → All (λ a. Advances (some a) (JsMap.get a.id b.els)) es
    → All (λ a. Advances (some a) (JsMap.get a.id c.els)) es
carry b c on [] h = tt
carry b c on (a ∷ es) h =
    (Advances-trans (some a) (JsMap.get a.id b.els) _ h.0 (on a.id), carry b c on es h.1)

any_append :
    (j : Text) (xs ys : List BoardElement)
    → any (λ (a : BoardElement). text_eq a.id j) (xs ++ ys) ≡ false
    → (any (λ (a : BoardElement). text_eq a.id j) xs ≡ false)
      × (any (λ (a : BoardElement). text_eq a.id j) ys ≡ false)
any_append j [] ys h = (refl, h)
any_append j (x ∷ xs) ys h = ground (arith, any_append j xs ys)

join-IsMerge :
    (b c d : BoardStore) (xs ys : List BoardElement)
    → IsMerge b (c, xs)
    → IsMerge c (d, ys)
    → IsMerge b (d, xs ++ ys)
join-IsMerge b c d xs ys one others = record {
  forward = λ j.
      Advances-trans (JsMap.get j b.els) (JsMap.get j c.els) _ (one.forward j) (others.forward j);
  applied = All-append _ xs ys (carry c d others.forward xs one.applied) others.applied;
  told = λ j h. let parts = any_append j xs ys h in others.told j parts.1 ∙ one.told j parts.0;
}

merge_all-IsMerge : (b : BoardStore) (incoming : List Json) → IsMerge b (merge_all b incoming)
unfolding merge_all
merge_all-IsMerge b [] = nothing-IsMerge b
merge_all-IsMerge b (raw ∷ rest) =
    join-IsMerge b (merge_one b (clean_board_element raw)).0 _
      (merge_one b (clean_board_element raw)).1 _ (merge_one-IsMerge b (clean_board_element raw))
      (merge_all-IsMerge (merge_one b (clean_board_element raw)).0 rest)

-- A merge loses no element and takes no element back to an older version; each element that it
-- returns is in the scene, or was replaced by a newer one of the same batch; and an id that it does
-- not return has the element that it had.
pub merge-Advances :
    (b : BoardStore) (incoming : List Json)
    → ((j : Text) → Advances (JsMap.get j b.els) (JsMap.get j (merge b incoming).0.els))
      × All (λ a. Advances (some a) (JsMap.get a.id (merge b incoming).0.els)) (merge b incoming).1
      × ((j : Text)
          → any (λ (a : BoardElement). text_eq a.id j) (merge b incoming).1 ≡ false
          → JsMap.get j (merge b incoming).0.els ≡ JsMap.get j b.els)
unfolding merge
merge-Advances b incoming =
    let m = merge_all-IsMerge b (take 500 incoming) in (m.forward, m.applied, m.told)
