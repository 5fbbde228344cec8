-- ===== src/Wall/Board/Convergence.antt =====
-- `mergeScene`: clients that receive the same elements in different orders end with the same scene.
use mathlib.Core.Logic.{∥∥₁_elim}
use mathlib.Core.List.{Perm}
use mathlib.Core.List.{Permᴰ}
use filenymous.Prelude.{
  ◌≡◌, refl, subst, sym, ap, ◌∙◌, Bool, false, Option, none, some, List, [], ◌∷◌, arith,
  if◌then◌else◌, Text, text_eq, text_eq_iff, All,
}
use filenymous.JsMap
use filenymous.JsMap.{JsMap, get-set}
use filenymous.Wall.Board.{BoardElement, newer_element, absorb, by_id, merged}
use filenymous.Wall.Board.Versions.{SameRank, newer_than_trans, newer_than_total, newer_than_asym}

-- The element that stands after `r` arrived.
best : Option BoardElement → BoardElement → Option BoardElement
best o r = if newer_element r o then some r else o

-- The element with the id `j` after the arrivals, from the one that was there.
winner : Text → Option BoardElement → List BoardElement → Option BoardElement
winner j o [] = o
winner j o (r ∷ rs) = winner j (if text_eq r.id j then best o r else o) rs

get-absorb :
    (j : Text) (m : JsMap BoardElement) (changed : Bool) (rs : List BoardElement)
    → JsMap.get j (absorb (m, changed) rs).0 ≡ winner j (JsMap.get j m) rs
unfolding absorb winner best
get-absorb j m changed [] = refl
get-absorb j m changed (r ∷ rs) =
    get-absorb j (if newer_element r (JsMap.get r.id m) then JsMap.set r.id r m else m) _ rs
    ∙ ap (λ o. winner j o rs) (ground (arith, get-set r.id j r m, text_eq_iff r.id j))

-- The order of two arrivals does not matter, unless they differ and have the same rank.
best_comm :
    (o : Option BoardElement) (x y : BoardElement)
    → (SameRank x y → x ≡ y)
    → best (best o x) y ≡ best (best o y) x
unfolding best newer_element
best_comm none x y ties =
    ground (arith, newer_than_asym x y, newer_than_asym y x, newer_than_total x y)
best_comm (some c) x y ties = ground (
  arith,
  newer_than_asym x y,
  newer_than_asym y x,
  newer_than_total x y,
  newer_than_trans x y c,
  newer_than_trans y x c,
)

-- Among the elements that were sent, the id, the version and the nonce tell which one it is.
module _ (Sent : BoardElement → Type 0)
    (ties : (a b : BoardElement) → Sent a → Sent b → a.id ≡ b.id → SameRank a b → a ≡ b) where
  winner-swap :
      (j : Text) (o : Option BoardElement) (x y : BoardElement) (rs : List BoardElement)
      → Sent x
      → Sent y
      → winner j o (x ∷ y ∷ rs) ≡ winner j o (y ∷ x ∷ rs)
  unfolding winner
  winner-swap j o x y rs p q =
      ap (λ w. winner j w rs)
        (ground (arith, text_eq_iff x.id j, text_eq_iff y.id j, best_comm o x y, ties x y p q))

  All-Permᴰ : {xs ys : List BoardElement} → Permᴰ xs ys → All Sent xs → All Sent ys
  All-Permᴰ Permᴰ.nil h = tt
  All-Permᴰ (Permᴰ.cons e d) h = (subst Sent e h.0, All-Permᴰ d h.1)
  All-Permᴰ (Permᴰ.swap e f) h = (subst Sent f h.1.0, (subst Sent e h.0, h.1.1))
  All-Permᴰ (Permᴰ.trans d e) h = All-Permᴰ e (All-Permᴰ d h)

  winner-Permᴰ :
      {xs ys : List BoardElement} (j : Text) (o : Option BoardElement)
      → Permᴰ xs ys
      → All Sent xs
      → winner j o xs ≡ winner j o ys
  unfolding winner
  winner-Permᴰ j o Permᴰ.nil h = refl
  winner-Permᴰ j o (Permᴰ.cons {a = a} {l₂ = ys} e d) h =
      winner-Permᴰ j (if text_eq a.id j then best o a else o) d h.1
      ∙ ap (λ x. winner j o (x ∷ ys)) e
  winner-Permᴰ j o (Permᴰ.swap {a = a} {b = b} {a' = a'} {l = l} e f) h =
      winner-swap j o a b l h.0 h.1.0
      ∙ ap (λ x. winner j o (x ∷ a ∷ l)) f
      ∙ ap (λ y. winner j o (a' ∷ y ∷ l)) e
  winner-Permᴰ j o (Permᴰ.trans d e) h = winner-Permᴰ j o d h ∙ winner-Permᴰ j o e (All-Permᴰ d h)

  BoardElement-set : IsSet (Option BoardElement)
  BoardElement-set = hlevel

  -- Two clients with the same local elements that receive the same remote ones, in whatever orders,
  -- hold the same element under every id, if the id, the version and the nonce of an element that was
  -- sent tell which one it is.
  pub merged-converges :
      (local xs ys : List BoardElement)
      → All Sent xs
      → Perm xs ys
      → (j : Text) → JsMap.get j (merged local xs).0 ≡ JsMap.get j (merged local ys).0
  unfolding merged
  merged-converges local xs ys sent same j =
      get-absorb j (by_id [] local) false xs
      ∙ ∥∥₁_elim same (BoardElement-set _ _)
          (λ d. winner-Permᴰ j (JsMap.get j (by_id [] local)) d sent)
      ∙ sym (get-absorb j (by_id [] local) false ys)
