-- ===== src/Wall/Store/Burn.antt =====
-- An item of a wall that burns is given once to anyone but its owner.
use filenymous.Prelude.{
  ◌≡◌, refl, ap, ◌∙◌, text_eq_refl, Bool-cases, inl, inr, true, false, ◌&&◌, not, none, some, Text,
  text_eq, arith,
}
use filenymous.JsMap
use filenymous.JsMap.{get-delete}
use filenymous.Wall.Store.{Stored, WallStore, take_item, peek}

module _ (w : WallStore) (id : Text) where
  emptied : WallStore
  emptied = record w { items = JsMap.delete id w.items }

  gone : JsMap.get id emptied.items ≡ none
  unfolding emptied
  gone = ground (arith, get-delete id id w.items, text_eq_refl id)

  take_item_burns :
      (requester : Text) (s : Stored)
      → w.burn ≡ true
      → JsMap.get id w.items ≡ some s
      → text_eq s.owner requester ≡ false
      → take_item w id requester
        ≡ (emptied, some (record { meta = s.meta; bytes = s.bytes; burned = true }))
  unfolding take_item emptied
  take_item_burns requester s burns here other =
      let burned : (w.burn && not (text_eq s.owner requester)) ≡ true = ground arith in
      rw (here, take_item, burned) refl

  take_item_after : (next : Text) → (take_item emptied id next).1 ≡ none
  unfolding take_item
  take_item_after next = rw (gone, take_item) refl

  peek_after : peek emptied id ≡ none
  unfolding peek
  peek_after = elim (Bool-cases emptied.burn) [ inl e ↦ rw e refl | inr e ↦ rw (e, gone) refl ]

-- On a wall that burns, an item that another member than its owner takes is handed over, and nobody
-- gets it again, the owner included, nor by the host's export; every other item stays as it was.
pub take_once :
    (w : WallStore) (id requester : Text) (s : Stored)
    → w.burn ≡ true
    → JsMap.get id w.items ≡ some s
    → text_eq s.owner requester ≡ false
    → ((take_item w id requester).1
        ≡ some (record { meta = s.meta; bytes = s.bytes; burned = true }))
      × ((next : Text) → (take_item (take_item w id requester).0 id next).1 ≡ none)
      × (peek (take_item w id requester).0 id ≡ none)
      × ((j : Text)
          → text_eq id j ≡ false
          → JsMap.get j (take_item w id requester).0.items ≡ JsMap.get j w.items)
take_once w id requester s burns here other =
    let done = take_item_burns w id requester s burns here other in
    (
      ap (λ r. r.1) done,
      λ next. ap (λ r. (take_item r.0 id next).1) done ∙ take_item_after w id next,
      ap (λ r. peek r.0 id) done ∙ peek_after w id,
      λ j apart. ap (λ r. JsMap.get j r.0.items) done ∙ others j apart,
    )
  where
    others :
        (j : Text) → text_eq id j ≡ false → JsMap.get j (emptied w id).items ≡ JsMap.get j w.items
    others j apart = unfold emptied in ground (arith, get-delete id j w.items)
