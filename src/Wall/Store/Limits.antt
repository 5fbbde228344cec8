-- ===== src/Wall/Store/Limits.antt =====
-- The limits of the wall hold as long as the host asks `admit` before it adds.
use filenymous.Prelude.{
  ℕ, ◌+◌, ◌≤◌, ◌≡◌, refl, inl, inr, Bool, true, ◌&&◌, not, none, List, [], ◌∷◌, arith, Text,
  text_eq, length, All, Bool-cases, Option-cases,
}
use filenymous.JsMap
use filenymous.JsMap.{JsMap, size-set, size-delete-le, has-get, All-set, All-delete}
use filenymous.Wall.Store.{
  max_item_bytes, max_wall_bytes, max_items, max_text_bytes, is_text, admit_item, Stored, WallStore,
  used_in, used, admit, Input, item_id, new_meta, add, take_item, remove, wipe, empty, Call, adds,
  takes, removes, wipes, add_admitted, step, run,
}

-- What an item keeps of its kind, its size and its id.
pub record IsItem (e : Text × Stored) : Type 0 where
  pub keyed : e.1.meta.id ≡ e.0
  pub measured : e.1.meta.size ≡ length e.1.bytes
  pub small : e.1.meta.size ≤ max_item_bytes
  pub note : is_text e.1.meta.kind ≡ true → (1 ≤ e.1.meta.size) × (e.1.meta.size ≤ max_text_bytes)

pub record IsValid (w : WallStore) : Type 0 where
  pub sound : All IsItem w.items
  pub few : JsMap.size w.items ≤ max_items
  pub fits : used w ≤ max_wall_bytes

used_in-set_le :
    (k : Text) (s : Stored) (m : JsMap Stored) → used_in (JsMap.set k s m) ≤ used_in m + s.meta.size
unfolding used_in JsMap.set
used_in-set_le k s [] = omega arith
used_in-set_le k s ((j, t) ∷ m) = ground (arith, used_in-set_le k s m)

used_in-delete_le : (k : Text) (m : JsMap Stored) → used_in (JsMap.delete k m) ≤ used_in m
unfolding used_in JsMap.delete
used_in-delete_le k [] = omega arith
used_in-delete_le k ((j, t) ∷ m) = ground (arith, used_in-delete_le k m)

module _ (w : WallStore) (valid : IsValid w) where
  delete-IsValid : (id : Text) → IsValid (record w { items = JsMap.delete id w.items })
  unfolding used
  delete-IsValid id = record {
    sound = All-delete IsItem id w.items valid.sound;
    few = omega (arith, size-delete-le id w.items, valid.few);
    fits = let old = valid.fits in omega (arith, used_in-delete_le id w.items);
  }

  take_item-IsValid : (id requester : Text) → IsValid (take_item w id requester).0
  unfolding take_item
  take_item-IsValid id requester = elim (Option-cases (JsMap.get id w.items)) [
    | inl e ↦ rw (e, take_item) valid
    | inr (s, e) ↦ elim (Bool-cases (w.burn && not (text_eq s.owner requester))) [
      | inl f ↦ rw (e, take_item, f) (delete-IsValid id)
      | inr f ↦ rw (e, take_item, f) valid
    ]
  ]

  add-IsValid :
      (input : Input) (now : ℕ) (random : Text)
      → admit w input.kind (length input.bytes) ≡ none
      → IsValid (add w input now random).0
  unfolding add admit admit_item used new_meta
  add-IsValid input now random h =
      let id = item_id (w.seq + 1) random in
      let stored : Stored = record {
        meta = new_meta id input now;
        owner = input.owner;
        bytes = input.bytes;
      } in
      let old = valid.fits in
      let bytes = used_in-set_le id stored w.items in
      let entries = size-set id stored w.items in
      let present = has-get id w.items in
      record {
        sound =
            All-set IsItem id stored w.items
              record {
                keyed = refl;
                measured = refl;
                small = ground arith;
                note = λ k. ground arith;
              }
              valid.sound;
        few = ground arith;
        fits = ground arith;
      }

pub step-IsValid : (w : WallStore) (c : Call) → IsValid w → IsValid (step w c)
unfolding step add_admitted remove wipe
step-IsValid w (adds input now random) valid =
    elim (Option-cases (admit w input.kind (length input.bytes))) [
      | inl e ↦ rw e (add-IsValid w valid input now random e)
      | inr (r, e) ↦ rw e valid
    ]
step-IsValid w (takes id requester) valid = take_item-IsValid w valid id requester
step-IsValid w (removes id) valid = delete-IsValid w valid id
step-IsValid w wipes valid =
    unfold used used_in in record { sound = tt; few = omega arith; fits = omega arith }

run-IsValid : (cs : List Call) (w : WallStore) → IsValid w → IsValid (run w cs)
unfolding run
run-IsValid [] w valid = valid
run-IsValid (c ∷ cs) w valid = run-IsValid cs (step w c) (step-IsValid w c valid)

-- Whatever the host has done with the store since it was made, with or without burning, adding only
-- what `admit` has no objection to: it holds at most 200 items and 1 GiB, each item stands under its
-- own id with the size of its bytes, at most 256 MiB, and a text has from 1 byte to 64 KiB.
pub run_store-IsValid : (burn : Bool) (cs : List Call) → IsValid (run (empty burn) cs)
unfolding used used_in
run_store-IsValid burn cs =
    run-IsValid cs (empty burn) record { sound = tt; few = omega arith; fits = omega arith }
