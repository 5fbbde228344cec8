-- ===== src/Wall/Board/Capacity.antt =====
-- The limits of the whiteboard, and what `merge` does to each element.
use filenymous.Prelude.{
  ℕ, ◌+◌, ◌-◌, ◌≤◌, ◌≡◌, refl, inl, inr, true, false, ◌&&◌, not, Option, none, some, List, [], ◌∷◌,
  arith, ltb, leb, Text, is_some, take, All, Bool-cases,
}
use filenymous.Prelude.Json.{
  Json, undefined, null, boolean, number, string, array, object, Fields, json_length, find,
  as_string, int, safe_integer, as_boolean,
}
use filenymous.Prelude.Options.{Each, Each-bind, Each-guard}
use filenymous.JsMap
use filenymous.JsMap.{JsMap, get-set, has-get, size-set, All-set}
use filenymous.Wall.Collab.{is_result_id}
use filenymous.Wall.Board.{
  BoardElement, BoardStore, max_board_chars, max_board_elements, max_element_chars, chars_of,
  chars_before, is_absent, newer_element, accept, merge_one, merge_all, merge, clear,
  clean_board_element, element_of, plain_json, is_one_of, board_types, clean_fields,
}

-- The characters of all elements.
abbrev pub total : JsMap BoardElement → ℕ
total [] = 0
total ((k, e) ∷ m) = chars_of e + total m

total-set :
    (k : Text) (e : BoardElement) (m : JsMap BoardElement)
    → total (JsMap.set k e m) + chars_before (JsMap.get k m) ≡ total m + chars_of e
unfolding JsMap.set JsMap.get chars_before
total-set k e [] = omega arith
total-set k e ((j, w) ∷ m) = ground (arith, total-set k e m)

-- An element that went through the cleaning.
pub record IsClean (e : BoardElement) : Type 0 where
  pub named : is_result_id e.id ≡ true
  pub small : chars_of e ≤ max_element_chars

pub record IsEntry (e : Text × BoardElement) : Type 0 where
  pub keyed : e.1.id ≡ e.0
  pub clean : IsClean e.1

pub record IsValid (b : BoardStore) : Type 0 where
  pub counted : b.chars ≡ total b.els
  pub fits : b.chars ≤ max_board_chars
  pub few : JsMap.size b.els ≤ max_board_elements
  pub sound : All IsEntry b.els

element_of-IsClean : (fs : Fields) → Each IsClean (element_of fs)
unfolding element_of
element_of-IsClean fs = Each-bind IsClean (as_string (find _ fs)) _ λ id _.
    Each-guard IsClean (is_result_id id) _ λ named.
      Each-bind IsClean (as_string (find _ fs)) _ λ type _.
        Each-guard IsClean (is_one_of board_types type) _ λ _.
          Each-bind IsClean (int 1 (find _ fs)) _ λ version _.
            Each-bind IsClean (safe_integer (find _ fs)) _ λ nonce _.
              Each-bind IsClean (as_boolean (find _ fs)) _ λ deleted _.
                Each-guard IsClean (plain_json 0 (object fs)) _ λ _.
                  Each-guard IsClean
                    (leb (json_length (object (clean_fields fs))) max_element_chars) _
                    λ small. record { named = named; small = unfold chars_of in ground arith }

pub clean_board_element-IsClean : (raw : Json) → Each IsClean (clean_board_element raw)
unfolding clean_board_element
clean_board_element-IsClean (object fs) = element_of-IsClean fs
clean_board_element-IsClean undefined = tt
clean_board_element-IsClean null = tt
clean_board_element-IsClean (boolean b) = tt
clean_board_element-IsClean (number n) = tt
clean_board_element-IsClean (string s) = tt
clean_board_element-IsClean (array xs) = tt

module _ (b : BoardStore) (el : BoardElement) (cur : Option BoardElement)
    (here : JsMap.get el.id b.els ≡ cur) where
  put-IsValid :
      IsClean el
      → IsValid b
      → (is_absent cur && leb max_board_elements (JsMap.size b.els)) ≡ false
      → ltb (max_board_chars + chars_before cur) (b.chars + chars_of el) ≡ false
      → IsValid (record {
        els = JsMap.set el.id el b.els;
        chars = b.chars + chars_of el - chars_before cur;
      })
  put-IsValid clean valid room space = record {
    counted = ground (arith, total-set el.id el b.els);
    fits = ground arith;
    few = ground (arith, size-set el.id el b.els, has-get el.id b.els, is_absent_lem cur);
    sound = All-set IsEntry el.id el b.els (record { keyed = refl; clean = clean }) valid.sound;
  }
    where
      is_absent_lem : (o : Option BoardElement) → is_absent o ≡ not (is_some o)
      is_absent_lem none = unfold is_absent in refl
      is_absent_lem (some e) = unfold is_absent in refl

  -- Three tests stand before the write.
  pub accept_cases :
      (P : BoardStore × List BoardElement → Type 0)
      → P (b, [])
      → (newer_element el cur ≡ true
          → (is_absent cur && leb max_board_elements (JsMap.size b.els)) ≡ false
          → ltb (max_board_chars + chars_before cur) (b.chars + chars_of el) ≡ false
          → P (
            record {
              els = JsMap.set el.id el b.els;
              chars = b.chars + chars_of el - chars_before cur;
            },
            el ∷ [],
          ))
      → P (accept b el cur)
  unfolding accept
  accept_cases P kept put = elim (Bool-cases (newer_element el cur)) [
    | inr e ↦ rw e kept
    | inl e ↦ rw e (elim (Bool-cases (is_absent cur && leb max_board_elements (JsMap.size b.els))) [
      | inl f ↦ rw f kept
      | inr f ↦
          rw f
            (elim (Bool-cases (ltb (max_board_chars + chars_before cur) (b.chars + chars_of el))) [
              | inl g ↦ rw g kept
              | inr g ↦ rw g (put e f g)
            ])
    ])
  ]

merge_one-IsValid :
    (b : BoardStore) (o : Option BoardElement)
    → Each IsClean o
    → IsValid b
    → IsValid (merge_one b o).0
unfolding merge_one
merge_one-IsValid b none clean valid = valid
merge_one-IsValid b (some el) clean valid =
    accept_cases b el (JsMap.get el.id b.els) refl (λ r. IsValid r.0) valid
      (λ _ room space. put-IsValid b el _ refl clean valid room space)

merge_all-IsValid :
    (b : BoardStore) (incoming : List Json) → IsValid b → IsValid (merge_all b incoming).0
unfolding merge_all
merge_all-IsValid b [] valid = valid
merge_all-IsValid b (raw ∷ rest) valid =
    merge_all-IsValid (merge_one b (clean_board_element raw)).0 rest
      (merge_one-IsValid b _ (clean_board_element-IsClean raw) valid)

-- A batch, whatever is in it, keeps the store well formed: the count of characters is the sum over
-- the elements and at most 6 MiB, there are at most 3000 elements, each under its own id, and each
-- has a valid id and at most 48 KiB of JSON.
pub merge-IsValid :
    (b : BoardStore) (incoming : List Json) → IsValid b → IsValid (merge b incoming).0
unfolding merge
merge-IsValid b incoming valid = merge_all-IsValid b (take 500 incoming) valid

pub clear-IsValid : (b : BoardStore) → IsValid (clear b)
unfolding clear
clear-IsValid b = record { counted = refl; fits = omega arith; few = omega arith; sound = tt }
