-- ===== src/Wall/Board/Tests.antt =====
-- The whiteboard on concrete inputs.
use mathlib.Core.List.{flatten}
use mathlib.Core.List.Perm
use filenymous.Prelude.{
  ℕ, ◌≡◌, ◌⊎◌, inl, inr, refl, false, some, List, [], ◌∷◌, arith, Text, codes, text_eq, any, All,
}
use filenymous.Prelude.Json.{
  Json, Number, null, boolean, number, string, object, integer, pos, Fields, end, with_field, find,
  int, safe_integer, as_string, as_boolean, json_length, lt_ℤ,
}
use filenymous.Prelude.Sort.{sort}
use filenymous.JsMap
use filenymous.Wall.Board.{
  BoardElement, BoardStore, init, merge, clean_board_element, chars_of, chars_before, is_absent,
  newer_than, newer_element, accept, board_batches, merged, merge_scene, index_after, clear,
}
use filenymous.Wall.Board.Capacity.{IsValid, merge-IsValid, clear-IsValid}
use filenymous.Wall.Board.Progress.{Advances, merge-Advances}
use filenymous.Wall.Board.Batches.{Fits, board_batches_lem}
use filenymous.Wall.Board.Versions.{SameRank}
use filenymous.Wall.Board.Convergence.{merged-converges}

board_functions : Unit {0}
unfolding merge clean_board_element find int safe_integer as_string as_boolean json_length lt_ℤ
    chars_of chars_before is_absent newer_than newer_element accept board_batches merged merge_scene
    JsMap.get JsMap.set text_eq sort index_after
board_functions = tt

abbrev shape : ℕ → Number → Fields
shape version nonce = with_field (codes "id") (string (codes "e1")) (
    with_field (codes "type") (string (codes "text")) (
      with_field (codes "version") (number (integer (pos version))) (
        with_field (codes "versionNonce") (number nonce) (
          with_field (codes "isDeleted") (boolean false)
            (with_field (codes "link") (string (codes "javascript:x")) end)))))

abbrev element : ℕ → ℕ → BoardElement
element version nonce = record {
  id = codes "e1";
  version = version;
  version_nonce = pos nonce;
  fields = with_field (codes "id") (string (codes "e1")) (
      with_field (codes "type") (string (codes "text")) (
        with_field (codes "version") (number (integer (pos version))) (
          with_field (codes "versionNonce") (number (integer (pos nonce))) (
            with_field (codes "isDeleted") (boolean false) (with_field (codes "link") null end)))));
}

-- `{"id":"e1","type":"text","version":2,"versionNonce":7,"isDeleted":false,"link":null}`
abbrev stored : BoardStore
stored = record { els = (codes "e1", element 2 7) ∷ []; chars = 84 }

abbrev incoming : List Json
incoming =
    object (shape 2 (integer (pos 9)))
    ∷ object (shape 2 (integer (pos 7)))
    ∷ object (shape 1 (integer (pos 0)))
    ∷ null
    ∷ []

merge_runs : merge init incoming ≡ (stored, element 2 9 ∷ element 2 7 ∷ [])
unfolding board_functions
merge_runs = refl

scene_runs : merge_scene (element 2 9 ∷ []) (element 2 7 ∷ []) ≡ element 2 7 ∷ []
unfolding board_functions
scene_runs = refl

batches_run :
    board_batches (element 1 1 ∷ element 1 2 ∷ element 1 3 ∷ []) 170
    ≡ (element 1 1 ∷ element 1 2 ∷ []) ∷ (element 1 3 ∷ []) ∷ []
unfolding board_functions
batches_run = refl

merge-IsValid_example : IsValid (merge init incoming).0
unfolding clear
merge-IsValid_example = merge-IsValid init incoming (clear-IsValid init)

merge-Advances_example :
    ((j : Text) → Advances (JsMap.get j stored.els) (JsMap.get j (merge stored incoming).0.els))
    × All
        (λ a. Advances (some a) (JsMap.get a.id (merge stored incoming).0.els))
        (merge stored incoming).1
    × ((j : Text)
        → any (λ (a : BoardElement). text_eq a.id j) (merge stored incoming).1 ≡ false
        → JsMap.get j (merge stored incoming).0.els ≡ JsMap.get j stored.els)
merge-Advances_example = merge-Advances stored incoming

board_batches_example :
    (flatten (board_batches (element 1 1 ∷ element 1 2 ∷ []) 170) ≡ element 1 1 ∷ element 1 2 ∷ [])
    × All (Fits 170) (board_batches (element 1 1 ∷ element 1 2 ∷ []) 170)
board_batches_example = board_batches_lem (element 1 1 ∷ element 1 2 ∷ []) 170

-- What was sent: two versions of one element.
abbrev Sent : BoardElement → Type 0
Sent a = (a ≡ element 2 7) ⊎ (a ≡ element 2 9)

ties : (a b : BoardElement) → Sent a → Sent b → a.id ≡ b.id → SameRank a b → a ≡ b
ties a b p q same rank = ground arith

merged-converges_example :
    JsMap.get (codes "e1") (merged [] (element 2 7 ∷ element 2 9 ∷ [])).0
    ≡ JsMap.get (codes "e1") (merged [] (element 2 9 ∷ element 2 7 ∷ [])).0
merged-converges_example =
    merged-converges Sent ties [] (element 2 7 ∷ element 2 9 ∷ []) (element 2 9 ∷ element 2 7 ∷ [])
      (inl refl, (inr refl, tt)) (Perm.swap (element 2 9) (element 2 7) []) (codes "e1")
