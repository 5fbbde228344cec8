-- ===== src/Wall/Notes/Order.antt =====
-- The order in which `list` gives the notes.
use mathlib.Core.List.{Perm}
use filenymous.Prelude.{◌≤◌, ◌≡◌, ◌⊎◌, true, false, List, [], ◌∷◌, arith, All}
use filenymous.Prelude.Sort.{IsSorted, sort-perm, sort-IsSorted}
use filenymous.JsMap
use filenymous.Wall.Notes.{SharedNote, NoteBoard, note_comes_after, sort_notes, list}

-- A pinned note may stand before every note that is not, and among the others the one that was edited
-- later, or at the same time.
abbrev pub MayPrecede : SharedNote → SharedNote → Type 0
MayPrecede a b =
    ((a.pinned ≡ true) × (b.pinned ≡ false)) ⊎ ((a.pinned ≡ b.pinned) × (b.edited_at ≤ a.edited_at))

abbrev pub InOrder : List SharedNote → Type 0
InOrder [] = Unit
InOrder (a ∷ rest) = All (MayPrecede a) rest × InOrder rest

precedes : (a b : SharedNote) → note_comes_after a b ≡ false → MayPrecede a b
unfolding note_comes_after
precedes a b h = ground arith

note_comes_after-asym :
    (a b : SharedNote) → note_comes_after a b ≡ true → note_comes_after b a ≡ false
unfolding note_comes_after
note_comes_after-asym a b h = ground arith

note_comes_after_trans :
    (a b c : SharedNote)
    → note_comes_after a b ≡ false
    → note_comes_after b c ≡ false
    → note_comes_after a c ≡ false
unfolding note_comes_after
note_comes_after_trans a b c h k = ground arith

InOrder-sorted : (ns : List SharedNote) → IsSorted note_comes_after ns → InOrder ns
InOrder-sorted [] h = tt
InOrder-sorted (a ∷ ns) h = (before ns h.0, InOrder-sorted ns h.1)
  where
    before :
        (bs : List SharedNote) → All (λ b. note_comes_after a b ≡ false) bs → All (MayPrecede a) bs
    before [] k = tt
    before (b ∷ bs) k = (precedes a b k.0, before bs k.1)

-- `list` gives the notes of the board, each once, the pinned ones first and the last edit first among
-- the pinned and among the others.
pub list_notes-InOrder : (b : NoteBoard) → Perm (list b) (JsMap.values b.notes) × InOrder (list b)
unfolding list sort_notes
list_notes-InOrder b = (
  sort-perm note_comes_after (JsMap.values b.notes),
  InOrder-sorted _ (
      sort-IsSorted note_comes_after note_comes_after-asym note_comes_after_trans
        (JsMap.values b.notes)),
)
