-- ===== src/Wall/Notes/Ids.antt =====
-- The loop over `makeId` in `create` ends.
use filenymous.Prelude.{
  ℕ, zero, suc, ◌≤◌, ◌<◌, ◌≡◌, ◌≢◌, refl, inl, inr, false, Option, none, some, [], arith, Text,
  text_eq, text_eq_iff, Option-cases,
}
use filenymous.Prelude.Json.{Json, string, or_else}
use filenymous.JsMap
use filenymous.JsMap.{JsMap}
use filenymous.JsMap.Count.{has-delete, size-delete}
use filenymous.Wall.Notes.{
  clean_note_text, clean_note_title, SharedNote, NoteBoard, Result, add_note, create, fresh_id,
}

-- `makeId` does not repeat itself.
abbrev pub IsFresh : (ℕ → Text) → Type 0
IsFresh ids = (i j : ℕ) → ids i ≡ ids j → i ≡ j

module _ (ids : ℕ → Text) (fresh : IsFresh ids) where
  other_id : (i j : ℕ) → i < j → text_eq (ids i) (ids j) ≡ false
  other_id i j h = ground (arith, fresh i j, text_eq_iff (ids i) (ids j))

  -- An id that was tried does not come again, so the loop does not see its removal.
  fresh_id-delete :
      (fuel i j : ℕ) (m : JsMap SharedNote)
      → i < j
      → fresh_id fuel ids j (JsMap.delete (ids i) m) ≡ fresh_id fuel ids j m
  unfolding fresh_id
  fresh_id-delete zero i j m h = refl
  fresh_id-delete (suc fuel) i j m h =
      ground (arith, fresh_id-delete fuel i (suc j) m, has-delete (ids i) (ids j) m, other_id i j h)

  -- The loop runs out of fuel only on a board with as many notes.
  fuel-le-size :
      (fuel i : ℕ) (m : JsMap SharedNote) → fresh_id fuel ids i m ≡ none → fuel ≤ JsMap.size m
  unfolding fresh_id
  fuel-le-size zero i m h = omega arith
  fuel-le-size (suc fuel) i m h = ground (
    arith,
    fuel-le-size fuel (suc i) (JsMap.delete (ids i) m),
    fresh_id-delete fuel i (suc i) m,
    size-delete (ids i) m,
  )

add_note-returns :
    (b : NoteBoard) (by : Text) (now : ℕ) (title body id : Option Text)
    → id ≢ none
    → add_note b by now title body id ≢ none
unfolding add_note
add_note-returns b by now none body id h = ground arith
add_note-returns b by now (some title) none id h = ground arith
add_note-returns b by now (some title) (some body) none h = absurd (h refl)
add_note-returns b by now (some title) (some body) (some id) h = ground arith

-- If `makeId` does not repeat itself, `create` returns: the loop that looks for an id that is not on
-- the board ends within one more call of `makeId` than the board has notes.
pub create-returns :
    (b : NoteBoard) (by : Text) (title text : Json) (now : ℕ) (ids : ℕ → Text)
    → IsFresh ids
    → (r : NoteBoard × Result SharedNote) × (create b by title text now ids ≡ some r)
unfolding create
create-returns b by title text now ids fresh =
    elim (Option-cases (create b by title text now ids)) [
      | inr found ↦ found
      | inl e ↦ absurd (stuck e)
    ]
  where
    loop_ends : fresh_id (suc (JsMap.size b.notes)) ids 0 b.notes ≢ none
    loop_ends h = omega (arith, fuel-le-size ids fresh (suc (JsMap.size b.notes)) 0 b.notes h)

    stuck : create b by title text now ids ≢ none
    stuck e = ground (
      arith,
      add_note-returns b by now (clean_note_title (or_else title (string [])))
          (clean_note_text (or_else text (string [])))
          (fresh_id (suc (JsMap.size b.notes)) ids 0 b.notes) loop_ends,
    )
