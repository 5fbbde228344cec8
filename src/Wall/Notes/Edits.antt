-- ===== src/Wall/Notes/Edits.antt =====
-- What `edit` and `remove` do: the last writer wins, and the version that was seen only tells whose
-- text went away.
use filenymous.Prelude.{
  ℕ, ◌+◌, ◌<◌, ◌≡◌, ◌≢◌, ◌↔◌, ◌⊎◌, refl, true, Option, none, some, arith, if◌then◌else◌, Text,
  text_eq, text_eq_iff, All,
}
use filenymous.Prelude.Json.{Json}
use filenymous.JsMap
use filenymous.JsMap.{JsMap, get-set, get-delete, All-weaken}
use filenymous.Wall.Notes.{
  SharedNote, NoteBoard, NoteLock, ok, edit, edited, remove, overwrote, replace_note, host,
}
use filenymous.Wall.Notes.Invariant.{IsNote, IsValid}

-- Neither the version that the editor claims to have seen nor a lock, held by whom ever, decides an
-- edit: the notes afterwards and the clock are the same.
pub edit_last_writer :
    (b : NoteBoard) (locks : JsMap NoteLock) (by id : Text) (base base' : ℕ) (title text : Json)
    (now : ℕ)
    → ((edit b by id base title text now).0.notes
        ≡ (edit (record b { locks = locks }) by id base' title text now).0.notes)
      × ((edit b by id base title text now).0.clock
          ≡ (edit (record b { locks = locks }) by id base' title text now).0.clock)
unfolding edit replace_note
edit_last_writer b locks by id base base' title text now = (ground arith, ground arith)

module _ (b : NoteBoard) (by id : Text) (base : ℕ) (title text : Json) (now : ℕ) {c : NoteBoard}
    {note : SharedNote} {lost : Option Text}
    (done : edit b by id base title text now ≡ (c, ok (note, lost))) where
  -- A successful edit stores the note that it returns, under the next version and the editor's name,
  -- and leaves its author, its pin and every other note as they were.
  pub edit-stores :
      (cur : SharedNote)
      → JsMap.get id b.notes ≡ some cur
      → ((j : Text)
          → JsMap.get j c.notes ≡ (if text_eq id j then some note else JsMap.get j b.notes))
        × (note.v ≡ b.clock + 1)
        × (c.clock ≡ note.v)
        × (note.edited_by ≡ by)
        × (note.edited_at ≡ now)
        × (note.by ≡ cur.by)
        × (note.pinned ≡ cur.pinned)
  unfolding edit replace_note edited
  edit-stores cur here = (
    λ j. ground (arith, get-set id j note b.notes),
    ground arith,
    ground arith,
    ground arith,
    ground arith,
    ground arith,
    ground arith,
  )

  -- The edit names a lost writer exactly when the note had moved on past the version that the editor
  -- saw, by another member's hand; it is the one who wrote last.
  pub edit-names_lost :
      (cur : SharedNote) (label : Text)
      → JsMap.get id b.notes ≡ some cur
      → (lost ≡ some label) ↔ ((base < cur.v) × (cur.edited_by ≢ by) × (label ≡ cur.edited_by))
  unfolding edit replace_note overwrote
  edit-names_lost cur label here = (
    λ e. ground (arith, text_eq_iff cur.edited_by by),
    λ e. ground (arith, text_eq_iff cur.edited_by by),
  )

  -- The new version is above every version on the board.
  pub edit-newest : IsValid b → All (λ e. e.1.v < note.v) b.notes
  unfolding edit replace_note edited
  edit-newest valid =
      All-weaken (IsNote b.clock) (λ e. e.1.v < note.v) b.notes (λ e h. ground arith) valid.sound

remove_needs :
    (b : NoteBoard) (by id : Text) (o : Option SharedNote)
    → JsMap.get id b.notes ≡ o
    → (remove b by id).1 ≡ ok tt
    → (cur : SharedNote) × (JsMap.get id b.notes ≡ some cur)
      × ((text_eq by host ≡ true) ⊎ (cur.by ≡ by))
unfolding remove
remove_needs b by id none here done = ground arith
remove_needs b by id (some cur) here done = (cur, here, ground (arith, text_eq_iff cur.by by))

-- A note is removed exactly when it is there and the caller is the host or its author; it and its
-- lock are gone then, and else nothing changes.
pub remove_exactly :
    (b : NoteBoard) (by id : Text)
    → (((remove b by id).1 ≡ ok tt) ↔ (
        (cur : SharedNote) × (JsMap.get id b.notes ≡ some cur)
        × ((text_eq by host ≡ true) ⊎ (cur.by ≡ by))))
      × ((remove b by id).1 ≡ ok tt
          → (j : Text)
          → (JsMap.get j (remove b by id).0.notes
              ≡ (if text_eq id j then none else JsMap.get j b.notes))
            × (JsMap.get j (remove b by id).0.locks
                ≡ (if text_eq id j then none else JsMap.get j b.locks)))
      × ((remove b by id).1 ≢ ok tt → (remove b by id).0 ≡ b)
unfolding remove
remove_exactly b by id = (
  (remove_needs b by id _ refl, λ e. ground (arith, text_eq_iff e.0.by by)),
  λ e j. ground (arith, get-delete id j b.notes, get-delete id j b.locks),
  λ e. ground arith,
)
