-- ===== src/Wall/NotesWire/Accepted.antt =====
-- A shared note or a lock that is accepted is well formed.
use filenymous.Prelude.{◌≤◌, ◌≡◌, true, some, Text, length}
use filenymous.Prelude.Json.{Json, Fields, find, as_boolean, as_object, max_safe_integer}
use filenymous.Prelude.Items.{Each-text, Each-int, Each-then}
use filenymous.Prelude.Options.{Each, Each-bind, Each-guard, Each-of}
use filenymous.Wall.Collab.{is_label}
use filenymous.Wall.Notes.{
  note_max_bytes, note_title_max, utf8_bytes, clean_note_text, clean_note_title,
}
use filenymous.Wall.Notes.Invariant.{clean_note_text-le, clean_note_title-le}
use filenymous.Wall.NotesWire.{
  is_note_id, text_form, label_value, ReceivedNote, note_of, clean_shared_note, ReceivedLock,
  lock_of, clean_note_lock,
}

-- It is written as a label.
abbrev pub IsLabelled : Json → Type 0
IsLabelled v = (s : Text) × (text_form v ≡ some s) × (is_label s ≡ true)

label_value-IsLabelled : (v : Json) → Each IsLabelled (label_value v)
unfolding label_value
label_value-IsLabelled v =
    Each-bind IsLabelled (text_form v) _ λ s e. Each-guard IsLabelled (is_label s) _ λ h. (s, e, h)

pub IsTitle : Text → Type 0
IsTitle s = length s ≤ note_title_max

pub IsBody : Text → Type 0
IsBody s = utf8_bytes s ≤ note_max_bytes

pub clean_note_title-IsTitle : (v : Json) → Each IsTitle (clean_note_title v)
unfolding IsTitle
clean_note_title-IsTitle v = Each-of IsTitle (clean_note_title v) λ s e. clean_note_title-le v e

pub clean_note_text-IsBody : (v : Json) → Each IsBody (clean_note_text v)
unfolding IsBody
clean_note_text-IsBody v = Each-of IsBody (clean_note_text v) λ s e. clean_note_text-le v e

pub record IsReceivedNote (n : ReceivedNote) : Type 0 where
  pub named : is_note_id n.id ≡ true
  pub titled : IsTitle n.title
  pub sized : IsBody n.text
  pub written : IsLabelled n.by
  pub edited : IsLabelled n.edited_by
  pub counted : n.v ≤ max_safe_integer
  pub dated : (n.at ≤ max_safe_integer) × (n.edited_at ≤ max_safe_integer)

note_of-IsReceivedNote : (fs : Fields) → Each IsReceivedNote (note_of fs)
unfolding note_of
note_of-IsReceivedNote fs = Each-text IsReceivedNote is_note_id (find _ fs) _ λ id named.
    Each-then IsReceivedNote IsLabelled (label_value (find _ fs)) _ (label_value-IsLabelled _)
      λ by w.
        Each-then IsReceivedNote IsLabelled (label_value (find _ fs)) _ (label_value-IsLabelled _)
          λ edited_by e. Each-int IsReceivedNote 0 (find _ fs) _ λ v _ counted.
            Each-int IsReceivedNote 0 (find _ fs) _ λ at _ dated.
              Each-int IsReceivedNote 0 (find _ fs) _ λ edited_at _ redated.
                Each-bind IsReceivedNote (as_boolean (find _ fs)) _ λ pinned _.
                  Each-then IsReceivedNote IsTitle (clean_note_title (find _ fs)) _
                    (clean_note_title-IsTitle _)
                    λ title titled.
                      Each-then IsReceivedNote IsBody (clean_note_text (find _ fs)) _
                        (clean_note_text-IsBody _)
                        λ body sized. record {
                          named = named;
                          titled = titled;
                          sized = sized;
                          written = w;
                          edited = e;
                          counted = counted;
                          dated = (dated, redated);
                        }

pub clean_shared_note-IsReceivedNote : (v : Json) → Each IsReceivedNote (clean_shared_note v)
unfolding clean_shared_note
clean_shared_note-IsReceivedNote v =
    Each-bind IsReceivedNote (as_object v) _ λ fs _. note_of-IsReceivedNote fs

pub record IsReceivedLock (l : ReceivedLock) : Type 0 where
  pub named : is_note_id l.id ≡ true
  pub holder : IsLabelled l.label
  pub dated : l.until ≤ max_safe_integer

pub clean_note_lock-IsReceivedLock : (v : Json) → Each IsReceivedLock (clean_note_lock v)
unfolding clean_note_lock lock_of
clean_note_lock-IsReceivedLock v = Each-bind IsReceivedLock (as_object v) _ λ fs _.
    Each-text IsReceivedLock is_note_id (find _ fs) _ λ id named.
      Each-then IsReceivedLock IsLabelled (label_value (find _ fs)) _ (label_value-IsLabelled _)
        λ label holder.
          Each-int IsReceivedLock 0 (find _ fs) _
            λ until _ dated. record { named = named; holder = holder; dated = dated }
