-- ===== src/Wall/NotesWire.antt =====
-- ui/src/wall/notes.ts: what a peer accepts as a shared note or as a lock of the host.
pub mod Accepted
use filenymous.Prelude.{
  ℕ, Bool, true, false, Option, none, some, List, ◌==◌, ◌&&◌, Text, codes, length, all,
}
use filenymous.Prelude.Json.{
  Json, undefined, null, boolean, number, string, array, object, Items, nil, cons, Fields, find,
  int, as_boolean, as_object,
}
use filenymous.Prelude.Items.{text_of}
use filenymous.Prelude.Options.{◌>>=◌, ◌>>◌, guard}
use filenymous.Wall.Collab.{after_prefix, is_hex, is_label}
use filenymous.Wall.Notes.{clean_note_text, clean_note_title}

-- `/^n-[0-9a-f]{16}$/`
unfoldable pub is_note_id : Text → Bool
unfolding after_prefix is_hex
is_note_id s = elim (after_prefix (codes "n-") s) [
  | none ↦ false
  | some h ↦ length h == 16 && all is_hex h
]

-- `String(v)` when it can be a label: a list of one is written as its item, and a longer one with
-- commas. An object gives none too, whether it is written as one or is an exception.
unfoldable mutual
  pub text_form : Json → Option Text
  text_form (string s) = some s
  text_form (array vs) = only_form vs
  text_form _ = none

  pub only_form : Items → Option Text
  only_form (cons v nil) = text_form v
  only_form nil = none
  only_form (cons v (cons w vs)) = none

-- `LABEL_RE.test(String(v))`, with v as it is.
pub label_value : Json → Option Json
label_value v = do s ← text_form v; guard (is_label s); some v

-- A shared note as it comes in: its labels were not asked to be strings.
pub record ReceivedNote : Type 0 where
  pub id : Text
  pub title : Text
  pub text : Text
  pub v : ℕ
  pub by : Json
  pub at : ℕ
  pub edited_by : Json
  pub edited_at : ℕ
  pub pinned : Bool

pub note_of : Fields → Option ReceivedNote
note_of fs = do
  id ← text_of is_note_id (find (codes "id") fs)
  by ← label_value (find (codes "by") fs)
  edited_by ← label_value (find (codes "editedBy") fs)
  v ← int 0 (find (codes "v") fs)
  at ← int 0 (find (codes "at") fs)
  edited_at ← int 0 (find (codes "editedAt") fs)
  pinned ← as_boolean (find (codes "pinned") fs)
  title ← clean_note_title (find (codes "title") fs)
  body ← clean_note_text (find (codes "text") fs)
  some (record {
    id = id;
    title = title;
    text = body;
    v = v;
    by = by;
    at = at;
    edited_by = edited_by;
    edited_at = edited_at;
    pinned = pinned;
  })

pub clean_shared_note : Json → Option ReceivedNote
clean_shared_note n = as_object n >>= note_of

pub record ReceivedLock : Type 0 where
  pub id : Text
  pub label : Json
  pub until : ℕ

pub lock_of : Fields → Option ReceivedLock
lock_of fs = do
  id ← text_of is_note_id (find (codes "id") fs)
  label ← label_value (find (codes "label") fs)
  until ← int 0 (find (codes "until") fs)
  some (record { id = id; label = label; until = until })

pub clean_note_lock : Json → Option ReceivedLock
clean_note_lock l = as_object l >>= lock_of
