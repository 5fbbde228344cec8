-- ===== src/Wall/Notes.antt =====
-- ui/src/wall/notes.ts: the host's board of shared notes and their soft locks.
-- `now()` is an argument of each call. `makeId()` is a sequence: `ids i` is what its i-th call in
-- one `create` returns.
pub mod Invariant
pub mod Ids
pub mod Edits
pub mod Locks
pub mod Order
mod Tests
use filenymous.Prelude.{
  ℕ, zero, suc, ◌+◌, ◌*◌, Bool, true, false, ◌&&◌, ◌||◌, not, Option, none, some, List, [], ◌∷◌,
  ltb, leb, ◌==◌, if◌then◌else◌, Text, codes, text_eq, length, take, filter, trim, unify_newlines,
  strip, blank, collapse_spaces,
}
use filenymous.Prelude.Sort.{sort}
use filenymous.Prelude.Json.{Json, string, undefined, or_else}
use filenymous.JsMap
use filenymous.JsMap.{JsMap}

abbrev pub note_max_bytes : ℕ
note_max_bytes = 64 * 1024

abbrev pub note_title_max : ℕ
note_title_max = 80

abbrev pub max_notes : ℕ
max_notes = 50

abbrev pub max_notes_per_author : ℕ
max_notes_per_author = 10

abbrev pub note_lock_ms : ℕ
note_lock_ms = 10_000

pub record SharedNote : Type 0 where
  pub id : Text
  pub title : Text
  pub text : Text
  pub v : ℕ
  pub by : Text
  pub at : ℕ
  pub edited_by : Text
  pub edited_at : ℕ
  pub pinned : Bool

pub record NoteLock : Type 0 where
  pub id : Text
  pub label : Text
  pub until : ℕ

pub data NoteError : Type 0 where
  too_many_notes too_large not_found forbidden empty : NoteError

pub data Result {ℓ} (A : Type ℓ) : Type ℓ where
  ok : A → Result A
  err : NoteError → Result A

-- `enc.encode(s).length`: the bytes of the UTF-8 form. A unit of a lone surrogate takes three bytes
-- (it is replaced by U+FFFD), and the second unit of a pair adds one to the three of the first.
utf8_bytes_from : Bool → Text → ℕ
utf8_bytes_from after_high [] = 0
utf8_bytes_from after_high (c ∷ s) =
    let rest = utf8_bytes_from (leb 0xd800 c && ltb c 0xdc00) s in
    (if ltb c 0x80
      then 1
      else if ltb c 0x800
      then 2
      else if after_high && (leb 0xdc00 c && ltb c 0xe000)
      then 1
      else 3)
    + rest

unfoldable pub utf8_bytes : Text → ℕ
unfolding utf8_bytes_from
utf8_bytes s = utf8_bytes_from false s

-- Control characters but tab and line feed.
unfoldable pub is_text_control : ℕ → Bool
is_text_control c = leb c 8 || (leb 0xb c && leb c 0x1f) || c == 0x7f

unfoldable pub is_control : ℕ → Bool
is_control c = leb c 0x1f || c == 0x7f

clean_body : Text → Option Text
unfolding utf8_bytes is_text_control unify_newlines strip
clean_body v =
    if ltb note_max_bytes (length v)
    then none
    else let s = strip is_text_control (unify_newlines v) in
      if leb (utf8_bytes s) note_max_bytes then some s else none

pub clean_note_text : Json → Option Text
unfolding clean_body
clean_note_text (string v) = clean_body v
clean_note_text _ = none

-- `v.replace(…, " ").replace(/\s+/g, " ").trim().slice(0, NOTE_TITLE_MAX)`
heading : Text → Text
unfolding is_control blank collapse_spaces trim
heading v = take note_title_max (trim (collapse_spaces (blank is_control v)))

clean_heading : Text → Option Text
clean_heading v = if ltb 400 (length v) then none else some (heading v)

pub clean_note_title : Json → Option Text
unfolding clean_heading
clean_note_title (string v) = clean_heading v
clean_note_title _ = none

by_pins : Bool → Bool → Bool → Bool
by_pins true false older = false
by_pins false true older = true
by_pins true true older = older
by_pins false false older = older

-- `compare(a, b) > 0` for the comparison of `sortNotes`: pinned notes first, then the newest edit
pub note_comes_after : SharedNote → SharedNote → Bool
unfolding by_pins
note_comes_after a b = by_pins a.pinned b.pinned (ltb a.edited_at b.edited_at)

pub sort_notes : List SharedNote → List SharedNote
unfolding note_comes_after sort
sort_notes notes = sort note_comes_after notes

pub record NoteBoard : Type 0 where
  pub notes : JsMap SharedNote
  pub locks : JsMap NoteLock
  pub clock : ℕ

pub list : NoteBoard → List SharedNote
unfolding sort_notes
list b = sort_notes (JsMap.values b.notes)

abbrev pub init : NoteBoard
init = record { notes = []; locks = []; clock = 0 }

abbrev pub host : Text
host = codes "host"

-- The notes that a member wrote.
unfoldable pub by_author : Text → SharedNote → Bool
by_author label n = text_eq n.by label

-- `let id = makeId(); while (notes.has(id)) id = makeId()`, from the i-th call on. `none` says that
-- the fuel ran out.
pub fresh_id : ℕ → (ℕ → Text) → ℕ → JsMap SharedNote → Option Text
fresh_id zero ids i notes = none
fresh_id (suc fuel) ids i notes =
    let rest = fresh_id fuel ids (suc i) notes in
    if JsMap.has (ids i) notes then rest else some (ids i)

-- The author's share is used up; the host has none.
author_is_full : Text → JsMap SharedNote → Bool
author_is_full by notes =
    not (text_eq by host)
    && leb max_notes_per_author (length (filter (by_author by) (JsMap.values notes)))

pub new_note : Text → Text → Text → Text → ℕ → ℕ → SharedNote
new_note id title text by v at = record {
  id = id;
  title = title;
  text = text;
  v = v;
  by = by;
  at = at;
  edited_by = by;
  edited_at = at;
  pinned = false;
}

-- The end of `create`, from the cleaned title and body and the new id.
add_note :
    NoteBoard
    → Text
    → ℕ
    → Option Text
    → Option Text
    → Option Text
    → Option (NoteBoard × Result SharedNote)
unfolding new_note
add_note b by now none body id = some (b, err too_large)
add_note b by now (some title) none id = some (b, err too_large)
add_note b by now (some title) (some body) none = none
add_note b by now (some title) (some body) (some id) =
    let note = new_note id title body by (b.clock + 1) now in
    some (record b { notes = JsMap.set id note b.notes; clock = b.clock + 1 }, ok note)

-- `none` says that the loop over `makeId` did not end within one more call than there are notes.
pub create :
    NoteBoard → Text → Json → Json → ℕ → (ℕ → Text) → Option (NoteBoard × Result SharedNote)
unfolding author_is_full add_note
create b by title text now ids =
    if leb max_notes (JsMap.size b.notes) || author_is_full by b.notes
    then some (b, err too_many_notes)
    else add_note b by now (clean_note_title (or_else title (string [])))
        (clean_note_text (or_else text (string [])))
        (fresh_id (suc (JsMap.size b.notes)) ids 0 b.notes)

-- `patch.x === undefined ? cur.x : clean(patch.x)`
patched : (Json → Option Text) → Text → Json → Option Text
patched clean current undefined = some current
patched clean current v = clean v

-- The author of the version that the edit replaces unseen.
pub overwrote : SharedNote → Text → ℕ → Option Text
overwrote cur by base =
    if ltb base cur.v && not (text_eq cur.edited_by by) then some cur.edited_by else none

edited : SharedNote → Text → Text → Text → ℕ → ℕ → SharedNote
edited cur title text by v now = record cur {
  title = title;
  text = text;
  v = v;
  edited_by = by;
  edited_at = now;
}

-- The end of `edit`, from the note that is there and the cleaned title and body.
replace_note :
    NoteBoard
    → Text
    → Text
    → ℕ
    → ℕ
    → SharedNote
    → Option Text
    → Option Text
    → NoteBoard × Result (SharedNote × Option Text)
unfolding edited
replace_note b by id base now cur none text = (b, err too_large)
replace_note b by id base now cur (some title) none = (b, err too_large)
replace_note b by id base now cur (some title) (some text) =
    let note = edited cur title text by (b.clock + 1) now in
    (
      record b { notes = JsMap.set id note b.notes; clock = b.clock + 1 },
      ok (note, overwrote cur by base),
    )

pub edit :
    NoteBoard → Text → Text → ℕ → Json → Json → ℕ → NoteBoard × Result (SharedNote × Option Text)
unfolding patched replace_note
edit b by id base title text now = elim (JsMap.get id b.notes) [
  | none ↦ (b, err not_found)
  | some cur ↦
      replace_note b by id base now cur (patched clean_note_title cur.title title)
        (patched clean_note_text cur.text text)
]

pub remove : NoteBoard → Text → Text → NoteBoard × Result (Unit {0})
remove b by id = elim (JsMap.get id b.notes) [
  | none ↦ (b, err not_found)
  | some cur ↦
      if not (text_eq by host) && not (text_eq cur.by by)
      then (b, err forbidden)
      else (record b { notes = JsMap.delete id b.notes; locks = JsMap.delete id b.locks }, ok tt)
]

pub pin : NoteBoard → Text → Bool → NoteBoard × Result SharedNote
pin b id on = elim (JsMap.get id b.notes) [
  | none ↦ (b, err not_found)
  | some cur ↦
      let note = record cur { pinned = on; v = b.clock + 1 } in
      (record b { notes = JsMap.set id note b.notes; clock = b.clock + 1 }, ok note)
]

-- A lock that ran out is dropped when it is looked at.
pub lock_of : NoteBoard → Text → ℕ → NoteBoard × Option NoteLock
lock_of b id now = elim (JsMap.get id b.locks) [
  | none ↦ (b, none)
  | some l ↦
      if leb l.until now then (record b { locks = JsMap.delete id b.locks }, none) else (b, some l)
]

-- What `lock` returns: a new lock, `null` for a lock that was taken off, or `undefined`.
pub data LockChange : Type 0 where
  locked : NoteLock → LockChange
  unlocked : LockChange
  unchanged : LockChange

holds : Option NoteLock → Text → Bool
holds none by = false
holds (some l) by = text_eq l.label by

pub new_lock : Text → Text → ℕ → NoteLock
new_lock id by now = record { id = id; label = by; until = now + note_lock_ms }

set_lock : NoteBoard → Text → Text → ℕ → Bool → Option NoteLock → NoteBoard × LockChange
unfolding holds new_lock
set_lock b by id now false cur =
    if holds cur by
    then (record b { locks = JsMap.delete id b.locks }, unlocked)
    else (b, unchanged)
set_lock b by id now true none =
    (record b { locks = JsMap.set id (new_lock id by now) b.locks }, locked (new_lock id by now))
set_lock b by id now true (some cur) =
    if not (text_eq cur.label by) && not (text_eq by host) then (b, unchanged) else (
      record b { locks = JsMap.set id (new_lock id by now) b.locks },
      locked (new_lock id by now),
    )

pub lock : NoteBoard → Text → Text → Bool → ℕ → NoteBoard × LockChange
unfolding lock_of set_lock
lock b by id on now =
    if JsMap.has id b.notes
    then (let (c, cur) = lock_of b id now in set_lock c by id now on cur)
    else (b, unchanged)

release_from : Text → JsMap NoteLock → JsMap NoteLock × List Text
release_from label [] = ([], [])
release_from label ((id, l) ∷ m) =
    let (kept, ids) = release_from label m in
    if text_eq l.label label then (kept, id ∷ ids) else ((id, l) ∷ kept, ids)

-- The locks that the member does not hold, and the ids of those that it held.
pub release_all : NoteBoard → Text → NoteBoard × List Text
unfolding release_from
release_all b label =
    let (kept, ids) = release_from label b.locks in (record b { locks = kept }, ids)

pub clear : NoteBoard → NoteBoard
clear b = record b { notes = []; locks = [] }

-- One call of the board, with the time and what `makeId` returns; reads do not change it.
pub data Call : Type 0 where
  creates : Text → Json → Json → (ℕ → Text) → Call
  edits : Text → Text → ℕ → Json → Json → Call
  removes : Text → Text → Call
  pins : Text → Bool → Call
  locks_or_unlocks : Text → Text → Bool → Call
  reads_lock : Text → Call
  releases : Text → Call
  clears : Call

abbrev pub after {ℓ} : {R : Type ℓ} → NoteBoard → Option (NoteBoard × R) → NoteBoard
after b none = b
after b (some (c, _)) = c

pub step : NoteBoard → ℕ × Call → NoteBoard
step b (now, creates by title text ids) = after b (create b by title text now ids)
step b (now, edits by id base title text) = (edit b by id base title text now).0
step b (now, removes by id) = (remove b by id).0
step b (now, pins id on) = (pin b id on).0
step b (now, locks_or_unlocks by id on) = (lock b by id on now).0
step b (now, reads_lock id) = (lock_of b id now).0
step b (now, releases label) = (release_all b label).0
step b (now, clears) = clear b

pub run : NoteBoard → List (ℕ × Call) → NoteBoard
run b [] = b
run b (c ∷ cs) = run (step b c) cs
