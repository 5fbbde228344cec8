-- ===== src/Wall/Notes/Tests.antt =====
-- The note board on concrete inputs.
use mathlib.Core.List.{Perm}
use filenymous.Prelude.{
  ℕ, ◌≡◌, refl, true, false, some, List, [], ◌∷◌, arith, Text, codes, text_eq, text_eq_iff,
}
use filenymous.Prelude.Json.{string, undefined, null, or_else}
use filenymous.JsMap
use filenymous.Wall.Notes.{
  step, pin, fresh_id, by_author, heading, overwrote, SharedNote, NoteLock, NoteBoard, Result, ok,
  creates, edits, pins, locks_or_unlocks, Call, init, run, create, edit, lock, lock_of, unchanged,
  clean_note_text, clean_note_title, list, release_all, host, utf8_bytes,
}
use filenymous.Wall.Notes.Invariant.{IsValid, run_notes-IsValid}
use filenymous.Wall.Notes.Ids.{IsFresh, create-returns}
use filenymous.Wall.Notes.Locks.{lock_not_stolen}
use filenymous.Wall.Notes.Order.{InOrder, list_notes-InOrder}

board_functions : Unit {0}
unfolding run create edit lock lock_of clean_note_text clean_note_title list release_all JsMap.get
    JsMap.set JsMap.has JsMap.delete text_eq step pin or_else fresh_id by_author heading overwrote
board_functions = tt

abbrev peer : Text
peer = codes "peer:1"

abbrev ids : ℕ → Text
ids i = i ∷ []

ids-IsFresh : IsFresh ids
ids-IsFresh i j e = ground arith

abbrev script : List (ℕ × Call)
script =
    (5, creates host (string (codes " a  b ")) undefined ids)
    ∷ (6, creates peer null (string (codes "x")) ids)
    ∷ (7, locks_or_unlocks peer (ids 0) true)
    ∷ (8, edits peer (ids 0) 1 undefined (string (codes "new")))
    ∷ (9, pins (ids 1) true)
    ∷ []

abbrev first : SharedNote
first = record {
  id = ids 0;
  title = codes "a b";
  text = codes "new";
  v = 3;
  by = host;
  at = 5;
  edited_by = peer;
  edited_at = 8;
  pinned = false;
}

abbrev second : SharedNote
second = record {
  id = ids 1;
  title = [];
  text = codes "x";
  v = 4;
  by = peer;
  at = 6;
  edited_by = peer;
  edited_at = 6;
  pinned = true;
}

abbrev board : NoteBoard
board = record {
  notes = (ids 0, first) ∷ (ids 1, second) ∷ [];
  locks = (ids 0, record { id = ids 0; label = peer; until = 10007 }) ∷ [];
  clock = 4;
}

script_runs : run init script ≡ board
unfolding board_functions
script_runs = refl

pinned_first : list board ≡ second ∷ first ∷ []
unfolding board_functions
pinned_first = refl

-- A pair of surrogates takes four bytes.
utf8_test : utf8_bytes (0x61 ∷ 0xe9 ∷ 0x20ac ∷ 0xd83d ∷ 0xde00 ∷ []) ≡ 10
unfolding utf8_bytes
utf8_test = refl

run_notes-IsValid_example : IsValid (run init script)
run_notes-IsValid_example = run_notes-IsValid script

create-returns_example :
    (r : NoteBoard × Result SharedNote) × (create board peer null null 9 ids ≡ some r)
create-returns_example = create-returns board peer null null 9 ids ids-IsFresh

abbrev rewritten : SharedNote
rewritten = record first { text = []; v = 5; edited_by = host; edited_at = 9 }

abbrev after_edit : NoteBoard
after_edit = record board { notes = (ids 0, rewritten) ∷ (ids 1, second) ∷ []; clock = 5 }

host_edits :
    edit board host (ids 0) 1 undefined (string []) 9 ≡ (after_edit, ok (rewritten, some peer))
unfolding board_functions
host_edits = refl

first_is_there : JsMap.get (ids 0) board.notes ≡ some first
unfolding board_functions
first_is_there = refl

abbrev other_peer : Text
other_peer = codes "peer:2"

lock_not_stolen_example : lock board other_peer (ids 0) true 100 ≡ (board, unchanged)
unfolding board_functions
lock_not_stolen_example =
    lock_not_stolen board other_peer (ids 0) true 100
      (record { id = ids 0; label = peer; until = 10007 }) refl (omega arith)
      (λ e. ground (arith, text_eq_iff peer other_peer))
      (λ e. ground (arith, text_eq_iff other_peer host))

abbrev host_lock : NoteLock
host_lock = record { id = ids 0; label = host; until = 10100 }

list_notes-InOrder_example : Perm (list board) (first ∷ second ∷ []) × InOrder (list board)
list_notes-InOrder_example = list_notes-InOrder board
