-- ===== src/Wall/Notes/Invariant.antt =====
-- The well-formedness of the note board, and that every operation keeps it.
use filenymous.Prelude.{
  ℕ, zero, suc, ◌+◌, ◌≤◌, ◌≡◌, refl, inl, inr, Bool, true, false, ◌&&◌, ◌||◌, not, Option, none,
  some, List, [], ◌∷◌, arith, leb, Text, text_eq, length, All, Bool-cases, Option-cases,
  length-take-le, text_eq_iff, subst,
}
use filenymous.Prelude.Json.{Json, undefined, null, boolean, number, string, array, object, or_else}
use filenymous.JsMap
use filenymous.JsMap.{
  JsMap, get-set, has-get, size-set, All-weaken, All-set, get-All, All-delete, size-delete-le,
}
use filenymous.JsMap.Count.{
  count, count-set_new, count-set_same, count-delete-le, has-delete, has-set,
}
use filenymous.Wall.Notes.{
  add_note, after, edited, replace_note, set_lock, new_lock, release_from, Call, creates, edits,
  removes, pins, locks_or_unlocks, reads_lock, releases, clears, step, run, SharedNote, NoteBoard,
  NoteLock, utf8_bytes, clean_note_text, clean_note_title, clean_body, clean_heading, heading,
  by_author, init, host, max_notes, max_notes_per_author, note_title_max, note_max_bytes, fresh_id,
  new_note, create, edit, remove, pin, lock_of, lock, release_all, clear, author_is_full, patched,
}

-- What holds of a note of a board whose clock is at `clock`.
pub record IsNote (clock : ℕ) (e : Text × SharedNote) : Type 0 where
  pub keyed : e.1.id ≡ e.0
  pub versioned : e.1.v ≤ clock
  pub titled : length e.1.title ≤ note_title_max
  pub sized : utf8_bytes e.1.text ≤ note_max_bytes

pub record IsValid (b : NoteBoard) : Type 0 where
  pub sound : All (IsNote b.clock) b.notes
  pub few : JsMap.size b.notes ≤ max_notes
  pub fair :
      (label : Text)
      → text_eq label host ≡ false
      → count (by_author label) b.notes ≤ max_notes_per_author
  pub anchored : (id : Text) → JsMap.has id b.locks ≡ true → JsMap.has id b.notes ≡ true

clean_body-le : (v : Text) {s : Text} → clean_body v ≡ some s → utf8_bytes s ≤ note_max_bytes
unfolding clean_body
clean_body-le v h = ground arith

pub clean_note_text-le :
    (v : Json) {s : Text} → clean_note_text v ≡ some s → utf8_bytes s ≤ note_max_bytes
unfolding clean_note_text
clean_note_text-le (string v) h = clean_body-le v h
clean_note_text-le undefined h = ground arith
clean_note_text-le null h = ground arith
clean_note_text-le (boolean b) h = ground arith
clean_note_text-le (number n) h = ground arith
clean_note_text-le (array xs) h = ground arith
clean_note_text-le (object fs) h = ground arith

length-heading : (v : Text) → length (heading v) ≤ note_title_max
unfolding heading
length-heading v = length-take-le note_title_max _

pub clean_note_title-le :
    (v : Json) {s : Text} → clean_note_title v ≡ some s → length s ≤ note_title_max
unfolding clean_note_title clean_heading
clean_note_title-le (string v) h = ground (arith, length-heading v)
clean_note_title-le undefined h = ground arith
clean_note_title-le null h = ground arith
clean_note_title-le (boolean b) h = ground arith
clean_note_title-le (number n) h = ground arith
clean_note_title-le (array xs) h = ground arith
clean_note_title-le (object fs) h = ground arith

later : (clock : ℕ) (e : Text × SharedNote) → IsNote clock e → IsNote (clock + 1) e
later clock e h = record {
  keyed = h.keyed;
  versioned = omega arith;
  titled = h.titled;
  sized = h.sized;
}

-- A note that gets the next version.
abbrev put : NoteBoard → Text → SharedNote → NoteBoard
put b id note = record b { notes = JsMap.set id note b.notes; clock = b.clock + 1 }

module _ (b : NoteBoard) (valid : IsValid b) (id : Text) (note : SharedNote)
    (good : IsNote (b.clock + 1) (id, note)) where
  put_sound : All (IsNote (b.clock + 1)) (JsMap.set id note b.notes)
  put_sound =
      All-set (IsNote (b.clock + 1)) id note b.notes good
        (All-weaken (IsNote b.clock) (IsNote (b.clock + 1)) b.notes (later b.clock) valid.sound)

  put_anchored :
      (j : Text) → JsMap.has j b.locks ≡ true → JsMap.has j (JsMap.set id note b.notes) ≡ true
  put_anchored j h = ground (
    arith,
    valid.anchored j h,
    has-get j (JsMap.set id note b.notes),
    has-get j b.notes,
    get-set id j note b.notes,
  )

  -- In place of a note by the same author.
  put_over :
      (cur : SharedNote)
      → JsMap.get id b.notes ≡ some cur
      → note.by ≡ cur.by
      → IsValid (put b id note)
  put_over cur here same = record {
    sound = put_sound;
    few = ground (arith, size-set id note b.notes, has-get id b.notes, valid.few);
    fair = λ label h.
        rw (count-set_same (by_author label) id note cur b.notes here (unfold by_author in rw same))
          (valid.fair label h);
    anchored = put_anchored;
  }

  by_author_lem : (label : Text) → by_author label note ≡ text_eq note.by label
  unfolding by_author
  by_author_lem label = refl

  -- Beside the others, where the board and the author's share have room.
  put_new :
      JsMap.has id b.notes ≡ false
      → leb max_notes (JsMap.size b.notes) ≡ false
      → author_is_full note.by b.notes ≡ false
      → IsValid (put b id note)
  unfolding author_is_full
  put_new absent room share = record {
    sound = put_sound;
    few = ground (arith, size-set id note b.notes);
    fair = λ label h. ground (
      arith,
      count-set_new (by_author label) id note b.notes absent,
      valid.fair label h,
      text_eq_iff note.by label,
      by_author_lem label,
    );
    anchored = put_anchored;
  }

-- An id that `fresh_id` returns is not on the board.
fresh_id-absent :
    (fuel : ℕ) (ids : ℕ → Text) (i : ℕ) (notes : JsMap SharedNote) (id : Text)
    → fresh_id fuel ids i notes ≡ some id
    → JsMap.has id notes ≡ false
unfolding fresh_id
fresh_id-absent zero ids i notes id h = ground arith
fresh_id-absent (suc fuel) ids i notes id h =
    ground (arith, fresh_id-absent fuel ids (suc i) notes id)

module _ (b : NoteBoard) (valid : IsValid b) where
  add_note-IsValid :
      (by : Text) (now : ℕ) (title body id : Option Text)
      → leb max_notes (JsMap.size b.notes) ≡ false
      → author_is_full by b.notes ≡ false
      → ((t : Text) → title ≡ some t → length t ≤ note_title_max)
      → ((t : Text) → body ≡ some t → utf8_bytes t ≤ note_max_bytes)
      → ((i : Text) → id ≡ some i → JsMap.has i b.notes ≡ false)
      → IsValid (after b (add_note b by now title body id))
  unfolding add_note
  add_note-IsValid by now none body id room share t s fresh = valid
  add_note-IsValid by now (some title) none id room share t s fresh = valid
  add_note-IsValid by now (some title) (some body) none room share t s fresh = valid
  add_note-IsValid by now (some title) (some body) (some id) room share t s fresh =
      put_new b valid id (new_note id title body by (b.clock + 1) now)
        (record {
          keyed = refl;
          versioned = omega arith;
          titled = t title refl;
          sized = s body refl;
        })
        (fresh id refl) room share

  create-IsValid :
      (by : Text) (title text : Json) (now : ℕ) (ids : ℕ → Text)
      → IsValid (after b (create b by title text now ids))
  unfolding create
  create-IsValid by title text now ids =
      elim (Bool-cases (leb max_notes (JsMap.size b.notes) || author_is_full by b.notes)) [
        | inl e ↦ rw (e, create) valid
        | inr e ↦
            rw (e, create)
              (add_note-IsValid by now _ _ _ (ground arith) (ground arith)
                (λ t. clean_note_title-le (or_else title (string [])))
                (λ t. clean_note_text-le (or_else text (string [])))
                (λ i. fresh_id-absent (suc (JsMap.size b.notes)) ids 0 b.notes i))
      ]

  replace_note-IsValid :
      (by id : Text) (base now : ℕ) (cur : SharedNote) (title text : Option Text)
      → JsMap.get id b.notes ≡ some cur
      → ((t : Text) → title ≡ some t → length t ≤ note_title_max)
      → ((t : Text) → text ≡ some t → utf8_bytes t ≤ note_max_bytes)
      → IsValid (replace_note b by id base now cur title text).0
  unfolding replace_note
  replace_note-IsValid by id base now cur none text e t s = valid
  replace_note-IsValid by id base now cur (some title) none e t s = valid
  replace_note-IsValid by id base now cur (some title) (some text) e t s =
      put_over b valid id (edited cur title text by (b.clock + 1) now)
        (record {
          keyed = (get-All (IsNote b.clock) id b.notes valid.sound e).keyed;
          versioned = omega arith;
          titled = t title refl;
          sized = s text refl;
        })
        cur e refl

  patched-bound :
      (P : Text → Type 0) (clean : Json → Option Text) (current : Text) (v : Json)
      → P current
      → ((t : Text) → clean v ≡ some t → P t)
      → (t : Text) → patched clean current v ≡ some t
      → P t
  unfolding patched
  patched-bound P clean current undefined h k t e = subst P (cc) h
  patched-bound P clean current _ h k t e = k t e

  edit-IsValid :
      (by id : Text) (base : ℕ) (title text : Json) (now : ℕ)
      → IsValid (edit b by id base title text now).0
  unfolding edit
  edit-IsValid by id base title text now = elim (Option-cases (JsMap.get id b.notes)) [
    | inl e ↦ rw (e, edit) valid
    | inr (cur, e) ↦
        let n = get-All (IsNote b.clock) id b.notes valid.sound e in
        rw (e, edit)
          (replace_note-IsValid by id base now cur _ _ e
            (patched-bound (λ t. length t ≤ note_title_max) clean_note_title cur.title title
              n.titled (λ t. clean_note_title-le title))
            (patched-bound (λ t. utf8_bytes t ≤ note_max_bytes) clean_note_text cur.text text
              n.sized (λ t. clean_note_text-le text)))
  ]

  deleted-IsValid :
      (id : Text)
      → IsValid (record b { notes = JsMap.delete id b.notes; locks = JsMap.delete id b.locks })
  deleted-IsValid id = record {
    sound = All-delete (IsNote b.clock) id b.notes valid.sound;
    few = omega (arith, size-delete-le id b.notes, valid.few);
    fair =
        λ label h. omega (arith, count-delete-le (by_author label) id b.notes, valid.fair label h);
    anchored =
        λ j h. ground (arith, valid.anchored j, has-delete id j b.notes, has-delete id j b.locks);
  }

  remove-IsValid : (by id : Text) → IsValid (remove b by id).0
  unfolding remove
  remove-IsValid by id = elim (Option-cases (JsMap.get id b.notes)) [
    | inl e ↦ rw (e, remove) valid
    | inr (cur, e) ↦
        rw (e, remove)
          (elim (Bool-cases (not (text_eq by host) && not (text_eq cur.by by))) [
            | inl t ↦ rw t valid
            | inr t ↦ rw t (deleted-IsValid id)
          ])
  ]

  pin-IsValid : (id : Text) (on : Bool) → IsValid (pin b id on).0
  unfolding pin
  pin-IsValid id on = elim (Option-cases (JsMap.get id b.notes)) [
    | inl e ↦ rw (e, pin) valid
    | inr (cur, e) ↦
        let n = get-All (IsNote b.clock) id b.notes valid.sound e in
        rw (e, pin)
          (put_over b valid id _
            (record {
              keyed = n.keyed;
              versioned = omega arith;
              titled = n.titled;
              sized = n.sized;
            })
            cur e refl)
  ]

  -- Other locks, on notes that are there.
  relocked :
      (locks : JsMap NoteLock)
      → ((j : Text) → JsMap.has j locks ≡ true → JsMap.has j b.notes ≡ true)
      → IsValid (record b { locks = locks })
  relocked locks h = record {
    sound = valid.sound;
    few = valid.few;
    fair = valid.fair;
    anchored = h;
  }

  unlocked-IsValid : (id : Text) → IsValid (record b { locks = JsMap.delete id b.locks })
  unlocked-IsValid id =
      relocked _ (λ j h. ground (arith, valid.anchored j, has-delete id j b.locks))

  lock_of-IsValid : (id : Text) (now : ℕ) → IsValid (lock_of b id now).0
  unfolding lock_of
  lock_of-IsValid id now = elim (Option-cases (JsMap.get id b.locks)) [
    | inl e ↦ rw (e, lock_of) valid
    | inr (l, e) ↦
        rw (e, lock_of)
          (elim (Bool-cases (leb l.until now)) [
            | inl t ↦ rw t (unlocked-IsValid id)
            | inr t ↦ rw t valid
          ])
  ]

  new_lock-IsValid :
      (id : Text) (l : NoteLock)
      → JsMap.has id b.notes ≡ true
      → IsValid (record b { locks = JsMap.set id l b.locks })
  new_lock-IsValid id l here =
      relocked _ (λ j h. ground (arith, valid.anchored j, has-set id j l b.locks, text_eq_iff id j))

  set_lock-IsValid :
      (by id : Text) (now : ℕ) (on : Bool) (cur : Option NoteLock)
      → JsMap.has id b.notes ≡ true
      → IsValid (set_lock b by id now on cur).0
  unfolding set_lock
  set_lock-IsValid by id now false none here = valid
  set_lock-IsValid by id now false (some l) here = elim (Bool-cases (text_eq l.label by)) [
    | inl t ↦ rw t (unlocked-IsValid id)
    | inr t ↦ rw t valid
  ]
  set_lock-IsValid by id now true none here = new_lock-IsValid id (new_lock id by now) here
  set_lock-IsValid by id now true (some l) here =
      elim (Bool-cases (not (text_eq l.label by) && not (text_eq by host))) [
        | inl t ↦ rw t valid
        | inr t ↦ rw t (new_lock-IsValid id (new_lock id by now) here)
      ]

-- `lock_of` leaves the notes alone.
notes-lock_of : (b : NoteBoard) (id : Text) (now : ℕ) → (lock_of b id now).0.notes ≡ b.notes
unfolding lock_of
notes-lock_of b id now = ground arith

lock-IsValid :
    (b : NoteBoard) (by id : Text) (on : Bool) (now : ℕ)
    → IsValid b
    → IsValid (lock b by id on now).0
unfolding lock
lock-IsValid b by id on now valid = elim (Bool-cases (JsMap.has id b.notes)) [
  | inr e ↦ rw e valid
  | inl e ↦ rw e (
      set_lock-IsValid (lock_of b id now).0 (lock_of-IsValid b valid id now) by id now on _
        (rw notes-lock_of e))
]

has-release_from :
    (label id : Text) (m : JsMap NoteLock)
    → JsMap.has id (release_from label m).0 ≡ true
    → JsMap.has id m ≡ true
unfolding release_from JsMap.has
has-release_from label id [] h = h
has-release_from label id ((i, l) ∷ m) h = ground (arith, has-release_from label id m)

clear-IsValid : (b : NoteBoard) → IsValid (clear b)
unfolding clear JsMap.has
clear-IsValid b = record {
  sound = tt;
  few = omega arith;
  fair = λ label h. omega arith;
  anchored = λ id h. cc;
}

pub step-IsValid : (b : NoteBoard) (c : ℕ × Call) → IsValid b → IsValid (step b c)
unfolding step release_all
step-IsValid b (now, creates by title text ids) valid = create-IsValid b valid by title text now ids
step-IsValid b (now, edits by id base title text) valid =
    edit-IsValid b valid by id base title text now
step-IsValid b (now, removes by id) valid = remove-IsValid b valid by id
step-IsValid b (now, pins id on) valid = pin-IsValid b valid id on
step-IsValid b (now, locks_or_unlocks by id on) valid = lock-IsValid b by id on now valid
step-IsValid b (now, reads_lock id) valid = lock_of-IsValid b valid id now
step-IsValid b (now, releases label) valid =
    relocked b valid _ (λ j h. valid.anchored j (has-release_from label j b.locks h))
step-IsValid b (now, clears) valid = clear-IsValid b

pub run-IsValid : (cs : List (ℕ × Call)) (b : NoteBoard) → IsValid b → IsValid (run b cs)
unfolding run
run-IsValid [] b valid = valid
run-IsValid (c ∷ cs) b valid = run-IsValid cs (step b c) (step-IsValid b c valid)

IsValid-init : IsValid init
unfolding JsMap.has
IsValid-init = record {
  sound = tt;
  few = omega arith;
  fair = λ label h. omega arith;
  anchored = λ id h. cc;
}

-- Whatever calls the board has seen since it was made, with any times and ids, it is well formed:
-- each note stands under its own id, with a version that the clock has reached, a title of at most
-- 80 units and a body of at most 64 KiB; there are at most 50 notes, and at most 10 of each author
-- other than the host; and a lock stands only on a note that is there.
pub run_notes-IsValid : (cs : List (ℕ × Call)) → IsValid (run init cs)
run_notes-IsValid cs = run-IsValid cs init IsValid-init
