-- ===== src/Wall/Notes/Locks.antt =====
-- The soft locks: nobody but the host takes over a live lock by the call for locks, and a lock ends
-- by itself.
use filenymous.Prelude.{
  ℕ, ◌+◌, ◌<◌, ◌≡◌, ◌≢◌, refl, Bool, true, false, not, none, some, arith, leb, if◌then◌else◌, Text,
  text_eq, text_eq_refl, filter, map, text_eq_iff, [], ◌∷◌,
}
use filenymous.JsMap
use filenymous.JsMap.{JsMap, get-set, get-delete}
use filenymous.Wall.Notes.{
  NoteBoard, NoteLock, locked, unchanged, lock, lock_of, set_lock, new_lock, release_all,
  release_from, host, note_lock_ms,
}

-- A member other than the host who asks to take or to release the lock of a note while another member
-- holds it, of any note and at any time before the lock ends, changes nothing on the board. To remove
-- the note is another call, which ends its lock.
pub lock_not_stolen :
    (b : NoteBoard) (by id : Text) (on : Bool) (now : ℕ) (l : NoteLock)
    → JsMap.get id b.locks ≡ some l
    → now < l.until
    → l.label ≢ by
    → by ≢ host
    → lock b by id on now ≡ (b, unchanged)
unfolding lock lock_of set_lock
lock_not_stolen b by id true now l here live other guest =
    ground (arith, text_eq_iff l.label by, text_eq_iff by host)
lock_not_stolen b by id false now l here live other guest = ground (arith, text_eq_iff l.label by)

-- A lock that was granted is the caller's; it is there for the ten seconds of the host's clock, then
-- it is gone, and the locks of the other notes are as they were.
pub lock-lasts :
    (b c : NoteBoard) (by id : Text) (now t : ℕ) (l : NoteLock)
    → lock b by id true now ≡ (c, locked l)
    → (l.label ≡ by)
      × ((lock_of c id t).1 ≡ (if leb (now + note_lock_ms) t then none else some l))
      × ((j : Text) → text_eq id j ≡ false → JsMap.get j c.locks ≡ JsMap.get j b.locks)
unfolding lock lock_of set_lock new_lock
lock-lasts b c by id now t l done = (
  ground (arith, get-set id id (new_lock id by now) b.locks),
  ground (
    arith,
    text_eq_refl id,
    get-set id id (new_lock id by now) b.locks,
    get-set id id (new_lock id by now) (JsMap.delete id b.locks),
  ),
  λ j other. ground (
    arith,
    get-delete id j b.locks,
    get-set id j (new_lock id by now) b.locks,
    get-set id j (new_lock id by now) (JsMap.delete id b.locks),
  ),
)

release_from-filter :
    (label : Text) (m : JsMap NoteLock)
    → ((release_from label m).0 ≡ filter (λ e. not (text_eq e.1.label label)) m)
      × ((release_from label m).1 ≡ map (λ e. e.0) (filter (λ e. text_eq e.1.label label) m))
unfolding release_from
release_from-filter label [] = (refl, refl)
release_from-filter label ((id, l) ∷ m) =
    (ground (arith, release_from-filter label m), ground (arith, release_from-filter label m))

-- A departing member's locks go, and the others stay in their order; the result names the notes
-- whose locks went.
pub release_all-splits :
    (b : NoteBoard) (label : Text)
    → ((release_all b label).0.locks ≡ filter (λ e. not (text_eq e.1.label label)) b.locks)
      × ((release_all b label).1 ≡ map (λ e. e.0) (filter (λ e. text_eq e.1.label label) b.locks))
unfolding release_all
release_all-splits b label = release_from-filter label b.locks
