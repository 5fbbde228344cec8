-- ===== src/Wall/ThreadWire.antt =====
-- ui/src/wall/threads.ts: what of a message about threads is accepted, from a peer by the host and
-- from the host by a peer.
pub mod Accepted
pub mod Relay
mod Tests
use filenymous.Prelude.{
  ℕ, ◌≤◌, Bool, true, false, ◌&&◌, ◌||◌, not, Option, none, some, List, [], ◌∷◌, leb, ◌==◌,
  if◌then◌else◌, Text, codes, text_eq, length, take, trim, blank, all,
}
use filenymous.Prelude.Json.{
  Json, undefined, null, boolean, number, string, array, object, Fields, find, int, as_string,
  as_object,
}
use filenymous.Prelude.Options.{◌>>=◌, ◌>>◌, guard}
use filenymous.Wall.Collab.{after_prefix, is_hex, is_label, is_task_id}
use filenymous.Wall.Threads.{ThreadState, pending, opened, closed, Thread, ThreadMsg}

abbrev pub thread_goal_max : ℕ
thread_goal_max = 500

abbrev pub thread_text_max : ℕ
thread_text_max = 4000

-- Control characters but tab and line feed: each becomes a space.
is_blanked : ℕ → Bool
is_blanked c = leb c 8 || (leb 0xb c && leb c 0x1f) || c == 0x7f

unfoldable pub clean : Text → ℕ → Text
unfolding is_blanked blank trim
clean s max = take max (trim (blank is_blanked s))

-- `/^th-[0-9a-f]{16}$/`
unfoldable pub is_thread_id : Text → Bool
unfolding after_prefix is_hex
is_thread_id s = elim (after_prefix (codes "th-") s) [
  | none ↦ false
  | some h ↦ length h == 16 && all is_hex h
]

-- `v !== undefined && (typeof v !== "string" || !test(v))` refuses; none inside says that v is
-- undefined.
unfoldable pub optional_text : (Text → Bool) → Json → Option (Option Text)
optional_text test undefined = some none
optional_text test (string s) = if test s then some (some s) else none
optional_text test _ = none

state_named : Text → Option ThreadState
unfolding text_eq
state_named s =
    if text_eq s (codes "pending")
    then some pending
    else if text_eq s (codes "open")
    then some opened
    else if text_eq s (codes "closed")
    then some closed
    else none

-- `x ? { x } : {}`
present : Option Text → Option Text
present none = none
present (some []) = none
present (some (c ∷ s)) = some (c ∷ s)

pub fits_goal : Text → Bool
fits_goal s = leb (length s) thread_goal_max

pub clean_fields : Fields → Option Thread
clean_fields fs = do
  id ← as_string (find (codes "id") fs)
  guard (is_thread_id id)
  a ← as_string (find (codes "a") fs)
  guard (is_label a)
  b ← as_string (find (codes "b") fs)
  guard (is_label b)
  guard (not (text_eq a b))
  name ← as_string (find (codes "state") fs)
  state ← state_named name
  at ← int 0 (find (codes "at") fs)
  n ← int 0 (find (codes "n") fs)
  goal ← optional_text fits_goal (find (codes "goal") fs)
  task ← optional_text is_task_id (find (codes "task") fs)
  closed_by ← optional_text is_label (find (codes "closedBy") fs)
  some (record {
    id = id;
    a = a;
    b = b;
    goal = present goal;
    task = present task;
    state = state;
    at = at;
    closed_by = present closed_by;
    n = n;
  })

pub clean_thread : Json → Option Thread
clean_thread v = as_object v >>= clean_fields

-- The requests of a peer and the updates of the host.
pub data ThreadMessage : Type 0 where
  thread_open : Text → Option Text → Option Text → ThreadMessage
  thread_say : Text → Text → ThreadMessage
  thread_close : Text → ThreadMessage
  thread_update : Thread → ThreadMessage
  thread_msg : Text → ThreadMsg → ThreadMessage

any_text : Text → Bool
any_text s = true

cleaned_goal : Option Text → Option Text
cleaned_goal none = none
cleaned_goal (some s) = present (some (clean s thread_goal_max))

parse_open : Fields → Option ThreadMessage
parse_open fs = do
  to ← as_string (find (codes "to") fs)
  guard (is_label to)
  goal ← optional_text any_text (find (codes "goal") fs)
  task ← optional_text is_task_id (find (codes "task") fs)
  some (thread_open to (cleaned_goal goal) (present task))

parse_say : Fields → Option ThreadMessage
parse_say fs = do
  id ← as_string (find (codes "id") fs)
  guard (is_thread_id id)
  text ← as_string (find (codes "text") fs)
  guard (leb 1 (length (clean text thread_text_max)))
  some (thread_say id (clean text thread_text_max))

parse_close : Fields → Option ThreadMessage
parse_close fs = do
  id ← as_string (find (codes "id") fs)
  guard (is_thread_id id)
  some (thread_close id)

parse_update : Fields → Option ThreadMessage
parse_update fs = do thread ← clean_thread (find (codes "thread") fs); some (thread_update thread)

parse_msg : Fields → Option ThreadMessage
parse_msg fs = do
  id ← as_string (find (codes "id") fs)
  guard (is_thread_id id)
  m ← as_object (find (codes "msg") fs)
  n ← int 0 (find (codes "n") m)
  at ← int 0 (find (codes "at") m)
  by ← as_string (find (codes "by") m)
  guard (is_label by)
  text ← as_string (find (codes "text") m)
  guard (leb 1 (length text) && leb (length text) thread_text_max)
  some (thread_msg id (record { n = n; by = by; at = at; text = text }))

parse_named : Text → Fields → Option ThreadMessage
unfolding text_eq
parse_named t fs =
    if text_eq t (codes "thread-open")
    then parse_open fs
    else if text_eq t (codes "thread-say")
    then parse_say fs
    else if text_eq t (codes "thread-close")
    then parse_close fs
    else if text_eq t (codes "thread")
    then parse_update fs
    else if text_eq t (codes "thread-msg")
    then parse_msg fs
    else none

-- `parseThreadMessage`
pub parse_thread_message : Fields → Option ThreadMessage
parse_thread_message fs = do t ← as_string (find (codes "t") fs); parse_named t fs
