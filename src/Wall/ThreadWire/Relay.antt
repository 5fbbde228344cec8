-- ===== src/Wall/ThreadWire/Relay.antt =====
-- What the host sends of a thread is accepted by a peer as it is.
use filenymous.Prelude.{
  ℕ, ◌≤◌, ◌≡◌, refl, subst, Bool, Option, none, some, [], ◌∷◌, arith, Text, text_eq, codes,
}
use filenymous.Prelude.Json.{
  Json, string, number, integer, pos, object, Fields, end, with_field, find, int, as_string,
  as_object, max_safe_integer,
}
use filenymous.Prelude.Options.{Each}
use filenymous.Wall.Collab.{is_label, is_task_id}
use filenymous.Wall.Threads.{ThreadState, pending, opened, closed, Thread}
use filenymous.Wall.ThreadWire.{
  optional_text, state_named, present, fits_goal, clean_fields, clean_thread,
}
use filenymous.Wall.ThreadWire.Accepted.{IsPresent, IsThread, clean_thread-IsThread}

state_name : ThreadState → Text
state_name pending = codes "pending"
state_name opened = codes "open"
state_name closed = codes "closed"

optional_field : Text → Option Text → Fields → Fields
optional_field k none fs = fs
optional_field k (some s) fs = with_field k (string s) fs

optional_fields : Option Text → Option Text → Option Text → Fields
unfolding optional_field
optional_fields goal task closer =
    optional_field (codes "goal") goal
      (optional_field (codes "task") task (optional_field (codes "closedBy") closer end))

-- The object that `JSON.stringify` writes of a thread and `JSON.parse` reads again.
pub thread_fields : Thread → Fields
unfolding state_name optional_fields
thread_fields t = with_field (codes "id") (string t.id) (
    with_field (codes "a") (string t.a) (
      with_field (codes "b") (string t.b) (
        with_field (codes "state") (string (state_name t.state)) (
          with_field (codes "at") (number (integer (pos t.at))) (
            with_field (codes "n") (number (integer (pos t.n)))
              (optional_fields t.goal t.task t.closed_by))))))

state_named_back : (s : ThreadState) → state_named (state_name s) ≡ some s
unfolding state_named state_name text_eq
state_named_back pending = refl
state_named_back opened = refl
state_named_back closed = refl

goal_back :
    (goal task closer : Option Text)
    → IsPresent fits_goal goal
    → optional_text fits_goal (find (codes "goal") (optional_fields goal task closer)) ≡ some goal
unfolding find text_eq optional_fields optional_field optional_text
goal_back (some s) task closer h = rw h.0 refl
goal_back none none none h = refl
goal_back none none (some y) h = refl
goal_back none (some x) none h = refl
goal_back none (some x) (some y) h = refl

task_back :
    (goal task closer : Option Text)
    → IsPresent is_task_id task
    → optional_text is_task_id (find (codes "task") (optional_fields goal task closer)) ≡ some task
unfolding find text_eq optional_fields optional_field optional_text
task_back none (some s) closer h = rw h.0 refl
task_back (some x) (some s) closer h = rw h.0 refl
task_back none none none h = refl
task_back none none (some y) h = refl
task_back (some x) none none h = refl
task_back (some x) none (some y) h = refl

closer_back :
    (goal task closer : Option Text)
    → IsPresent is_label closer
    → optional_text is_label (find (codes "closedBy") (optional_fields goal task closer))
      ≡ some closer
unfolding find text_eq optional_fields optional_field optional_text
closer_back none none (some s) h = rw h.0 refl
closer_back none (some y) (some s) h = rw h.0 refl
closer_back (some x) none (some s) h = rw h.0 refl
closer_back (some x) (some y) (some s) h = rw h.0 refl
closer_back none none none h = refl
closer_back none (some y) none h = refl
closer_back (some x) none none h = refl
closer_back (some x) (some y) none h = refl

present_back : (test : Text → Bool) (o : Option Text) → IsPresent test o → present o ≡ o
unfolding present
present_back test none h = refl
present_back test (some []) h = ground arith
present_back test (some (c ∷ s)) h = refl

int_back : (n : ℕ) → n ≤ max_safe_integer → int 0 (number (integer (pos n))) ≡ some n
unfolding int
int_back n h = ground arith

clean_fields_back : (t : Thread) → IsThread t → clean_fields (thread_fields t) ≡ some t
unfolding clean_fields thread_fields find text_eq as_string
clean_fields_back t h =
    rw
      (
        h.named,
        h.opener,
        h.other,
        h.apart,
        state_named_back t.state,
        int_back t.at h.dated,
        int_back t.n h.counted,
        goal_back t.goal t.task t.closed_by h.goal,
        task_back t.goal t.task t.closed_by h.task,
        closer_back t.goal t.task t.closed_by h.closer,
        present_back fits_goal t.goal h.goal,
        present_back is_task_id t.task h.task,
        present_back is_label t.closed_by h.closer,
      )
      refl

-- Whatever thread a peer has accepted is accepted again as it is when it is sent on, with nothing
-- changed.
pub clean_thread-relays :
    (v : Json) (t : Thread)
    → clean_thread v ≡ some t
    → clean_thread (object (thread_fields t)) ≡ some t
unfolding clean_thread as_object
clean_thread-relays v t e = clean_fields_back t (subst (Each IsThread) e (clean_thread-IsThread v))
