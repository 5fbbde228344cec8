-- ===== src/Wall/ThreadWire/Accepted.antt =====
-- Whatever a peer or a host sends, what passes has the shape that the rest of the code relies on.
use filenymous.Prelude.{
  ◌≤◌, ◌≡◌, refl, subst, inl, inr, Bool, true, false, ◌&&◌, not, Option, none, some, [], ◌∷◌, leb,
  leb→le, le→leb, arith, Text, text_eq, codes, length, length-take-le, Bool-cases,
}
use filenymous.Prelude.Json.{
  Json, undefined, null, boolean, number, string, array, object, Fields, find, int, int_bounds,
  as_string, as_object, max_safe_integer,
}
use filenymous.Prelude.Options.{Each, Each-bind, Each-guard, Each-if}
use filenymous.Wall.Collab.{is_label, is_task_id}
use filenymous.Wall.Threads.{Thread}
use filenymous.Wall.ThreadWire.{
  thread_goal_max, thread_text_max, clean, is_thread_id, optional_text, state_named, present,
  fits_goal, clean_fields, clean_thread, ThreadMessage, thread_open, thread_say, thread_close,
  thread_update, thread_msg, any_text, cleaned_goal, parse_open, parse_say, parse_close,
  parse_update, parse_msg, parse_named, parse_thread_message,
}

-- A text that is there is not empty and passes the test.
abbrev pub IsPresent : (Text → Bool) → Option Text → Type 0
IsPresent test none = Unit
IsPresent test (some s) = (test s ≡ true) × (1 ≤ length s)

pub record IsThread (t : Thread) : Type 0 where
  pub named : is_thread_id t.id ≡ true
  pub opener : is_label t.a ≡ true
  pub other : is_label t.b ≡ true
  pub apart : text_eq t.a t.b ≡ false
  pub dated : t.at ≤ max_safe_integer
  pub counted : t.n ≤ max_safe_integer
  pub goal : IsPresent fits_goal t.goal
  pub task : IsPresent is_task_id t.task
  pub closer : IsPresent is_label t.closed_by

pub IsMessage : ThreadMessage → Type 0
IsMessage (thread_open to goal task) =
    (is_label to ≡ true) × IsPresent fits_goal goal × IsPresent is_task_id task
IsMessage (thread_say id text) =
    (is_thread_id id ≡ true) × (1 ≤ length text) × (length text ≤ thread_text_max)
IsMessage (thread_close id) = is_thread_id id ≡ true
IsMessage (thread_update t) = IsThread t
IsMessage (thread_msg id m) =
    (is_thread_id id ≡ true)
    × (is_label m.by ≡ true)
    × (m.n ≤ max_safe_integer)
    × (m.at ≤ max_safe_integer)
    × (1 ≤ length m.text)
    × (length m.text ≤ thread_text_max)

Passes : (Text → Bool) → Option Text → Type 0
Passes test none = Unit
Passes test (some s) = test s ≡ true

present-IsPresent :
    (test : Text → Bool) (o : Option Text) → Passes test o → IsPresent test (present o)
unfolding present Passes
present-IsPresent test none h = tt
present-IsPresent test (some []) h = tt
present-IsPresent test (some (c ∷ s)) h = (h, omega arith)

optional_text-Each : (test : Text → Bool) (v : Json) → Each (Passes test) (optional_text test v)
unfolding optional_text Passes
optional_text-Each test undefined = tt
optional_text-Each test (string s) = elim (Bool-cases (test s)) [
  | inl e ↦ rw (e, e) refl
  | inr e ↦ rw e tt
]
optional_text-Each test null = tt
optional_text-Each test (boolean b) = tt
optional_text-Each test (number n) = tt
optional_text-Each test (array xs) = tt
optional_text-Each test (object fs) = tt

optional_text-Passes :
    (test : Text → Bool) (v : Json) {o : Option Text}
    → optional_text test v ≡ some o
    → Passes test o
optional_text-Passes test v h = subst (Each (Passes test)) h (optional_text-Each test v)

length-clean : (s : Text) → length (clean s thread_text_max) ≤ thread_text_max
unfolding clean
length-clean s = length-take-le thread_text_max _

fits_goal-clean : (s : Text) → Passes fits_goal (some (clean s thread_goal_max))
unfolding Passes fits_goal clean
fits_goal-clean s = le→leb _ thread_goal_max (length-take-le thread_goal_max _)

cleaned_goal-IsPresent : (o : Option Text) → IsPresent fits_goal (cleaned_goal o)
unfolding cleaned_goal
cleaned_goal-IsPresent none = tt
cleaned_goal-IsPresent (some s) =
    present-IsPresent fits_goal (some (clean s thread_goal_max)) (fits_goal-clean s)

clean_fields-IsThread : (fs : Fields) → Each IsThread (clean_fields fs)
unfolding clean_fields
clean_fields-IsThread fs = Each-bind IsThread (as_string (find _ fs)) _ λ id _.
    Each-guard IsThread (is_thread_id id) _ λ named.
      Each-bind IsThread (as_string (find _ fs)) _ λ a _.
        Each-guard IsThread (is_label a) _ λ opener.
          Each-bind IsThread (as_string (find _ fs)) _ λ b _.
            Each-guard IsThread (is_label b) _ λ other.
              Each-guard IsThread (not (text_eq a b)) _ λ apart.
                Each-bind IsThread (as_string (find _ fs)) _ λ name _.
                  Each-bind IsThread (state_named name) _ λ state _.
                    Each-bind IsThread (int 0 (find _ fs)) _ λ at dated.
                      Each-bind IsThread (int 0 (find _ fs)) _ λ n counted.
                        Each-bind IsThread (optional_text fits_goal (find _ fs)) _ λ goal g.
                          Each-bind IsThread (optional_text is_task_id (find _ fs)) _ λ task t.
                            Each-bind IsThread (optional_text is_label (find _ fs)) _ λ closer c.
                              record {
                                named = named;
                                opener = opener;
                                other = other;
                                apart = ground arith;
                                dated = (int_bounds 0 (find (codes "at") fs) dated).1;
                                counted = (int_bounds 0 (find (codes "n") fs) counted).1;
                                goal =
                                    present-IsPresent fits_goal goal
                                      (optional_text-Passes fits_goal (find (codes "goal") fs) g);
                                task =
                                    present-IsPresent is_task_id task
                                      (optional_text-Passes is_task_id (find (codes "task") fs) t);
                                closer =
                                    present-IsPresent is_label closer (
                                      optional_text-Passes is_label (find (codes "closedBy") fs) c);
                              }

pub clean_thread-IsThread : (v : Json) → Each IsThread (clean_thread v)
unfolding clean_thread
clean_thread-IsThread v = Each-bind IsThread (as_object v) _ λ fs _. clean_fields-IsThread fs

module _ (fs : Fields) where
  parse_open-IsMessage : Each IsMessage (parse_open fs)
  unfolding parse_open IsMessage
  parse_open-IsMessage = Each-bind IsMessage (as_string (find _ fs)) _ λ to _.
      Each-guard IsMessage (is_label to) _ λ member.
        Each-bind IsMessage (optional_text any_text (find _ fs)) _ λ goal _.
          Each-bind IsMessage (optional_text is_task_id (find _ fs)) _ λ task t. (
            member,
            cleaned_goal-IsPresent goal,
            present-IsPresent is_task_id task
                (optional_text-Passes is_task_id (find (codes "task") fs) t),
          )

  parse_say-IsMessage : Each IsMessage (parse_say fs)
  unfolding parse_say IsMessage
  parse_say-IsMessage = Each-bind IsMessage (as_string (find _ fs)) _ λ id _.
      Each-guard IsMessage (is_thread_id id) _ λ named.
        Each-bind IsMessage (as_string (find _ fs)) _ λ text _.
          Each-guard IsMessage (leb 1 (length (clean text thread_text_max))) _
            λ full. (named, leb→le 1 _ full, length-clean text)

  parse_close-IsMessage : Each IsMessage (parse_close fs)
  unfolding parse_close IsMessage
  parse_close-IsMessage =
      Each-bind IsMessage (as_string (find _ fs)) _
        λ id _. Each-guard IsMessage (is_thread_id id) _ λ named. named

  parse_update-IsMessage : Each IsMessage (parse_update fs)
  unfolding parse_update IsMessage
  parse_update-IsMessage =
      Each-bind IsMessage (clean_thread (find _ fs)) _
        λ t e. subst (Each IsThread) e (clean_thread-IsThread (find (codes "thread") fs))

  parse_msg-IsMessage : Each IsMessage (parse_msg fs)
  unfolding parse_msg IsMessage
  parse_msg-IsMessage = Each-bind IsMessage (as_string (find _ fs)) _ λ id _.
      Each-guard IsMessage (is_thread_id id) _ λ named.
        Each-bind IsMessage (as_object (find _ fs)) _ λ m _.
          Each-bind IsMessage (int 0 (find _ m)) _ λ n counted.
            Each-bind IsMessage (int 0 (find _ m)) _ λ at dated.
              Each-bind IsMessage (as_string (find _ m)) _ λ by _.
                Each-guard IsMessage (is_label by) _ λ member.
                  Each-bind IsMessage (as_string (find _ m)) _ λ text _.
                    Each-guard IsMessage (leb 1 (length text) && leb (length text) thread_text_max)
                      _
                      λ sized. (
                        named,
                        member,
                        (int_bounds 0 (find (codes "n") m) counted).1,
                        (int_bounds 0 (find (codes "at") m) dated).1,
                        ground arith,
                        ground arith,
                      )

  parse_named-IsMessage : (t : Text) → Each IsMessage (parse_named t fs)
  unfolding parse_named
  parse_named-IsMessage t =
      Each-if IsMessage (text_eq t (codes "thread-open")) (parse_open fs) _ parse_open-IsMessage (
        Each-if IsMessage (text_eq t (codes "thread-say")) (parse_say fs) _ parse_say-IsMessage (
          Each-if IsMessage (text_eq t (codes "thread-close")) (parse_close fs) _
            parse_close-IsMessage
            (Each-if IsMessage (text_eq t (codes "thread")) (parse_update fs) _
              parse_update-IsMessage
              (Each-if IsMessage (text_eq t (codes "thread-msg")) (parse_msg fs) none
                parse_msg-IsMessage tt))))

-- Every message that `parseThreadMessage` accepts, whatever was sent: ids and labels have their
-- form, a thread links two different labels, numbers are safe integers that are not negative, an
-- optional text that is there is not empty and in its bounds (a goal has at most 500 code units, a
-- task has the form of a task's id), and a message's text has from 1 to 4000 code units.
pub parse_thread_message-IsMessage : (fs : Fields) → Each IsMessage (parse_thread_message fs)
unfolding parse_thread_message
parse_thread_message-IsMessage fs =
    Each-bind IsMessage (as_string (find _ fs)) _ λ t _. parse_named-IsMessage fs t
