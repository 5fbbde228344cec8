-- ===== src/Wall/TaskWire/Accepted.antt =====
-- What a peer accepts as a task is well formed.
use filenymous.Prelude.{
  subst, ◌≤◌, ◌≡◌, refl, inl, inr, Bool, true, false, Option, none, some, arith, codes, length,
  Bool-cases,
}
use filenymous.Prelude.Json.{
  Json, undefined, null, boolean, number, string, array, object, Fields, find, int, int_bounds,
  as_string, as_boolean, as_object, max_safe_integer,
}
use filenymous.Prelude.Options.{Each, Each-bind, Each-guard}
use filenymous.Wall.Collab.{length-clean, is_label, is_task_id, is_result_id}
use filenymous.Wall.Tasks.{
  TaskKind, task, decision, AgentTaskState, Task, clean_task_text, clean_task_note, task_text_max,
  task_note_max,
}
use filenymous.Wall.Tasks.Patches.{clean_task_text-bounds}
use filenymous.Wall.TaskWire.{
  kind_named, clean_owner, done_of, state_of, not_empty, note_of, result_of, task_of, clean_task,
}

pub record IsReceived (t : Task) : Type 0 where
  pub named : is_task_id t.id ≡ true
  pub full : 1 ≤ length t.text
  pub sized : length t.text ≤ task_text_max
  pub owned : Each (λ l. is_label l ≡ true) t.owner
  pub written : is_label t.by ≡ true
  pub edited : is_label t.edited_by ≡ true
  pub dated : (t.at ≤ max_safe_integer) × (t.edited_at ≤ max_safe_integer)
  pub versioned : (1 ≤ t.v) × (t.v ≤ max_safe_integer)
  -- A decision is never done and carries nothing of an agent's.
  pub plain : t.kind ≡ decision → (t.done ≡ false) × (t.state ≡ none)
  -- A note or a result belongs to a delegated task.
  pub delegated : t.state ≡ none → (t.note ≡ none) × (t.result ≡ none)
  pub noted : Each (λ n. (1 ≤ length n) × (length n ≤ task_note_max)) t.note
  pub resulted : Each (λ r. is_result_id r ≡ true) t.result

clean_owner-Each : (v : Json) → Each (Each (λ l. is_label l ≡ true)) (clean_owner v)
unfolding clean_owner
clean_owner-Each null = tt
clean_owner-Each (string s) = elim (Bool-cases (is_label s)) [
  | inl e ↦ rw (e, e) refl
  | inr e ↦ rw e tt
]
clean_owner-Each undefined = tt
clean_owner-Each (boolean b) = tt
clean_owner-Each (number n) = tt
clean_owner-Each (array xs) = tt
clean_owner-Each (object fs) = tt

note_of-bounds :
    (state : Option AgentTaskState) (v : Json)
    → Each (λ n. (1 ≤ length n) × (length n ≤ task_note_max)) (note_of state v)
unfolding note_of not_empty clean_task_note
note_of-bounds none v = tt
note_of-bounds (some s) (string n) = ground (arith, length-clean n task_note_max)
note_of-bounds (some s) undefined = tt
note_of-bounds (some s) null = tt
note_of-bounds (some s) (boolean b) = tt
note_of-bounds (some s) (number n) = tt
note_of-bounds (some s) (array xs) = tt
note_of-bounds (some s) (object fs) = tt

result_of-Each :
    (state : Option AgentTaskState) (v : Json)
    → Each (λ r. is_result_id r ≡ true) (result_of state v)
unfolding result_of
result_of-Each none v = tt
result_of-Each (some s) (string r) = elim (Bool-cases (is_result_id r)) [
  | inl e ↦ rw (e, e) refl
  | inr e ↦ rw e tt
]
result_of-Each (some s) undefined = tt
result_of-Each (some s) null = tt
result_of-Each (some s) (boolean b) = tt
result_of-Each (some s) (number n) = tt
result_of-Each (some s) (array xs) = tt
result_of-Each (some s) (object fs) = tt

plain_kind :
    (kind : TaskKind) (done : Bool) (v : Json)
    → kind ≡ decision
    → (done_of kind done ≡ false) × (state_of kind v ≡ none)
unfolding done_of state_of
plain_kind task done v h = ground arith
plain_kind decision done v h = (refl, refl)

not_delegated :
    (state : Option AgentTaskState) (n r : Json)
    → state ≡ none
    → (note_of state n ≡ none) × (result_of state r ≡ none)
unfolding note_of result_of
not_delegated none n r h = (refl, refl)
not_delegated (some s) n r h = ground arith

task_of-IsReceived : (fs : Fields) → Each IsReceived (task_of fs)
unfolding task_of
task_of-IsReceived fs = Each-bind IsReceived (as_string (find _ fs)) _ λ id _.
    Each-guard IsReceived (is_task_id id) _ λ named.
      Each-bind IsReceived (as_string (find _ fs)) _ λ name _.
        Each-bind IsReceived (kind_named name) _ λ kind _.
          Each-bind IsReceived (as_string (find _ fs)) _ λ raw _.
            Each-bind IsReceived (clean_task_text raw) _ λ text sized.
              Each-bind IsReceived (clean_owner (find _ fs)) _ λ owner owned.
                Each-bind IsReceived (as_boolean (find _ fs)) _ λ done _.
                  Each-bind IsReceived (as_string (find _ fs)) _ λ by _.
                    Each-guard IsReceived (is_label by) _ λ written.
                      Each-bind IsReceived (as_string (find _ fs)) _ λ edited_by _.
                        Each-guard IsReceived (is_label edited_by) _ λ edited.
                          Each-bind IsReceived (int 0 (find _ fs)) _ λ at dated.
                            Each-bind IsReceived (int 0 (find _ fs)) _ λ edited_at redated.
                              Each-bind IsReceived (int 1 (find _ fs)) _ λ v versioned.
                                let state = state_of kind (find (codes "state") fs) in
                                record {
                                  named = named;
                                  full = (clean_task_text-bounds raw sized).0;
                                  sized = (clean_task_text-bounds raw sized).1;
                                  owned =
                                      subst (Each (Each (λ l. is_label l ≡ true))) owned
                                        (clean_owner-Each (find (codes "owner") fs));
                                  written = written;
                                  edited = edited;
                                  dated = (
                                    (int_bounds 0 (find (codes "at") fs) dated).1,
                                    (int_bounds 0 (find (codes "editedAt") fs) redated).1,
                                  );
                                  versioned = int_bounds 1 (find (codes "v") fs) versioned;
                                  plain = plain_kind kind done (find (codes "state") fs);
                                  delegated =
                                      not_delegated state (find (codes "note") fs)
                                        (find (codes "result") fs);
                                  noted = note_of-bounds state (find (codes "note") fs);
                                  resulted = result_of-Each state (find (codes "result") fs);
                                }

-- Every task that `cleanTask` accepts, whatever was sent: its id, its members' labels and its result
-- have their form, its text has from 1 to 500 code units and its note as many, its numbers are safe
-- integers and its version is at least 1, a decision is not done and has no agent's state, and only a
-- task with an agent's state has a note or a result.
pub clean_task-IsReceived : (v : Json) → Each IsReceived (clean_task v)
unfolding clean_task
clean_task-IsReceived v = Each-bind IsReceived (as_object v) _ λ fs _. task_of-IsReceived fs
