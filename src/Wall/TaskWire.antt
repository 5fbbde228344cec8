-- ===== src/Wall/TaskWire.antt =====
-- ui/src/wall/collab.ts: `cleanTask`, what a peer accepts as a task of the host.
pub mod Accepted
mod Tests
use filenymous.Prelude.{
  ℕ, Bool, true, false, ◌&&◌, not, Option, none, some, List, [], ◌∷◌, if◌then◌else◌, Text, codes,
  text_eq,
}
use filenymous.Prelude.Json.{
  Json, undefined, null, boolean, number, string, array, object, Fields, find, int, as_string,
  as_boolean, as_object,
}
use filenymous.Prelude.Options.{◌>>=◌, ◌>>◌, guard}
use filenymous.Wall.Collab.{is_label, is_task_id, is_result_id}
use filenymous.Wall.Tasks.{
  TaskKind, task, decision, AgentTaskState, Task, agent_task_state, clean_task_text,
  clean_task_note,
}

-- `o.kind !== "task" && o.kind !== "decision"`
unfoldable pub kind_named : Text → Option TaskKind
unfolding text_eq
kind_named s =
    if text_eq s (codes "task")
    then some task
    else if text_eq s (codes "decision")
    then some decision
    else none

-- `o.owner === null || isLabel(o.owner)`
unfoldable pub clean_owner : Json → Option (Option Text)
unfolding is_label
clean_owner null = some none
clean_owner (string s) = if is_label s then some (some s) else none
clean_owner _ = none

-- `o.kind === "task" ? o.done : false`
unfoldable pub done_of : TaskKind → Bool → Bool
done_of task done = done
done_of decision done = false

-- The agent's state, of a task only.
unfoldable pub state_of : TaskKind → Json → Option AgentTaskState
unfolding agent_task_state
state_of task (string s) = agent_task_state s
state_of task _ = none
state_of decision v = none

-- `note ? note : nothing`, of what `cleanTaskNote` returns
unfoldable pub not_empty : Option Text → Option Text
not_empty none = none
not_empty (some []) = none
not_empty (some (c ∷ s)) = some (c ∷ s)

unfoldable pub note_of : Option AgentTaskState → Json → Option Text
unfolding clean_task_note not_empty
note_of (some s) (string n) = not_empty (clean_task_note n)
note_of _ _ = none

unfoldable pub result_of : Option AgentTaskState → Json → Option Text
unfolding is_result_id
result_of (some s) (string r) = if is_result_id r then some r else none
result_of _ _ = none

pub task_of : Fields → Option Task
task_of fs = do
  id ← as_string (find (codes "id") fs)
  guard (is_task_id id)
  name ← as_string (find (codes "kind") fs)
  kind ← kind_named name
  raw ← as_string (find (codes "text") fs)
  text ← clean_task_text raw
  owner ← clean_owner (find (codes "owner") fs)
  done ← as_boolean (find (codes "done") fs)
  by ← as_string (find (codes "by") fs)
  guard (is_label by)
  edited_by ← as_string (find (codes "editedBy") fs)
  guard (is_label edited_by)
  at ← int 0 (find (codes "at") fs)
  edited_at ← int 0 (find (codes "editedAt") fs)
  v ← int 1 (find (codes "v") fs)
  let state = state_of kind (find (codes "state") fs) in
      some (record {
        id = id;
        kind = kind;
        text = text;
        owner = owner;
        done = done_of kind done;
        by = by;
        at = at;
        edited_by = edited_by;
        edited_at = edited_at;
        v = v;
        state = state;
        note = note_of state (find (codes "note") fs);
        result = result_of state (find (codes "result") fs);
      })

pub clean_task : Json → Option Task
clean_task v = as_object v >>= task_of
