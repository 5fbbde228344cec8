-- ===== src/Wall/TaskWire/Tests.antt =====
-- Tasks as a peer reads them, on concrete inputs.
use filenymous.Prelude.{◌≡◌, refl, false, none, some, codes, text_eq}
use filenymous.Prelude.Json.{
  Json, null, boolean, string, number, integer, pos, object, end, with_field, find, int, as_string,
  as_boolean, as_object,
}
use filenymous.Prelude.Options.{Each}
use filenymous.Wall.Collab.{clean, is_label, is_task_id, is_result_id}
use filenymous.Wall.Tasks.{task, working, Task, agent_task_state, clean_task_text, clean_task_note}
use filenymous.Wall.TaskWire
use filenymous.Wall.TaskWire.{
  kind_named, clean_owner, done_of, state_of, not_empty, note_of, result_of, clean_task,
}
use filenymous.Wall.TaskWire.Accepted.{IsReceived, clean_task-IsReceived}

wire_functions : Unit {0}
unfolding clean_task filenymous.Wall.TaskWire.task_of kind_named clean_owner done_of state_of
    not_empty note_of result_of find int as_string as_boolean as_object text_eq is_label is_task_id
    is_result_id agent_task_state clean_task_text clean_task_note clean
wire_functions = tt

abbrev sent : Json
sent = object (
    with_field (codes "id") (string (codes "t-0123456789abcdef")) (
      with_field (codes "kind") (string (codes "task")) (
        with_field (codes "text") (string (codes " build ")) (
          with_field (codes "owner") null (
            with_field (codes "done") (boolean false) (
              with_field (codes "by") (string (codes "host")) (
                with_field (codes "editedBy") (string (codes "peer:1")) (
                  with_field (codes "at") (number (integer (pos 5))) (
                    with_field (codes "editedAt") (number (integer (pos 6))) (
                      with_field (codes "v") (number (integer (pos 2))) (
                        with_field (codes "state") (string (codes "working")) (
                          with_field (codes "note") (string (codes "on it"))
                            (with_field (codes "result") (string (codes "no/id")) end)))))))))))))

abbrev read : Task
read = record {
  id = codes "t-0123456789abcdef";
  kind = task;
  text = codes "build";
  owner = none;
  done = false;
  by = codes "host";
  at = 5;
  edited_by = codes "peer:1";
  edited_at = 6;
  v = 2;
  state = some working;
  note = some (codes "on it");
  result = none;
}

sent_is_read : clean_task sent ≡ some read
unfolding wire_functions
sent_is_read = refl

no_task : clean_task (object end) ≡ none
unfolding wire_functions
no_task = refl

clean_task-IsReceived_example : Each IsReceived (clean_task sent)
clean_task-IsReceived_example = clean_task-IsReceived sent

-- The cut may leave a space at the end, which the same cleaning drops on the other side.
cut_leaves_space : clean (codes "ab c") 3 ≡ codes "ab "
unfolding wire_functions
cut_leaves_space = refl

space_is_dropped : clean (codes "ab ") 3 ≡ codes "ab"
unfolding wire_functions
space_is_dropped = refl
