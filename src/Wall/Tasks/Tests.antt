-- ===== src/Wall/Tasks/Tests.antt =====
-- The task board on concrete inputs.
use mathlib.Core.List.{Perm}
use filenymous.Prelude.{ℕ, ◌≡◌, refl, true, false, none, some, List, [], ◌∷◌, Text, codes, text_eq}
use filenymous.JsMap
use filenymous.Wall.Tasks.{
  task, decision, submitted, completed, Task, TaskPatch, TaskBoard, ok, err, forbidden, Call,
  creates, updates, init, run, step, create, update, list, agent_task_state, clean_task_text,
  clean_task_note,
}
use filenymous.Wall.Tasks.Invariant.{IsValid, run_tasks-IsValid}
use filenymous.Wall.Tasks.Authority.{Respects, update-Respects}
use filenymous.Wall.Tasks.Lifecycle.{Reaches, update-Reaches}
use filenymous.Wall.Tasks.Order.{InOrder, list-InOrder}

board_functions : Unit {0}
unfolding run step create update list agent_task_state clean_task_text clean_task_note JsMap.get
    JsMap.set text_eq
board_functions = tt

abbrev host : Text
host = codes "host"

abbrev agent : Text
agent = codes "peer:1"

abbrev guest : Text
guest = codes "peer:2"

abbrev no_change : TaskPatch
no_change = record {
  done = none;
  owner = none;
  text = none;
  state = none;
  note = none;
  result = none;
}

abbrev script : List (ℕ × Call)
script =
    (5, creates host decision (codes "use it") none none (codes "t-0"))
    ∷ (6, creates host task (codes " build ") (some agent) (some submitted) (codes "t-1"))
    ∷ (7, updates agent (codes "t-1") (record no_change { note = some (codes "on it") }) false)
    ∷ []

abbrev chosen : Task
chosen = record {
  id = codes "t-0";
  kind = decision;
  text = codes "use it";
  owner = none;
  done = false;
  by = host;
  at = 5;
  edited_by = host;
  edited_at = 5;
  v = 1;
  state = none;
  note = none;
  result = none;
}

abbrev delegated : Task
delegated = record {
  id = codes "t-1";
  kind = task;
  text = codes "build";
  owner = some agent;
  done = false;
  by = host;
  at = 6;
  edited_by = agent;
  edited_at = 7;
  v = 3;
  state = some submitted;
  note = some (codes "on it");
  result = none;
}

abbrev board : TaskBoard
board = record { tasks = (codes "t-0", chosen) ∷ (codes "t-1", delegated) ∷ []; v = 3 }

script_runs : run init script ≡ board
unfolding board_functions
script_runs = refl

guest_is_refused :
    update board guest (codes "t-1") (record no_change { note = some [] }) false 8
    ≡ (board, err forbidden)
unfolding board_functions
guest_is_refused = refl

run_tasks-IsValid_example : IsValid (run init script)
run_tasks-IsValid_example = run_tasks-IsValid script

list-InOrder_example : Perm (list board) (chosen ∷ delegated ∷ []) × InOrder (list board)
list-InOrder_example = list-InOrder board

abbrev finish : TaskPatch
finish = record no_change { state = some (codes "completed"); done = some false }

abbrev finished : Task
finished = record delegated {
  done = true;
  state = some completed;
  note = none;
  edited_at = 8;
  v = 4;
}

abbrev after : TaskBoard
after = record { tasks = (codes "t-0", chosen) ∷ (codes "t-1", finished) ∷ []; v = 4 }

agent_finishes : update board agent (codes "t-1") finish false 8 ≡ (after, ok finished)
unfolding board_functions
agent_finishes = refl

task_is_there : JsMap.get (codes "t-1") board.tasks ≡ some delegated
unfolding board_functions
task_is_there = refl

completed_is_known : agent_task_state (codes "completed") ≡ some completed
unfolding board_functions
completed_is_known = refl

update-Respects_example : Respects agent delegated finished
update-Respects_example =
    update-Respects board after agent (codes "t-1") finish 8 delegated finished task_is_there
      agent_finishes

update-Reaches_example :
    Reaches completed none delegated.note finished
    × (JsMap.get (codes "t-1") after.tasks ≡ some finished)
update-Reaches_example =
    update-Reaches board after agent (codes "t-1") finish false 8 delegated finished
      (codes "completed") completed task_is_there refl refl completed_is_known agent_finishes
