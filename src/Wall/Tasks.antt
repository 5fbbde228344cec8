-- ===== src/Wall/Tasks.antt =====
-- ui/src/wall/collab.ts: the checklist and the decisions log, `TaskBoard`.
-- `Date.now()` and the id that `newTaskId` draws are arguments.
pub mod Patches
pub mod Invariant
pub mod Authority
pub mod Lifecycle
pub mod Order
mod Tests
use filenymous.Prelude.{
  ℕ, ◌+◌, ◌*◌, Bool, true, false, ◌&&◌, ◌||◌, not, Option, none, some, List, [], ◌∷◌, ltb, leb,
  if◌then◌else◌, Text, codes, text_eq, length, is_some,
}
use filenymous.Prelude.Sort.{sort}
use filenymous.JsMap
use filenymous.JsMap.{JsMap}
use filenymous.Wall.Collab.{clean, is_result_id}

abbrev pub task_text_max : ℕ
task_text_max = 500

abbrev pub max_tasks : ℕ
max_tasks = 200

abbrev pub task_note_max : ℕ
task_note_max = 500

pub data TaskKind : Type 0 where
  task decision : TaskKind

pub data AgentTaskState : Type 0 where
  submitted working input_required completed failed canceled rejected : AgentTaskState

pub record Task : Type 0 where
  pub id : Text
  pub kind : TaskKind
  pub text : Text
  pub owner : Option Text
  pub done : Bool
  pub by : Text
  pub at : ℕ
  pub edited_by : Text
  pub edited_at : ℕ
  pub v : ℕ
  pub state : Option AgentTaskState
  pub note : Option Text
  pub result : Option Text

-- `none` stands for a property that is not there; an owner may be there and be `null`.
pub record TaskPatch : Type 0 where
  pub done : Option Bool
  pub owner : Option (Option Text)
  pub text : Option Text
  pub state : Option Text
  pub note : Option Text
  pub result : Option Text

pub data TaskError : Type 0 where
  too_many empty not_found forbidden : TaskError

pub data Result {ℓ} (A : Type ℓ) : Type ℓ where
  ok : A → Result A
  err : TaskError → Result A

infixl 5 ◌>>=◌
abbrev pub ◌>>=◌ {ℓ κ} : {A : Type ℓ} {B : Type κ} → Result A → (A → Result B) → Result B
ok a >>= f = f a
err e >>= f = err e

-- `isAgentTaskState(v)`, with the state that it is.
unfoldable pub agent_task_state : Text → Option AgentTaskState
unfolding text_eq
agent_task_state s =
    if text_eq s (codes "submitted")
    then some submitted
    else if text_eq s (codes "working")
    then some working
    else if text_eq s (codes "input-required")
    then some input_required
    else if text_eq s (codes "completed")
    then some completed
    else if text_eq s (codes "failed")
    then some failed
    else if text_eq s (codes "canceled")
    then some canceled
    else if text_eq s (codes "rejected")
    then some rejected
    else none

-- `TERMINAL_STATES.has(s)`
unfoldable pub is_terminal : AgentTaskState → Bool
is_terminal completed = true
is_terminal failed = true
is_terminal canceled = true
is_terminal rejected = true
is_terminal _ = false

is_completed : AgentTaskState → Bool
is_completed completed = true
is_completed _ = false

is_empty : Text → Bool
is_empty [] = true
is_empty (c ∷ s) = false

-- `cleanTaskText` of a string
unfoldable pub clean_task_text : Text → Option Text
unfolding clean is_empty
clean_task_text v =
    if ltb (task_text_max * 2) (length v)
    then none
    else let s = clean v task_text_max in if is_empty s then none else some s

-- `cleanTaskNote` of a string
unfoldable pub clean_task_note : Text → Option Text
unfolding clean
clean_task_note v =
    if ltb (task_note_max * 2) (length v) then none else some (clean v task_note_max)

-- `compare(a, b) > 0` for the comparison of `sortTasks`, from the kinds, the flags and the times
after_entry : TaskKind → Bool → ℕ → TaskKind → Bool → ℕ → Bool
after_entry task true at task false at' = true
after_entry task false at task true at' = false
after_entry task true at task true at' = ltb at' at
after_entry task false at task false at' = ltb at' at
after_entry decision done at decision done' at' = ltb at' at
after_entry task done at decision done' at' = false
after_entry decision done at task done' at' = true

pub comes_after : Task → Task → Bool
unfolding after_entry
comes_after a b = after_entry a.kind a.done a.at b.kind b.done b.at

pub sort_tasks : List Task → List Task
unfolding comes_after sort
sort_tasks tasks = sort comes_after tasks

pub record TaskBoard : Type 0 where
  pub tasks : JsMap Task
  pub v : ℕ

abbrev pub init : TaskBoard
init = record { tasks = []; v = 0 }

pub list : TaskBoard → List Task
list b = sort_tasks (JsMap.values b.tasks)

-- `kind === "task" ? x : null`
if_task {ℓ} : {A : Type ℓ} → TaskKind → Option A → Option A
if_task task x = x
if_task decision x = none

new_task : Text → TaskKind → Text → Option Text → Text → ℕ → ℕ → Option AgentTaskState → Task
unfolding if_task
new_task id kind text owner by at v state = record {
  id = id;
  kind = kind;
  text = text;
  owner = if_task kind owner;
  done = false;
  by = by;
  at = at;
  edited_by = by;
  edited_at = at;
  v = v;
  state = if_task kind state;
  note = none;
  result = none;
}

pub create :
    TaskBoard
    → Text
    → TaskKind
    → Text
    → Option Text
    → ℕ
    → Option AgentTaskState
    → Text
    → TaskBoard × Result Task
unfolding new_task
create b by kind text owner now state id =
    if leb max_tasks (JsMap.size b.tasks) then (b, err too_many) else elim (clean_task_text text) [
      | none ↦ (b, err empty)
      | some t ↦
          let made = new_task id kind t owner by now (b.v + 1) state in
          (record b { tasks = JsMap.set id made b.tasks; v = b.v + 1 }, ok made)
    ]

-- The first part of `update`: the text, which the author and the host may change.
patch_text : Text → Bool → Option Text → Task → Result Task
patch_text by is_host none cur = ok cur
patch_text by is_host (some text) cur =
    if not (text_eq cur.by by) && not is_host
    then err forbidden
    else elim (clean_task_text text) [ none ↦ err empty | some t ↦ ok (record cur { text = t }) ]

or_current {ℓ} : {A : Type ℓ} → Option A → A → A
or_current none current = current
or_current (some new) current = new

pub is_owner : Option Text → Text → Bool
is_owner none by = false
is_owner (some o) by = text_eq o by

-- A raw state or result that is there has to be valid.
valid_state : Option Text → Result (Option AgentTaskState)
valid_state none = ok none
valid_state (some s) = elim (agent_task_state s) [ none ↦ err empty | some st ↦ ok (some st) ]

valid_result : Option Text → Result (Option Text)
valid_result none = ok none
valid_result (some r) = if is_result_id r then ok (some r) else err empty

-- A new state: completing marks the task done, and a progress note ends with the task.
set_state : Option AgentTaskState → Option Text → Task → Task
unfolding is_terminal is_completed
set_state none said t = t
set_state (some s) said t = record t {
  state = some s;
  done = is_completed s || t.done;
  note = if is_terminal s && not (is_some said) then none else t.note;
}

-- `if (!next.state) next.state = "working"`
start : Task → Task
start t = record t { state = elim t.state [ none ↦ some working | some s ↦ some s ] }

-- `if (n) next.note = n; else delete next.note`
non_empty : Option Text → Option Text
unfolding is_empty
non_empty none = none
non_empty (some s) = if is_empty s then none else some s

set_note : Option Text → Task → Task
unfolding non_empty
set_note none t = t
set_note (some n) t = record t { note = non_empty (clean_task_note n) }

set_result : Option Text → Task → Task
set_result none t = t
set_result (some r) t = record t { result = some r }

delegates : TaskPatch → Bool
delegates p = is_some p.state || is_some p.note || is_some p.result

-- The agent's state, note and result, which the assignee, the author and the host may change.
patch_agent : Text → Bool → TaskPatch → Task → Task → Result Task
unfolding is_owner valid_state valid_result set_state start set_note set_result delegates
patch_agent by is_host p cur next =
    if delegates p
    then (if not is_host && not (text_eq cur.by by) && not (is_owner cur.owner by)
        then err forbidden
        else do
          state ← valid_state p.state
          result ← valid_result p.result
          ok (set_result result (set_note p.note (start (set_state state p.note next)))))
    else ok next

patch_task : Text → Bool → TaskPatch → TaskKind → Task → Task → Result Task
unfolding or_current patch_agent
patch_task by is_host p decision cur next = ok next
patch_task by is_host p task cur next =
    patch_agent by is_host p cur
      (record next { done = or_current p.done next.done; owner = or_current p.owner next.owner })

pub patched : Text → Bool → TaskPatch → Task → Result Task
unfolding patch_text patch_task
patched by is_host p cur = do
  next ← patch_text by is_host p.text cur
  patch_task by is_host p cur.kind cur next

pub stamped : Task → Text → ℕ → ℕ → Task
stamped t by now v = record t { edited_by = by; edited_at = now; v = v }

pub commit : TaskBoard → Text → Text → ℕ → Result Task → TaskBoard × Result Task
unfolding stamped
commit b by id now (err e) = (b, err e)
commit b by id now (ok t) =
    let next = stamped t by now (b.v + 1) in
    (record b { tasks = JsMap.set id next b.tasks; v = b.v + 1 }, ok next)

pub update : TaskBoard → Text → Text → TaskPatch → Bool → ℕ → TaskBoard × Result Task
unfolding patched commit
update b by id patch is_host now = elim (JsMap.get id b.tasks) [
  | none ↦ (b, err not_found)
  | some cur ↦ commit b by id now (patched by is_host patch cur)
]

pub remove : TaskBoard → Text → Text → Bool → TaskBoard × Result (Unit {0})
remove b by id is_host = elim (JsMap.get id b.tasks) [
  | none ↦ (b, err not_found)
  | some cur ↦
      if not (text_eq cur.by by) && not is_host
      then (b, err forbidden)
      else (record b { tasks = JsMap.delete id b.tasks }, ok tt)
]

pub clear : TaskBoard → TaskBoard
clear b = record b { tasks = [] }

-- One call of the board, with the time; reads do not change it.
pub data Call : Type 0 where
  creates : Text → TaskKind → Text → Option Text → Option AgentTaskState → Text → Call
  updates : Text → Text → TaskPatch → Bool → Call
  removes : Text → Text → Bool → Call
  clears : Call

pub step : TaskBoard → ℕ × Call → TaskBoard
step b (now, creates by kind text owner state id) = (create b by kind text owner now state id).0
step b (now, updates by id patch is_host) = (update b by id patch is_host now).0
step b (now, removes by id is_host) = (remove b by id is_host).0
step b (now, clears) = clear b

pub run : TaskBoard → List (ℕ × Call) → TaskBoard
run b [] = b
run b (c ∷ cs) = run (step b c) cs
