-- ===== src/Wall/Tasks/Lifecycle.antt =====
-- What an update of the agent's state does to a delegated task.
use filenymous.Prelude.{
  ℕ, ◌+◌, ◌≡◌, refl, ap, ◌∙◌, subst, [], ◌∷◌, false, inl, inr, Bool, true, ◌&&◌, not, Option, none,
  some, arith, Text, text_eq, Bool-cases, Option-cases,
}
use mathlib.Core.Option.{some-injective}
use filenymous.JsMap
use filenymous.JsMap.{get-set_same}
use filenymous.Wall.Tasks.{
  TaskKind, task, decision, AgentTaskState, completed, Task, TaskPatch, TaskBoard, ok,
  agent_task_state, is_terminal, is_completed, is_owner, patch_text, set_state, start, set_note,
  non_empty, is_empty, clean_task_note, clean_task_text, set_result, valid_state, valid_result,
  patch_agent, patch_task, patched, stamped, update, delegates,
}
use filenymous.Wall.Tasks.Patches.{Ensures, Ensures-bind, Ensures-any}
use filenymous.Wall.Tasks.Authority.{update_inv}

-- The note that a said text leaves: none when the cleaning leaves nothing of it.
pub worded : Option Text → Option Text
worded none = none
worded (some []) = none
worded (some (c ∷ s)) = some (c ∷ s)

-- The state is the one that was asked for; a completed task is done; and the note is what was said, or
-- when nothing was said, none once the task is over and the old one before.
pub record Reaches (s : AgentTaskState) (said old : Option Text) (t : Task) : Type 0 where
  pub state : t.state ≡ some s
  pub done : s ≡ completed → t.done ≡ true
  pub told : (n : Text) → said ≡ some n → t.note ≡ worded (clean_task_note n)
  pub ended : said ≡ none → is_terminal s ≡ true → t.note ≡ none
  pub kept : said ≡ none → is_terminal s ≡ false → t.note ≡ old

non_empty_lem : (o : Option Text) → non_empty o ≡ worded o
unfolding non_empty worded is_empty
non_empty_lem none = refl
non_empty_lem (some []) = refl
non_empty_lem (some (c ∷ s)) = refl

-- The state and the note as the code sets them, one after the other.
set_note-Reaches :
    (s : AgentTaskState) (said : Option Text) (t : Task)
    → Reaches s said t.note (set_note said (start (set_state (some s) said t)))
unfolding set_note set_state start is_completed is_terminal
set_note-Reaches s none t = record {
  state = refl;
  done = λ e. ground arith;
  told = λ n e. ground (arith, e);
  ended = λ e over. ground arith;
  kept = λ e going. ground arith;
}
set_note-Reaches s (some m) t = record {
  state = refl;
  done = λ e. ground arith;
  told = λ n e.
      non_empty_lem (clean_task_note m)
      ∙ ap (λ u. worded (clean_task_note u)) (some-injective m n e);
  ended = λ e over. ground (arith, e);
  kept = λ e going. ground (arith, e);
}

set_result-Reaches :
    (s : AgentTaskState) (said old result : Option Text) (t : Task)
    → Reaches s said old t
    → Reaches s said old (set_result result t)
unfolding set_result
set_result-Reaches s said old none t h = h
set_result-Reaches s said old (some r) t h = record {
  state = h.state;
  done = h.done;
  told = h.told;
  ended = h.ended;
  kept = h.kept;
}

valid_state-known :
    (raw : Text) (s : AgentTaskState)
    → agent_task_state raw ≡ some s
    → valid_state (some raw) ≡ ok (some s)
unfolding valid_state
valid_state-known raw s known = ground arith

patch_agent-Reaches :
    (by : Text) (is_host : Bool) (p : TaskPatch) (cur next : Task) (raw : Text) (s : AgentTaskState)
    → p.state ≡ some raw
    → agent_task_state raw ≡ some s
    → Ensures (Reaches s p.note next.note) (patch_agent by is_host p cur next)
unfolding patch_agent
patch_agent-Reaches by is_host p cur next raw s asked known = elim (Bool-cases (delegates p)) [
  | inr e ↦ absurd (unfold delegates in ground arith)
  | inl e ↦
      rw e
        (elim (Bool-cases (not is_host && not (text_eq cur.by by) && not (is_owner cur.owner by))) [
          | inl f ↦ rw f tt
          | inr f ↦ rw f (
              Ensures-bind (λ st. st ≡ some s) _ (valid_state p.state) _
                (rw (asked, valid_state-known raw s known) refl)
                λ state same.
                  Ensures-bind (λ _. Unit) _ (valid_result p.result) _
                    (Ensures-any (valid_result p.result))
                    λ result _. rw same (
                      set_result-Reaches s p.note next.note result _
                        (set_note-Reaches s p.note next)))
        ])
]

stamped-Reaches :
    (s : AgentTaskState) (said old : Option Text) (t : Task) (by : Text) (now v : ℕ)
    → Reaches s said old t
    → Reaches s said old (stamped t by now v)
unfolding stamped
stamped-Reaches s said old t by now v h = record {
  state = h.state;
  done = h.done;
  told = h.told;
  ended = h.ended;
  kept = h.kept;
}

-- A new text leaves the note.
patch_text-note :
    (by : Text) (is_host : Bool) (o : Option Text) (cur : Task)
    → Ensures (λ next. next.note ≡ cur.note) (patch_text by is_host o cur)
unfolding patch_text
patch_text-note by is_host none cur = refl
patch_text-note by is_host (some text) cur =
    elim (Bool-cases (not (text_eq cur.by by) && not is_host)) [
      | inl e ↦ rw e tt
      | inr e ↦ rw e (elim (Option-cases (clean_task_text text)) [
        | inl c ↦ rw (c, patch_text) tt
        | inr (t, c) ↦ rw (c, patch_text) refl
      ])
    ]

patched-Reaches :
    (by : Text) (is_host : Bool) (p : TaskPatch) (cur : Task) (raw : Text) (s : AgentTaskState)
    → cur.kind ≡ task
    → p.state ≡ some raw
    → agent_task_state raw ≡ some s
    → Ensures (Reaches s p.note cur.note) (patched by is_host p cur)
unfolding patched patch_task
patched-Reaches by is_host p cur raw s kind asked known =
    Ensures-bind (λ next. next.note ≡ cur.note) _ (patch_text by is_host p.text cur) _
      (patch_text-note by is_host p.text cur) λ next same. by_kind cur.kind next kind same
  where
    by_kind :
        (k : TaskKind) (next : Task)
        → k ≡ task
        → next.note ≡ cur.note
        → Ensures (Reaches s p.note cur.note) (patch_task by is_host p k cur next)
    by_kind task next e same =
        subst (λ old. Ensures (Reaches s p.note old) (patch_task by is_host p task cur next)) same
          (patch_agent-Reaches by is_host p cur _ raw s asked known)
    by_kind decision next e same = absurd (cc e)

-- A successful update of a task with a valid state stores and returns the task in that state;
-- completing marks it done, whatever else the patch says. A note that came along, once cleaned, is its
-- note, and removes the old one when nothing is left of it or when it has more than 1000 code units;
-- without one, a task that is over has no note and any other keeps the one it had.
pub update-Reaches :
    (b c : TaskBoard) (by id : Text) (patch : TaskPatch) (is_host : Bool) (now : ℕ)
    (cur next : Task) (raw : Text) (s : AgentTaskState)
    → JsMap.get id b.tasks ≡ some cur
    → cur.kind ≡ task
    → patch.state ≡ some raw
    → agent_task_state raw ≡ some s
    → update b by id patch is_host now ≡ (c, ok next)
    → Reaches s patch.note cur.note next × (JsMap.get id c.tasks ≡ some next)
update-Reaches b c by id patch is_host now cur next raw s here kind asked known done =
    let (t, e, stamp, board) = update_inv b by id patch is_host now cur here done in
    (
      rw stamp (
          stamped-Reaches s patch.note cur.note t by now (b.v + 1)
            (rw e at (patched-Reaches by is_host patch cur raw s kind asked known))),
      ap (λ (d : TaskBoard). JsMap.get id d.tasks) board ∙ get-set_same id next b.tasks,
    )
