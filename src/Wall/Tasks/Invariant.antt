-- ===== src/Wall/Tasks/Invariant.antt =====
-- The well-formedness of the task board, and that every operation keeps it.
use filenymous.Prelude.{
  ℕ, ◌+◌, ◌≤◌, ◌≡◌, refl, ◌∙◌, inl, inr, Bool, ◌&&◌, not, Option, some, List, [], ◌∷◌, arith, leb,
  Text, text_eq, length, All, Bool-cases, Option-cases,
}
use filenymous.JsMap
use filenymous.JsMap.{
  JsMap, get-set, has-get, size-set, size-delete-le, All-weaken, All-set, All-delete, get-All,
}
use filenymous.Wall.Tasks.{
  TaskKind, AgentTaskState, Task, TaskPatch, TaskBoard, Result, ok, err, task_text_max, max_tasks,
  init, clean_task_text, new_task, create, patched, stamped, commit, update, remove, clear, Call,
  creates, updates, removes, clears, step, run,
}
use filenymous.Wall.Tasks.Patches.{
  IsTask, Ensures, Ensures-weaken, clean_task_text-bounds, patched-Kept, stamped-IsTask,
}

pub record IsEntry (v : ℕ) (e : Text × Task) : Type 0 where
  pub keyed : e.1.id ≡ e.0
  pub versioned : e.1.v ≤ v
  pub task : IsTask e.1

pub record IsValid (b : TaskBoard) : Type 0 where
  pub sound : All (IsEntry b.v) b.tasks
  pub few : JsMap.size b.tasks ≤ max_tasks

later : (v : ℕ) (e : Text × Task) → IsEntry v e → IsEntry (v + 1) e
later v e h = record { keyed = h.keyed; versioned = omega arith; task = h.task }

module _ (b : TaskBoard) (valid : IsValid b) where
  put_sound :
      (id : Text) (t : Task)
      → IsEntry (b.v + 1) (id, t)
      → All (IsEntry (b.v + 1)) (JsMap.set id t b.tasks)
  put_sound id t good =
      All-set (IsEntry (b.v + 1)) id t b.tasks good
        (All-weaken (IsEntry b.v) (IsEntry (b.v + 1)) b.tasks (later b.v) valid.sound)

  commit-IsValid :
      (by id : Text) (now : ℕ) (cur : Task) (r : Result Task)
      → JsMap.get id b.tasks ≡ some cur
      → Ensures (λ n. IsTask n × (n.id ≡ id)) r
      → IsValid (commit b by id now r).0
  unfolding commit stamped
  commit-IsValid by id now cur (err e) here h = valid
  commit-IsValid by id now cur (ok t) here h = record {
    sound = put_sound id (stamped t by now (b.v + 1)) (record {
      keyed = h.1;
      versioned = omega arith;
      task = stamped-IsTask t by now (b.v + 1) h.0;
    });
    few =
        ground
          (arith, valid.few, size-set id (stamped t by now (b.v + 1)) b.tasks, has-get id b.tasks);
  }

  new_task-IsTask :
      (id : Text) (kind : TaskKind) (text : Text) (owner : Option Text) (by : Text) (at v : ℕ)
      (state : Option AgentTaskState)
      → (1 ≤ length text) × (length text ≤ task_text_max)
      → IsTask (new_task id kind text owner by at v state)
  unfolding new_task
  new_task-IsTask id kind text owner by at v state h = record {
    named = h.0;
    sized = h.1;
    plain = λ d. ground arith;
    noted = tt;
    resulted = tt;
    delegated = λ e. (refl, refl);
  }

  create-IsValid :
      (by : Text) (kind : TaskKind) (text : Text) (owner : Option Text) (now : ℕ)
      (state : Option AgentTaskState) (id : Text)
      → IsValid (create b by kind text owner now state id).0
  unfolding create
  create-IsValid by kind text owner now state id =
      elim (Bool-cases (leb max_tasks (JsMap.size b.tasks))) [
        | inl e ↦ rw (e, create) valid
        | inr e ↦
            rw (e, create)
              (elim (Option-cases (clean_task_text text)) [
                | inl c ↦ rw (c, create) valid
                | inr (t, c) ↦
                    rw (c, create)
                      record {
                        sound = put_sound id (new_task id kind t owner by now (b.v + 1) state) (
                            unfold new_task in
                            record {
                              keyed = refl;
                              versioned = omega arith;
                              task =
                                  new_task-IsTask id kind t owner by now (b.v + 1) state
                                    (clean_task_text-bounds text c);
                            });
                        few = ground (
                          arith,
                          valid.few,
                          size-set id (new_task id kind t owner by now (b.v + 1) state) b.tasks,
                        );
                      }
              ])
      ]

  update-IsValid :
      (by id : Text) (patch : TaskPatch) (is_host : Bool) (now : ℕ)
      → IsValid (update b by id patch is_host now).0
  unfolding update
  update-IsValid by id patch is_host now = elim (Option-cases (JsMap.get id b.tasks)) [
    | inl e ↦ rw (e, update) valid
    | inr (cur, e) ↦
        let entry = get-All (IsEntry b.v) id b.tasks valid.sound e in
        rw (e, update)
          (commit-IsValid by id now cur (patched by is_host patch cur) e (
            Ensures-weaken _ _ (patched by is_host patch cur)
              (patched-Kept by is_host patch cur entry.task) λ n k. (k.0, k.1 ∙ entry.keyed)))
  ]

  remove-IsValid : (by id : Text) (is_host : Bool) → IsValid (remove b by id is_host).0
  unfolding remove
  remove-IsValid by id is_host = elim (Option-cases (JsMap.get id b.tasks)) [
    | inl e ↦ rw (e, remove) valid
    | inr (cur, e) ↦
        rw (e, remove)
          (elim (Bool-cases (not (text_eq cur.by by) && not is_host)) [
            | inl t ↦ rw t valid
            | inr t ↦ rw t (record {
              sound = All-delete (IsEntry b.v) id b.tasks valid.sound;
              few = omega (arith, size-delete-le id b.tasks, valid.few);
            })
          ])
  ]

pub step-IsValid : (b : TaskBoard) (c : ℕ × Call) → IsValid b → IsValid (step b c)
unfolding step clear
step-IsValid b (now, creates by kind text owner state id) valid =
    create-IsValid b valid by kind text owner now state id
step-IsValid b (now, updates by id patch is_host) valid =
    update-IsValid b valid by id patch is_host now
step-IsValid b (now, removes by id is_host) valid = remove-IsValid b valid by id is_host
step-IsValid b (now, clears) valid = record { sound = tt; few = omega arith }

run-IsValid : (cs : List (ℕ × Call)) (b : TaskBoard) → IsValid b → IsValid (run b cs)
unfolding run
run-IsValid [] b valid = valid
run-IsValid (c ∷ cs) b valid = run-IsValid cs (step b c) (step-IsValid b c valid)

-- Whatever calls the board has seen since it was made, with any times and ids, it is well formed:
-- there are at most 200 entries, each under its own id, with a version that the board has reached
-- and a text of 1 to 500 units; a decision has no owner, is not done, and has no state, note or
-- result; a note is 1 to 500 units long and a result is a valid id, and an entry has either only
-- when it has a state.
pub run_tasks-IsValid : (cs : List (ℕ × Call)) → IsValid (run init cs)
run_tasks-IsValid cs = run-IsValid cs init (record { sound = tt; few = omega arith })
