-- ===== src/Wall/Tasks/Patches.antt =====
-- A task's own well-formedness, and that each part of `update` keeps it.
use filenymous.Prelude.{
  ℕ, ◌≤◌, ◌≡◌, ◌≢◌, refl, ◌∙◌, inl, inr, Bool, true, false, ◌&&◌, not, Option, none, some, arith,
  Text, text_eq, length, is_some, Bool-cases, Option-cases,
}
use filenymous.Wall.Collab.{length-clean, is_result_id}
use filenymous.Wall.Tasks.{
  TaskKind, task, decision, AgentTaskState, Task, TaskPatch, Result, ok, err, ◌>>=◌, task_text_max,
  task_note_max, is_terminal, delegates, is_owner, non_empty, clean_task_text, clean_task_note,
  patch_text, set_state, start, set_note, set_result, valid_state, valid_result, patch_agent,
  patch_task, patched, stamped,
}

-- What holds of a value that is there.
abbrev pub Each {ℓ κ} : {A : Type ℓ} → (A → Type κ) → Option A → Type κ
Each P none = Unit
Each P (some a) = P a

pub record IsTask (t : Task) : Type 0 where
  pub named : 1 ≤ length t.text
  pub sized : length t.text ≤ task_text_max
  -- A decision is no task: it has no owner, is never done, and carries nothing of an agent's.
  pub plain :
      t.kind ≡ decision
      → (t.done ≡ false) × (t.owner ≡ none) × (t.state ≡ none) × (t.note ≡ none) × (t.result ≡ none)
  pub noted : Each (λ n. (1 ≤ length n) × (length n ≤ task_note_max)) t.note
  pub resulted : Each (λ r. is_result_id r ≡ true) t.result
  -- A note or a result belongs to a delegated task.
  pub delegated : t.state ≡ none → (t.note ≡ none) × (t.result ≡ none)

-- What holds of a result that is no error.
abbrev pub Ensures {ℓ κ} : {A : Type ℓ} → (A → Type κ) → Result A → Type κ
Ensures P (ok a) = P a
Ensures P (err e) = Unit

pub Ensures-bind {ℓ κ} :
    {A : Type ℓ} {B : Type κ} (P : A → Type 0) (Q : B → Type 0) (m : Result A) (f : A → Result B)
    → Ensures P m
    → ((a : A) → P a → Ensures Q (f a))
    → Ensures Q (m >>= f)
Ensures-bind P Q (ok a) f h k = k a h
Ensures-bind P Q (err e) f h k = tt

pub Ensures-weaken {ℓ} :
    {A : Type ℓ} (P Q : A → Type 0) (m : Result A)
    → Ensures P m
    → ((a : A) → P a → Q a)
    → Ensures Q m
Ensures-weaken P Q (ok a) h k = k a h
Ensures-weaken P Q (err e) h k = tt

pub Ensures-any {ℓ} : {A : Type ℓ} (m : Result A) → Ensures (λ _. Unit {0}) m
Ensures-any (ok a) = tt
Ensures-any (err e) = tt

-- A text that passes the cleaning is not empty and at most 500 units long.
pub clean_task_text-bounds :
    (v : Text) {s : Text} → clean_task_text v ≡ some s → (1 ≤ length s) × (length s ≤ task_text_max)
unfolding clean_task_text
clean_task_text-bounds v h = ground (arith, length-clean v task_text_max)

non_empty-bounds :
    (v : Text)
    → Each (λ n. (1 ≤ length n) × (length n ≤ task_note_max)) (non_empty (clean_task_note v))
unfolding non_empty clean_task_note
non_empty-bounds v = ground (arith, length-clean v task_note_max)

valid_result-bounds :
    (r : Option Text) → Ensures (Each (λ r. is_result_id r ≡ true)) (valid_result r)
unfolding valid_result
valid_result-bounds none = tt
valid_result-bounds (some r) = ground arith

record Kept (cur next : Task) : Type 0 where
  task : IsTask next
  kind : next.kind ≡ cur.kind
  id : next.id ≡ cur.id

patch_text-Kept :
    (by : Text) (is_host : Bool) (text : Option Text) (cur : Task)
    → IsTask cur
    → Ensures (Kept cur) (patch_text by is_host text cur)
unfolding patch_text
patch_text-Kept by is_host none cur h = record { task = h; kind = refl; id = refl }
patch_text-Kept by is_host (some text) cur h =
    elim (Bool-cases (not (text_eq cur.by by) && not is_host)) [
      | inl e ↦ rw e tt
      | inr e ↦ rw e (elim (Option-cases (clean_task_text text)) [
        | inl c ↦ rw (c, patch_text) tt
        | inr (t, c) ↦
            let bounds = clean_task_text-bounds text c in
            rw (c, patch_text)
              (record {
                task = record {
                  named = bounds.0;
                  sized = bounds.1;
                  plain = h.plain;
                  noted = h.noted;
                  resulted = h.resulted;
                  delegated = h.delegated;
                };
                kind = refl;
                id = refl;
              })
      ])
    ]

-- A task that an agent has in hand.
record IsDelegated (key : Text) (t : Task) : Type 0 where
  task : IsTask t
  kind : t.kind ≡ TaskKind.task
  same : t.id ≡ key

set_state-IsDelegated :
    (id : Text) (state : Option AgentTaskState) (said : Option Text) (t : Task)
    → IsDelegated id t
    → IsDelegated id (start (set_state state said t))
unfolding set_state start
set_state-IsDelegated id none said t h = record {
  task = record {
    named = h.task.named;
    sized = h.task.sized;
    plain = λ d. cc h.kind;
    noted = h.task.noted;
    resulted = h.task.resulted;
    delegated = λ e. ground arith;
  };
  kind = h.kind;
  same = h.same;
}
set_state-IsDelegated id (some s) said t h = record {
  task = record {
    named = h.task.named;
    sized = h.task.sized;
    plain = λ d. cc h.kind;
    noted = elim (Bool-cases (is_terminal s && not (is_some said))) [
      | inl e ↦ rw e tt
      | inr e ↦ rw e h.task.noted
    ];
    resulted = h.task.resulted;
    delegated = λ e. cc;
  };
  kind = h.kind;
  same = h.same;
}

set_note-IsDelegated :
    (id : Text) (said : Option Text) (t : Task)
    → t.state ≢ none
    → IsDelegated id t
    → IsDelegated id (set_note said t)
unfolding set_note
set_note-IsDelegated id none t busy h = h
set_note-IsDelegated id (some n) t busy h = record {
  task = record {
    named = h.task.named;
    sized = h.task.sized;
    plain = λ d. cc h.kind;
    noted = non_empty-bounds n;
    resulted = h.task.resulted;
    delegated = λ e. absurd (busy e);
  };
  kind = h.kind;
  same = h.same;
}

set_result-IsDelegated :
    (id : Text) (result : Option Text) (t : Task)
    → t.state ≢ none
    → Each (λ r. is_result_id r ≡ true) result
    → IsDelegated id t
    → IsDelegated id (set_result result t)
unfolding set_result
set_result-IsDelegated id none t busy r h = h
set_result-IsDelegated id (some _) t busy r h = record {
  task = record {
    named = h.task.named;
    sized = h.task.sized;
    plain = λ d. cc h.kind;
    noted = h.task.noted;
    resulted = r;
    delegated = λ e. absurd (busy e);
  };
  kind = h.kind;
  same = h.same;
}

state-start : (t : Task) → (start t).state ≢ none
unfolding start
state-start t = ground arith

state-set_note : (said : Option Text) (t : Task) → (set_note said t).state ≡ t.state
unfolding set_note
state-set_note none t = refl
state-set_note (some n) t = refl

stays_busy : (said : Option Text) (t : Task) → (set_note said (start t)).state ≢ none
stays_busy said t = rw state-set_note (state-start t)

patch_agent-IsDelegated :
    (by : Text) (is_host : Bool) (p : TaskPatch) (cur next : Task)
    → IsDelegated cur.id next
    → Ensures (IsDelegated cur.id) (patch_agent by is_host p cur next)
unfolding patch_agent
patch_agent-IsDelegated by is_host p cur next h = elim (Bool-cases (delegates p)) [
  | inr e ↦ rw e h
  | inl e ↦
      rw e
        (elim (Bool-cases (not is_host && not (text_eq cur.by by) && not (is_owner cur.owner by))) [
          | inl f ↦ rw f tt
          | inr f ↦ rw f (
              Ensures-bind (λ _. Unit) (IsDelegated cur.id) (valid_state p.state) _
                (Ensures-any (valid_state p.state))
                λ state _.
                  Ensures-bind (Each (λ r. is_result_id r ≡ true)) (IsDelegated cur.id)
                    (valid_result p.result) _ (valid_result-bounds p.result)
                    λ result r. set_result-IsDelegated cur.id result _ (stays_busy p.note _) r (
                      set_note-IsDelegated cur.id p.note _
                        (state-start (set_state state p.note next))
                        (set_state-IsDelegated cur.id state p.note next h)))
        ])
]

pub patched-Kept :
    (by : Text) (is_host : Bool) (p : TaskPatch) (cur : Task)
    → IsTask cur
    → Ensures (λ next. IsTask next × (next.id ≡ cur.id)) (patched by is_host p cur)
unfolding patched patch_task
patched-Kept by is_host p cur h =
    Ensures-bind (Kept cur) _ (patch_text by is_host p.text cur) _
      (patch_text-Kept by is_host p.text cur h) λ next k. by_kind cur.kind refl next k
  where
    by_kind :
        (kind : TaskKind)
        → cur.kind ≡ kind
        → (next : Task) → Kept cur next
        → Ensures (λ n. IsTask n × (n.id ≡ cur.id)) (patch_task by is_host p kind cur next)
    by_kind decision e next k = (k.task, k.id)
    by_kind task e next k =
        Ensures-weaken (IsDelegated cur.id) _ (patch_agent by is_host p cur _)
          (patch_agent-IsDelegated by is_host p cur _ (record {
            task = record {
              named = k.task.named;
              sized = k.task.sized;
              plain = λ d. cc (k.kind, e);
              noted = k.task.noted;
              resulted = k.task.resulted;
              delegated = k.task.delegated;
            };
            kind = k.kind ∙ e;
            same = k.id;
          }))
          λ n d. (d.task, d.same)

pub stamped-IsTask : (t : Task) (by : Text) (now v : ℕ) → IsTask t → IsTask (stamped t by now v)
unfolding stamped
stamped-IsTask t by now v h = record {
  named = h.named;
  sized = h.sized;
  plain = h.plain;
  noted = h.noted;
  resulted = h.resulted;
  delegated = h.delegated;
}
