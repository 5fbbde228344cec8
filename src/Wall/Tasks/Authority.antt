-- ===== src/Wall/Tasks/Authority.antt =====
-- Who may change what through `update` and `remove`, and what a new state does.
use filenymous.Prelude.{
  ℕ, ◌+◌, ◌≡◌, refl, inl, inr, Bool, false, ◌&&◌, not, Option, none, some, arith, if◌then◌else◌,
  Text, text_eq, Bool-cases,
}
use filenymous.JsMap
use filenymous.JsMap.{get-set, get-delete}
use filenymous.Wall.Tasks.{
  TaskKind, task, decision, AgentTaskState, Task, TaskPatch, TaskBoard, Result, ok, err, is_owner,
  patch_text, set_state, start, set_note, set_result, valid_state, valid_result, patch_agent,
  patch_task, patched, TaskError, stamped, commit, update, delegates,
}
use filenymous.Wall.Tasks.Patches.{Ensures, Ensures-bind, Ensures-any}

-- What an update leaves alone, for a caller that is not the host: the entry's kind, author and time;
-- the text, unless the caller wrote it; the state, note and result, unless the caller wrote the entry
-- or is in charge of it.
pub record Respects (by : Text) (cur next : Task) : Type 0 where
  pub same_kind : next.kind ≡ cur.kind
  pub same_author : next.by ≡ cur.by
  pub same_time : next.at ≡ cur.at
  pub same_text : text_eq cur.by by ≡ false → next.text ≡ cur.text
  pub same_agent :
      text_eq cur.by by ≡ false
      → is_owner cur.owner by ≡ false
      → (next.state ≡ cur.state) × (next.note ≡ cur.note) × (next.result ≡ cur.result)

patch_text-Respects :
    (by : Text) (text : Option Text) (cur : Task)
    → Ensures (λ n. Respects by cur n × (n.owner ≡ cur.owner)) (patch_text by false text cur)
unfolding patch_text
patch_text-Respects by none cur = ground arith
patch_text-Respects by (some text) cur = ground arith

-- The agent's part changes no other field but `done`.
record IsAgentStep (t n : Task) : Type 0 where
  kind : n.kind ≡ t.kind
  author : n.by ≡ t.by
  time : n.at ≡ t.at
  text : n.text ≡ t.text

set_note-IsAgentStep : (said : Option Text) (t : Task) → IsAgentStep t (set_note said t)
unfolding set_note
set_note-IsAgentStep none t = ground arith
set_note-IsAgentStep (some n) t = ground arith

set_result-IsAgentStep : (result : Option Text) (t : Task) → IsAgentStep t (set_result result t)
unfolding set_result
set_result-IsAgentStep none t = ground arith
set_result-IsAgentStep (some n) t = ground arith

set_state-IsAgentStep :
    (state : Option AgentTaskState) (said : Option Text) (t : Task)
    → IsAgentStep t (start (set_state state said t))
unfolding set_state start
set_state-IsAgentStep none said t = record { kind = refl; author = refl; time = refl; text = refl }
set_state-IsAgentStep (some s) said t = record {
  kind = refl;
  author = refl;
  time = refl;
  text = refl;
}

module _ (by : Text) (p : TaskPatch) (cur next : Task) (h : Respects by cur next) where
  -- The author and the one in charge may do all of it.
  agent_steps-Respects :
      (state : Option AgentTaskState) (result : Option Text)
      → (not (text_eq cur.by by) && not (is_owner cur.owner by)) ≡ false
      → Respects by cur (set_result result (set_note p.note (start (set_state state p.note next))))
  agent_steps-Respects state result e = ground (
    arith,
    set_state-IsAgentStep state p.note next,
    set_note-IsAgentStep p.note (start (set_state state p.note next)),
    set_result-IsAgentStep result (set_note p.note (start (set_state state p.note next))),
  )

  patch_agent-Respects : Ensures (Respects by cur) (patch_agent by false p cur next)
  unfolding patch_agent
  patch_agent-Respects = elim (Bool-cases (delegates p)) [
    | inr e ↦ rw e h
    | inl e ↦ rw e (elim (Bool-cases (not (text_eq cur.by by) && not (is_owner cur.owner by))) [
      | inl f ↦ rw f tt
      | inr f ↦ rw f (
          Ensures-bind (λ _. Unit) _ (valid_state p.state) _ (Ensures-any (valid_state p.state))
            λ state _.
              Ensures-bind (λ _. Unit) _ (valid_result p.result) _
                (Ensures-any (valid_result p.result))
                λ result _. agent_steps-Respects state result f)
    ])
  ]

patched-Respects :
    (by : Text) (p : TaskPatch) (cur : Task) → Ensures (Respects by cur) (patched by false p cur)
unfolding patched patch_task
patched-Respects by p cur =
    Ensures-bind (λ n. Respects by cur n × (n.owner ≡ cur.owner)) _ (patch_text by false p.text cur)
      _ (patch_text-Respects by p.text cur) λ next k. by_kind cur.kind next k.0
  where
    by_kind :
        (kind : TaskKind) (next : Task)
        → Respects by cur next
        → Ensures (Respects by cur) (patch_task by false p kind cur next)
    by_kind decision next k = k
    by_kind task next k = patch_agent-Respects by p cur _ (record {
      same_kind = k.same_kind;
      same_author = k.same_author;
      same_time = k.same_time;
      same_text = k.same_text;
      same_agent = k.same_agent;
    })

-- A successful update comes from a patch that passed.
pub update_inv :
    (b : TaskBoard) (by id : Text) (patch : TaskPatch) (is_host : Bool) (now : ℕ) (cur : Task)
    {c : TaskBoard} {next : Task}
    → JsMap.get id b.tasks ≡ some cur
    → update b by id patch is_host now ≡ (c, ok next)
    → (t : Task) × (patched by is_host patch cur ≡ ok t)
      × (next ≡ stamped t by now (b.v + 1))
      × (c ≡ record { tasks = JsMap.set id next b.tasks; v = b.v + 1 })
unfolding update
update_inv b by id patch is_host now cur {c} {next} here done =
    from_commit (patched by is_host patch cur) (rw (here, update) at done)
  where
    from_commit :
        (r : Result Task)
        → commit b by id now r ≡ (c, ok next)
        → (t : Task) × (r ≡ ok t)
          × (next ≡ stamped t by now (b.v + 1))
          × (c ≡ record { tasks = JsMap.set id next b.tasks; v = b.v + 1 })
    from_commit (ok t) e = (t, refl, unfold commit in ground arith, unfold commit in ground arith)
    from_commit (err x) e = absurd (unfold commit in ground arith)

stamped-Respects :
    (by : Text) (cur t : Task) (now v : ℕ)
    → Respects by cur t
    → Respects by cur (stamped t by now v)
unfolding stamped
stamped-Respects by cur t now v h = record {
  same_kind = h.same_kind;
  same_author = h.same_author;
  same_time = h.same_time;
  same_text = h.same_text;
  same_agent = h.same_agent;
}

-- An update by a member that is not the host keeps to its rights, as `Respects` lists them.
pub update-Respects :
    (b c : TaskBoard) (by id : Text) (patch : TaskPatch) (now : ℕ) (cur next : Task)
    → JsMap.get id b.tasks ≡ some cur
    → update b by id patch false now ≡ (c, ok next)
    → Respects by cur next
update-Respects b c by id patch now cur next here done =
    let (t, e, stamp, _) = update_inv b by id patch false now cur here done in
    rw stamp (stamped-Respects by cur t now (b.v + 1) (rw e at (patched-Respects by patch cur)))

-- A successful update stores the entry that it returns, stamped with the caller, the time and the
-- next version, and leaves every other entry as it was; a failed one changes nothing.
pub update-stores :
    (b : TaskBoard) (by id : Text) (patch : TaskPatch) (is_host : Bool) (now : ℕ)
    → ((next : Task)
        → (update b by id patch is_host now).1 ≡ ok next
        → ((j : Text)
            → JsMap.get j (update b by id patch is_host now).0.tasks
              ≡ (if text_eq id j then some next else JsMap.get j b.tasks))
          × (next.edited_by ≡ by)
          × (next.edited_at ≡ now)
          × (next.v ≡ b.v + 1)
          × ((update b by id patch is_host now).0.v ≡ next.v))
      × ((e : TaskError)
          → (update b by id patch is_host now).1 ≡ err e
          → (update b by id patch is_host now).0 ≡ b)
unfolding update commit stamped
update-stores b by id patch is_host now = (
  λ next done. (
    λ j. ground (arith, get-set id j next b.tasks),
    ground arith,
    ground arith,
    ground arith,
    ground arith,
  ),
  λ e failed. ground arith,
)
