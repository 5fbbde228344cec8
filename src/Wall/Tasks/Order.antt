-- ===== src/Wall/Tasks/Order.antt =====
-- The order in which `list` gives the entries.
use mathlib.Core.List.{Perm}
use filenymous.Prelude.{ℕ, ◌≤◌, ◌<◌, ◌≡◌, ◌⊎◌, ◌↔◌, Bool, true, false, List, [], ◌∷◌, arith, All}
use filenymous.Prelude.Sort.{IsSorted, sort-perm, sort-IsSorted}
use filenymous.JsMap
use filenymous.Wall.Tasks.{
  TaskKind, task, decision, Task, TaskBoard, comes_after, after_entry, sort_tasks, list,
}

-- Open tasks, then done tasks, then decisions.
abbrev group_of : TaskKind → Bool → ℕ
group_of task false = 0
group_of task true = 1
group_of decision done = 2

abbrev pub group : Task → ℕ
group t = group_of t.kind t.done

-- `a` may stand before `b`: its group comes first, or it is of the same group and not younger.
abbrev pub Before : Task → Task → Type 0
Before a b = (group a < group b) ⊎ ((group a ≡ group b) × (a.at ≤ b.at))

abbrev pub InOrder : List Task → Type 0
InOrder [] = Unit
InOrder (a ∷ rest) = All (Before a) rest × InOrder rest

after_entry_iff :
    (k : TaskKind) (d : Bool) (n : ℕ) (k' : TaskKind) (d' : Bool) (n' : ℕ)
    → (after_entry k d n k' d' n' ≡ false)
      ↔ ((group_of k d < group_of k' d') ⊎ ((group_of k d ≡ group_of k' d') × (n ≤ n')))
unfolding after_entry
after_entry_iff task true n task true n' = ground arith
after_entry_iff task true n task false n' = ground arith
after_entry_iff task false n task true n' = ground arith
after_entry_iff task false n task false n' = ground arith
after_entry_iff task true n decision d' n' = ground arith
after_entry_iff task false n decision d' n' = ground arith
after_entry_iff decision d n task true n' = ground arith
after_entry_iff decision d n task false n' = ground arith
after_entry_iff decision d n decision d' n' = ground arith

-- The comparison asks for a swap exactly when the entries are in the wrong order.
comes_after_iff : (a b : Task) → (comes_after a b ≡ false) ↔ Before a b
unfolding comes_after
comes_after_iff a b = after_entry_iff a.kind a.done a.at b.kind b.done b.at

comes_after-asym : (a b : Task) → comes_after a b ≡ true → comes_after b a ≡ false
comes_after-asym a b h = ground (arith, comes_after_iff a b, comes_after_iff b a)

comes_after_trans :
    (a b c : Task) → comes_after a b ≡ false → comes_after b c ≡ false → comes_after a c ≡ false
comes_after_trans a b c h k =
    (comes_after_iff a c).1 (omega (arith, (comes_after_iff a b).0 h, (comes_after_iff b c).0 k))

InOrder-sorted : (ts : List Task) → IsSorted comes_after ts → InOrder ts
InOrder-sorted [] h = tt
InOrder-sorted (a ∷ ts) h = (before ts h.0, InOrder-sorted ts h.1)
  where
    before : (bs : List Task) → All (λ b. comes_after a b ≡ false) bs → All (Before a) bs
    before [] k = tt
    before (b ∷ bs) k = ((comes_after_iff a b).0 k.0, before bs k.1)

-- `list` gives the entries of the board, each once, open tasks first, then done tasks, then
-- decisions, and the oldest first in each group.
pub list-InOrder : (b : TaskBoard) → Perm (list b) (JsMap.values b.tasks) × InOrder (list b)
unfolding list sort_tasks
list-InOrder b = (
  sort-perm comes_after (JsMap.values b.tasks),
  InOrder-sorted _
      (sort-IsSorted comes_after comes_after-asym comes_after_trans (JsMap.values b.tasks)),
)
