-- ===== src/Wall/Threads/Approval.antt =====
-- What must come before the first message of a thread.
use filenymous.Prelude.{
  ℕ, ◌+◌, ◌≡◌, refl, sym, ◌∙◌, subst, ap, inl, inr, Bool, false, ◌&&◌, ◌||◌, Option, some, List, [],
  ◌∷◌, arith, Text, text_eq, text_eq_iff, codes, Bool-cases, Option-cases, any,
}
use filenymous.JsMap
use filenymous.JsMap.{JsMap, set_found, get-set_same, get-set_other, has-get}
use filenymous.Wall.Threads.{
  ThreadState, pending, opened, closed, Thread, ThreadBoard, refused, init, involves, is_closed,
  is_opened, same_state, is_live_with, is_at_limit, new_thread, moved, open_thread, set_state, say,
  close_each, close_all_of, Call, opens, sets, says, closes_all, step, run,
}

-- A thread under the id that was not opened by the host has no message.
IsQuiet : Text → ThreadBoard → Type 0
IsQuiet id board =
    (t : Thread) → JsMap.get id board.threads ≡ some t → (is_opened t.state ≡ false) × (t.n ≡ 0)

-- The call opens the thread of the id: the host's approval.
unfoldable pub approves : Text → Call → Bool
approves id (sets j opened by) = text_eq j id
approves id _ = false

set_state-IsQuiet :
    (board : ThreadBoard) (id j : Text) (state : ThreadState) (by : Option Text)
    → (is_opened state && text_eq j id) ≡ false
    → IsQuiet id board
    → IsQuiet id (set_state board j state by).0
unfolding set_state IsQuiet
set_state-IsQuiet board id j state by other quiet t h =
    elim (Option-cases (JsMap.get j board.threads)) [
      | inl e ↦ quiet t (rw (e, set_state) at h)
      | inr (u, e) ↦ elim (Bool-cases (is_closed u.state || same_state u.state state)) [
        | inl f ↦ quiet t (rw (e, set_state, f) at h)
        | inr f ↦
            elim (set_found j id (moved u state by) board.threads (rw (e, set_state, f) at h)) [
              | inl (here, new) ↦
                  let was = quiet u (ap (λ i. JsMap.get i board.threads) (sym here) ∙ e) in
                  let eq = text_eq_iff j id in
                  subst (λ w. (is_opened w.state ≡ false) × (w.n ≡ 0)) new
                    (unfold moved in (ground arith, was.1))
              | inr (there, old) ↦ quiet t old
            ]
      ]
    ]

say-IsQuiet :
    (board : ThreadBoard) (id j by text : Text) (now : ℕ)
    → IsQuiet id board
    → IsQuiet id (say board j by text now).0
unfolding say IsQuiet
say-IsQuiet board id j by text now quiet t h = elim (Option-cases (JsMap.get j board.threads)) [
  | inl e ↦ quiet t (rw (e, say) at h)
  | inr (u, e) ↦ elim (Bool-cases (is_opened u.state && involves u by)) [
    | inl f ↦ elim (Option-cases (JsMap.get j board.msgs)) [
      | inl g ↦ quiet t (rw (e, say, f, g) at h)
      | inr (ms, g) ↦
          elim (set_found j id (record u { n = u.n + 1 }) board.threads (rw (e, say, f, g) at h)) [
            | inl (here, new) ↦
                let was = quiet u (ap (λ i. JsMap.get i board.threads) (sym here) ∙ e) in
                ground arith
            | inr (there, old) ↦ quiet t old
          ]
    ]
    | inr f ↦ quiet t (rw (e, say, f) at h)
  ]
]

open_thread-IsQuiet :
    (board : ThreadBoard) (id a b : Text) (goal task : Option Text) (now : ℕ) (j : Text)
    → IsQuiet id board
    → IsQuiet id (open_thread board a b goal task now j).0
unfolding open_thread IsQuiet
open_thread-IsQuiet board id a b goal task now j quiet t h = elim (Bool-cases (text_eq a b)) [
  | inl e ↦ quiet t (rw e at h)
  | inr e ↦ elim (Bool-cases (is_at_limit board a || is_at_limit board b)) [
    | inl f ↦ quiet t (rw (e, f) at h)
    | inr f ↦
        elim (set_found j id (new_thread j a b goal task now) board.threads (rw (e, f) at h)) [
          | inl (here, new) ↦
              subst (λ w. (is_opened w.state ≡ false) × (w.n ≡ 0)) new
                (unfold new_thread is_opened in (refl, refl))
          | inr (there, old) ↦ quiet t old
        ]
  ]
]

close_each-IsQuiet :
    (label id : Text) (ts : List Thread) (board : ThreadBoard)
    → IsQuiet id board
    → IsQuiet id (close_each label board ts).0
unfolding close_each
close_each-IsQuiet label id [] board quiet = quiet
close_each-IsQuiet label id (t ∷ ts) board quiet = elim (Bool-cases (is_live_with label t)) [
  | inl e ↦ rw e (
      close_each-IsQuiet label id ts (set_state board t.id closed (some (codes "host"))).0 (
        set_state-IsQuiet board id t.id closed (some (codes "host")) (unfold is_opened in refl)
          quiet))
  | inr e ↦ rw e (close_each-IsQuiet label id ts board quiet)
]

step-IsQuiet :
    (id : Text) (board : ThreadBoard) (now : ℕ) (c : Call)
    → approves id c ≡ false
    → IsQuiet id board
    → IsQuiet id (step board (now, c))
unfolding step close_all_of approves is_opened
step-IsQuiet id board now (opens a b goal task j) other quiet =
    open_thread-IsQuiet board id a b goal task now j quiet
step-IsQuiet id board now (sets j opened by) other quiet =
    set_state-IsQuiet board id j opened by (unfold is_opened in other) quiet
step-IsQuiet id board now (sets j pending by) other quiet =
    set_state-IsQuiet board id j pending by (unfold is_opened in refl) quiet
step-IsQuiet id board now (sets j closed by) other quiet =
    set_state-IsQuiet board id j closed by (unfold is_opened in refl) quiet
step-IsQuiet id board now (says j by text) other quiet = say-IsQuiet board id j by text now quiet
step-IsQuiet id board now (closes_all label) other quiet =
    close_each-IsQuiet label id (JsMap.values board.threads) board quiet

run-IsQuiet :
    (id : Text) (cs : List (ℕ × Call)) (board : ThreadBoard)
    → any (λ c. approves id c.1) cs ≡ false
    → IsQuiet id board
    → IsQuiet id (run board cs)
unfolding run
run-IsQuiet id [] board other quiet = quiet
run-IsQuiet id ((now, c) ∷ cs) board other quiet =
    run-IsQuiet id cs (step board (now, c)) (ground arith)
      (step-IsQuiet id board now c (ground arith) quiet)

-- No message before the approval: as long as no call has set a thread's state to open, a thread
-- under that id is not open and has had no message, whatever else was called, and an agent's
-- message to it is refused.
pub unapproved-refused :
    (id : Text) (cs : List (ℕ × Call)) (t : Thread)
    → any (λ c. approves id c.1) cs ≡ false
    → JsMap.get id (run init cs).threads ≡ some t
    → (t.n ≡ 0) × ((by text : Text) (now : ℕ) → (say (run init cs) id by text now).1 ≡ refused)
unfolding IsQuiet say
unapproved-refused id cs t other here =
    let quiet = run-IsQuiet id cs init other (λ u e. unfold JsMap.get in ground arith) t here in
    (quiet.1, λ by text now. rw (here, say, quiet.0) refl)
