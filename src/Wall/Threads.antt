-- ===== src/Wall/Threads.antt =====
-- ui/src/wall/threads.ts: the host's store of private threads between two agents.
-- `Date.now()` and the id that `newId()` returns are arguments.
mod Logs
pub mod Invariant
pub mod Closing
pub mod Approval
mod Tests
use filenymous.Prelude.{
  ℕ, zero, suc, ◌+◌, ◌-◌, ◌≡◌, Bool, true, false, ◌&&◌, ◌||◌, not, Option, none, some, List, [],
  ◌∷◌, ◌++◌, ltb, leb, if◌then◌else◌, Text, codes, text_eq, length, drop,
}
use filenymous.JsMap
use filenymous.JsMap.{JsMap}
use filenymous.JsMap.Count.{count}

pub data ThreadState : Type 0 where
  pending opened closed : ThreadState

pub record Thread : Type 0 where
  pub id : Text
  pub a : Text
  pub b : Text
  pub goal : Option Text
  pub task : Option Text
  pub state : ThreadState
  pub at : ℕ
  pub closed_by : Option Text
  pub n : ℕ

pub record ThreadMsg : Type 0 where
  pub n : ℕ
  pub by : Text
  pub at : ℕ
  pub text : Text

abbrev pub thread_keep : ℕ
thread_keep = 500

abbrev pub threads_per_agent : ℕ
threads_per_agent = 8

pub record ThreadBoard : Type 0 where
  pub threads : JsMap Thread
  pub msgs : JsMap (List ThreadMsg)

abbrev pub init : ThreadBoard
init = record { threads = []; msgs = [] }

pub involves : Thread → Text → Bool
involves t label = text_eq t.a label || text_eq t.b label

pub is_closed : ThreadState → Bool
is_closed closed = true
is_closed _ = false

-- A thread that counts for its members' limit.
pub is_live_with : Text → Thread → Bool
is_live_with label t = not (is_closed t.state) && involves t label

-- `live(l) >= THREADS_PER_AGENT`
is_at_limit : ThreadBoard → Text → Bool
is_at_limit board label = leb threads_per_agent (count (is_live_with label) board.threads)

pub data Opened : Type 0 where
  started : Thread → Opened
  limit : Opened
  self : Opened

-- `x ? { x } : {}`: an empty text is left out.
non_empty : Option Text → Option Text
non_empty none = none
non_empty (some []) = none
non_empty (some (c ∷ s)) = some (c ∷ s)

new_thread : Text → Text → Text → Option Text → Option Text → ℕ → Thread
unfolding non_empty
new_thread id a b goal task now = record {
  id = id;
  a = a;
  b = b;
  goal = non_empty goal;
  task = non_empty task;
  state = pending;
  at = now;
  closed_by = none;
  n = 0;
}

pub open_thread :
    ThreadBoard → Text → Text → Option Text → Option Text → ℕ → Text → ThreadBoard × Opened
open_thread board a b goal task now id =
    if text_eq a b
    then (board, self)
    else if is_at_limit board a || is_at_limit board b
    then (board, limit)
    else let t = new_thread id a b goal task now in
      (
        record { threads = JsMap.set id t board.threads; msgs = JsMap.set id [] board.msgs },
        started t,
      )

same_state : ThreadState → ThreadState → Bool
same_state pending pending = true
same_state opened opened = true
same_state closed closed = true
same_state _ _ = false

-- `state === "closed" && by ? { closedBy: by } : {}` over what was there
closer : ThreadState → Option Text → Option Text → Option Text
unfolding non_empty
closer closed by was = elim (non_empty by) [ none ↦ was | some l ↦ some l ]
closer pending by was = was
closer opened by was = was

moved : Thread → ThreadState → Option Text → Thread
moved t state by = record t { state = state; closed_by = closer state by t.closed_by }

pub set_state : ThreadBoard → Text → ThreadState → Option Text → ThreadBoard × Option Thread
set_state board id state by = elim (JsMap.get id board.threads) [
  | none ↦ (board, none)
  | some t ↦ if is_closed t.state || same_state t.state state then (board, none) else (
    record board { threads = JsMap.set id (moved t state by) board.threads },
    some (moved t state by),
  )
]

-- `null`, the thread and the message, or the exception on a missing list of messages.
pub data Said : Type 0 where
  said : Thread → ThreadMsg → Said
  refused : Said
  threw : Said

is_opened : ThreadState → Bool
is_opened opened = true
is_opened _ = false

-- The list keeps its last 500 messages.
pub trimmed : List ThreadMsg → List ThreadMsg
trimmed ms = if ltb thread_keep (length ms) then drop (length ms - thread_keep) ms else ms

pub new_msg : Thread → Text → ℕ → Text → ThreadMsg
new_msg t by now text = record { n = t.n + 1; by = by; at = now; text = text }

pub say : ThreadBoard → Text → Text → Text → ℕ → ThreadBoard × Said
say board id by text now = elim (JsMap.get id board.threads) [
  | none ↦ (board, refused)
  | some t ↦
      if is_opened t.state && involves t by
      then elim (JsMap.get id board.msgs) [
        | none ↦ (board, threw)
        | some ms ↦
            let msg = new_msg t by now text in
            let next = record t { n = t.n + 1 } in
            (
              record {
                threads = JsMap.set id next board.threads;
                msgs = JsMap.set id (trimmed (ms ++ msg ∷ [])) board.msgs;
              },
              said next msg,
            )
      ]
      else (board, refused)
]

-- The loop of `closeAllOf` over the threads that `list` gave, with what it pushed.
pub close_each : Text → ThreadBoard → List Thread → ThreadBoard × List (Option Thread)
close_each label board [] = (board, [])
close_each label board (t ∷ ts) =
    let done = set_state board t.id closed (some (codes "host")) in
    let rest = close_each label done.0 ts in
    let skip = close_each label board ts in
    if is_live_with label t then (rest.0, done.1 ∷ rest.1) else skip

pub close_all_of : ThreadBoard → Text → ThreadBoard × List (Option Thread)
close_all_of board label = close_each label board (JsMap.values board.threads)

-- One call of the store, with the time; reads do not change it.
pub data Call : Type 0 where
  opens : Text → Text → Option Text → Option Text → Text → Call
  sets : Text → ThreadState → Option Text → Call
  says : Text → Text → Text → Call
  closes_all : Text → Call

pub step : ThreadBoard → ℕ × Call → ThreadBoard
step board (now, opens a b goal task id) = (open_thread board a b goal task now id).0
step board (now, sets id state by) = (set_state board id state by).0
step board (now, says id by text) = (say board id by text now).0
step board (now, closes_all label) = (close_all_of board label).0

pub run : ThreadBoard → List (ℕ × Call) → ThreadBoard
run board [] = board
run board (c ∷ cs) = run (step board c) cs
