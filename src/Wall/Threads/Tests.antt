-- ===== src/Wall/Threads/Tests.antt =====
-- The store of threads on concrete inputs.
use filenymous.Prelude.{
  ℕ, ◌≡◌, ◌≢◌, refl, false, none, some, List, [], ◌∷◌, Text, codes, text_eq, any,
}
use filenymous.Wall.Threads
use filenymous.JsMap
use filenymous.Wall.Threads.{
  Thread, pending, opened, closed, self, refused, threw, Call, opens, sets, says, init, run, step,
  open_thread, set_state, say, close_all_of, involves, is_live_with,
}
use filenymous.Wall.Threads.Invariant.{IsValid, run_threads-IsValid}
use filenymous.Wall.Threads.Closing.{close_all_of-closes, say-never_throws}
use filenymous.Wall.Threads.Approval.{approves, unapproved-refused}

board_functions : Unit {0}
unfolding run step open_thread set_state say close_all_of involves is_live_with JsMap.get JsMap.set
    text_eq approves filenymous.Wall.Threads.is_at_limit filenymous.Wall.Threads.is_opened
    filenymous.Wall.Threads.new_thread filenymous.Wall.Threads.close_each
    filenymous.Wall.Threads.is_closed filenymous.Wall.Threads.same_state
    filenymous.Wall.Threads.moved filenymous.Wall.Threads.closer filenymous.Wall.Threads.non_empty
    filenymous.Wall.Threads.trimmed filenymous.Wall.Threads.new_msg
board_functions = tt

abbrev ann : Text
ann = codes "peer:1"

abbrev bob : Text
bob = codes "peer:2"

abbrev id : Text
id = codes "th-1"

abbrev request : List (ℕ × Call)
request =
    (1, opens ann bob (some (codes "plan")) (some []) id) ∷ (2, says id ann (codes "early")) ∷ []

abbrev script : List (ℕ × Call)
script =
    (1, opens ann bob (some (codes "plan")) (some []) id)
    ∷ (2, says id ann (codes "early"))
    ∷ (3, sets id opened none)
    ∷ (4, says id bob (codes "hello"))
    ∷ (5, says id (codes "peer:3") (codes "me too"))
    ∷ []

abbrev talked : Thread
talked = record {
  id = id;
  a = ann;
  b = bob;
  goal = some (codes "plan");
  task = none;
  state = opened;
  at = 1;
  closed_by = none;
  n = 1;
}

abbrev asked : Thread
asked = record talked { state = pending; n = 0 }

abbrev over : Thread
over = record talked { state = closed; closed_by = some (codes "host") }

script_runs : run init script ≡ (record {
  threads = (id, talked) ∷ [];
  msgs = (id, record { n = 1; by = bob; at = 4; text = codes "hello" } ∷ []) ∷ [];
})
unfolding board_functions
script_runs = refl

self_is_refused : (open_thread init ann ann none none 1 id).1 ≡ self
unfolding board_functions
self_is_refused = refl

closed_is_final : (set_state (close_all_of (run init script) bob).0 id pending none).1 ≡ none
unfolding board_functions
closed_is_final = refl

run_threads-IsValid_example : IsValid (run init script)
run_threads-IsValid_example = run_threads-IsValid script

after_close : JsMap.get id (close_all_of (run init script) bob).0.threads ≡ some over
unfolding board_functions
after_close = refl

close_all_of-closes_example : is_live_with bob over ≡ false
close_all_of-closes_example = close_all_of-closes script bob id over after_close

say-never_throws_example : (say (run init script) id ann (codes "hi") 6).1 ≢ threw
say-never_throws_example = say-never_throws script id ann (codes "hi") 6

no_approval : any (λ c. approves id c.1) request ≡ false
unfolding board_functions
no_approval = refl

request_is_there : JsMap.get id (run init request).threads ≡ some asked
unfolding board_functions
request_is_there = refl

unapproved-refused_example :
    (asked.n ≡ 0)
    × ((by text : Text) (now : ℕ) → (say (run init request) id by text now).1 ≡ refused)
unapproved-refused_example = unapproved-refused id request asked no_approval request_is_there
