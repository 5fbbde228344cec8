-- ===== src/P2p/Stream.antt =====
-- ui/src/p2p/stream.ts: which encrypted chunks the streaming receiver asks the sender for.
pub mod Runs
pub mod Requests
mod Tests
use filenymous.Prelude.{
  ℕ, zero, suc, ◌+◌, ◌-◌, Bool, true, false, ◌&&◌, ◌||◌, not, Option, none, some, List, [], ◌∷◌,
  leb, ◌==◌, if◌then◌else◌,
}

-- ui/src/p2p/protocol.ts
abbrev pub max_range_chunks : ℕ
max_range_chunks = 64

-- `c <= to && !have(c)`
unfoldable pub is_missing : ℕ → (ℕ → Bool) → ℕ → Bool
is_missing to have c = leb c to && not (have c)

-- `start` after its first test, where none stands for -1.
unfoldable pub opened_at : Bool → ℕ → Option ℕ → Option ℕ
opened_at true c none = some c
opened_at false c none = none
opened_at missing c (some s) = some s

-- The second test of a round.
unfoldable pub ends_run : Bool → ℕ → Option ℕ → Bool
ends_run missing c none = false
ends_run missing c (some s) = not missing || c - s == max_range_chunks

unfoldable pub push_run : Option ℕ → ℕ → List (ℕ × ℕ) → List (ℕ × ℕ)
push_run none c runs = runs
push_run (some s) c runs = (s, c - 1) ∷ runs

-- The rounds of the loop from c on, n of them, with `start` before them.
unfoldable pub runs_from : ℕ → (ℕ → Bool) → ℕ → ℕ → Option ℕ → List (ℕ × ℕ)
runs_from to have zero c start = []
runs_from to have (suc n) c start =
    let missing = is_missing to have c in
    let begun = opened_at missing c start in
    let ends = ends_run missing c begun in
    let rest =
      runs_from to have n (c + 1) (if ends then (if missing then some c else none) else begun) in
    if ends then push_run begun c rest else rest

-- `missingRuns`: c runs from `from` to `to + 1`.
unfoldable pub missing_runs : ℕ → ℕ → (ℕ → Bool) → List (ℕ × ℕ)
missing_runs from to have = runs_from to have (to + 2 - from) from none

-- A message that asks for the chunks `from` to `to` of a file.
pub record Range : Type 0 where
  pub index : ℕ
  pub from : ℕ
  pub to : ℕ
  pub prefetch : Bool

-- The keys `${file}:${c}` of `cache` and `requested`.
pub record StreamReader : Type 0 where
  pub cached : ℕ → ℕ → Bool
  pub requested : ℕ → ℕ → Bool

unfoldable pub has_chunk : StreamReader → ℕ → ℕ → Bool
has_chunk r file c = r.cached file c || r.requested file c

-- `for (let c = a; c <= b; c++) requested.add(...)`
unfoldable pub add_run : ℕ → ℕ → ℕ → (ℕ → ℕ → Bool) → ℕ → ℕ → Bool
add_run file a b requested f c = (f == file && leb a c && leb c b) || requested f c

unfoldable pub send_runs : ℕ → Bool → StreamReader → List (ℕ × ℕ) → StreamReader × List Range
send_runs file prefetch r [] = (r, [])
send_runs file prefetch r ((a, b) ∷ runs) =
    let rest =
      send_runs file prefetch (record r { requested = add_run file a b r.requested }) runs in
    (rest.0, record { index = file; from = a; to = b; prefetch = prefetch } ∷ rest.1)

-- `request`: the runs are found with `has` as it answers while the loop goes on; since the runs are
-- found before it starts, that is the reader's state before the call.
unfoldable pub request : StreamReader → ℕ → ℕ → ℕ → Bool → StreamReader × List Range
request r file from to prefetch =
    send_runs file prefetch r (missing_runs from to (has_chunk r file))
