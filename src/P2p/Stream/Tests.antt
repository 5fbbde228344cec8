-- ===== src/P2p/Stream/Tests.antt =====
-- The streaming receiver on a concrete file.
use filenymous.Prelude.{
  ℕ, ◌+◌, ◌-◌, ◌≡◌, refl, Bool, true, false, ◌&&◌, ◌||◌, not, [], ◌∷◌, map, filter, All, leb, ◌==◌,
}
use filenymous.P2p.Stream
use filenymous.P2p.Stream.{StreamReader, missing_runs, request, has_chunk}
use filenymous.P2p.Stream.Runs.{IsRun, chunks_of, count_up, missing_runs_lem}
use filenymous.P2p.Stream.Requests.{request_once}

stream_functions : Unit {0}
unfolding missing_runs request has_chunk filenymous.P2p.Stream.runs_from
    filenymous.P2p.Stream.send_runs filenymous.P2p.Stream.add_run filenymous.P2p.Stream.is_missing
    filenymous.P2p.Stream.opened_at filenymous.P2p.Stream.ends_run filenymous.P2p.Stream.push_run
stream_functions = tt

abbrev third : ℕ → Bool
third c = c == 3

abbrev reader : StreamReader
reader = record { cached = λ f c. f == 0 && third c; requested = λ f c. false }

two_runs : missing_runs 1 5 third ≡ (1, 2) ∷ (4, 5) ∷ []
unfolding stream_functions
two_runs = refl

long_run : missing_runs 0 99 (λ c. false) ≡ (0, 63) ∷ (64, 99) ∷ []
unfolding stream_functions
long_run = refl

missing_runs_example :
    (chunks_of (missing_runs 1 5 third) ≡ filter (λ c. not (third c)) (count_up 1 (5 + 1 - 1)))
    × All (IsRun 1 5) (missing_runs 1 5 third)
missing_runs_example = missing_runs_lem 1 5 third

request_once_example :
    (chunks_of (map (λ m. (m.from, m.to)) (request reader 0 1 5 true).1)
      ≡ filter (λ c. not (has_chunk reader 0 c)) (count_up 1 (5 + 1 - 1)))
    × All (λ m. (m.index ≡ 0) × (m.prefetch ≡ true)) (request reader 0 1 5 true).1
    × ((f c : ℕ)
        → has_chunk (request reader 0 1 5 true).0 f c
          ≡ (has_chunk reader f c || (f == 0 && (leb 1 c && leb c 5))))
    × ((request (request reader 0 1 5 true).0 0 1 5 true).1 ≡ [])
request_once_example = request_once reader 0 1 5 true
