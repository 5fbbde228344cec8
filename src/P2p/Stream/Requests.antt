-- ===== src/P2p/Stream/Requests.antt =====
-- What a request marks and what it sends.
use filenymous.Prelude.{
  ℕ, zero, suc, ◌+◌, ◌-◌, ◌≡◌, refl, sym, ◌∙◌, ap, Bool, true, false, ◌&&◌, ◌||◌, not, List, [],
  ◌∷◌, ◌++◌, map, arith, leb, ◌==◌, ==_iff, filter, any, All,
}
use filenymous.P2p.Stream.{missing_runs, StreamReader, has_chunk, add_run, send_runs, request}
use filenymous.P2p.Stream.Runs.{count_up, chunks_of, IsRun, missing_runs_lem}

stands_in : ℕ → List ℕ → Bool
stands_in c xs = any (λ x. x == c) xs

stands_in-append :
    (c : ℕ) (xs ys : List ℕ) → stands_in c (xs ++ ys) ≡ (stands_in c xs || stands_in c ys)
unfolding stands_in
stands_in-append c [] ys = refl
stands_in-append c (x ∷ xs) ys = ground (arith, stands_in-append c xs ys)

stands_in-count_up : (c n a : ℕ) → stands_in c (count_up a n) ≡ (leb a c && leb (c + 1) (a + n))
unfolding stands_in count_up
stands_in-count_up c zero a = ground arith
stands_in-count_up c (suc n) a = ground (arith, stands_in-count_up c n (a + 1))

stands_in-filter :
    (p : ℕ → Bool) (c : ℕ) (xs : List ℕ) → stands_in c (filter p xs) ≡ (p c && stands_in c xs)
unfolding stands_in
stands_in-filter p c [] = ground arith
stands_in-filter p c (x ∷ xs) =
    let same : (x == c) ≡ true → p x ≡ p c = λ e. ap p ((==_iff x c).0 e) in
    ground (arith, stands_in-filter p c xs)

module _ (file : ℕ) (prefetch : Bool) where
  -- What is marked after the runs have been sent.
  send_runs-marks :
      (runs : List (ℕ × ℕ)) (r : StreamReader) (f c : ℕ)
      → (send_runs file prefetch r runs).0.requested f c
        ≡ ((f == file && stands_in c (chunks_of runs)) || r.requested f c)
  unfolding send_runs add_run chunks_of stands_in
  send_runs-marks [] r f c = ground arith
  send_runs-marks ((a, b) ∷ runs) r f c =
      let run = count_up a (b + 1 - a) in
      let joined = stands_in-append c run (chunks_of runs) in
      let inside = stands_in-count_up c (b + 1 - a) a in
      let later =
        send_runs-marks runs (record r { requested = add_run file a b r.requested }) f c in
      ground arith

  send_runs-sends :
      (runs : List (ℕ × ℕ)) (r : StreamReader)
      → map (λ m. (m.from, m.to)) (send_runs file prefetch r runs).1 ≡ runs
  unfolding send_runs
  send_runs-sends [] r = refl
  send_runs-sends ((a, b) ∷ runs) r =
      let next = record r { requested = add_run file a b r.requested } in
      ap (λ ms. (a, b) ∷ ms) (send_runs-sends runs next)

  -- Every message is for this file, and says whether it is read ahead.
  send_runs-names :
      (runs : List (ℕ × ℕ)) (r : StreamReader)
      → All (λ m. (m.index ≡ file) × (m.prefetch ≡ prefetch)) (send_runs file prefetch r runs).1
  unfolding send_runs
  send_runs-names [] r = tt
  send_runs-names ((a, b) ∷ runs) r =
      let next = record r { requested = add_run file a b r.requested } in
      ((refl, refl), send_runs-names runs next)

  send_runs-cached :
      (runs : List (ℕ × ℕ)) (r : StreamReader) (f c : ℕ)
      → (send_runs file prefetch r runs).0.cached f c ≡ r.cached f c
  unfolding send_runs
  send_runs-cached [] r f c = refl
  send_runs-cached ((a, b) ∷ runs) r f c =
      send_runs-cached runs (record r { requested = add_run file a b r.requested }) f c

-- Runs without chunks are no runs.
no_chunks :
    (from to : ℕ) (runs : List (ℕ × ℕ)) → All (IsRun from to) runs → chunks_of runs ≡ [] → runs ≡ []
unfolding chunks_of count_up
no_chunks from to [] h e = refl
no_chunks from to ((a, b) ∷ runs) h e =
    let size : b + 1 - a ≡ suc (b - a) = omega (arith, h.0.forward) in
    let some_left : count_up a (suc (b - a)) ++ chunks_of runs ≡ [] =
      ap (λ n. count_up a n ++ chunks_of runs) (sym size) ∙ e in
    ground arith

filter_none :
    (p : ℕ → Bool) (xs : List ℕ)
    → ((c : ℕ) → stands_in c xs ≡ true → p c ≡ false)
    → filter p xs ≡ []
unfolding stands_in
filter_none p [] h = refl
filter_none p (x ∷ xs) h =
    let first : p x ≡ false = h x (ground (arith, ==_iff x x)) in
    let rest = filter_none p xs (λ c e. h c (ground arith)) in ground arith

module _ (r : StreamReader) (file from to : ℕ) (prefetch : Bool) where
  pub request-marks :
      (f c : ℕ)
      → has_chunk (request r file from to prefetch).0 f c
        ≡ (has_chunk r f c || (f == file && (leb from c && leb c to)))
  unfolding request has_chunk
  request-marks f c =
      let runs = missing_runs from to (has_chunk r file) in
      let marks = send_runs-marks file prefetch runs r f c in
      let kept = send_runs-cached file prefetch runs r f c in
      let exact = ap (stands_in c) (missing_runs_lem from to (has_chunk r file)).0 in
      let kind =
        stands_in-filter (λ x. not (has_chunk r file x)) c (count_up from (to + 1 - from)) in
      let inside = stands_in-count_up c (to + 1 - from) from in
      let same : (f == file) ≡ true → has_chunk r file c ≡ has_chunk r f c =
        λ e. ap (λ g. has_chunk r g c) (sym ((==_iff f file).0 e)) in
      let range : stands_in c (chunks_of runs)
          ≡ (not (has_chunk r file c) && (leb from c && leb c to)) =
        exact ∙ kind ∙ ap (λ b. not (has_chunk r file c) && b) (inside ∙ ground arith) in
      ground arith

  pub request-cached : (f c : ℕ) → (request r file from to prefetch).0.cached f c ≡ r.cached f c
  unfolding request
  request-cached f c =
      send_runs-cached file prefetch (missing_runs from to (has_chunk r file)) r f c

  -- What is marked stays marked.
  pub request-keeps :
      (f c : ℕ) → r.requested f c ≡ true → (request r file from to prefetch).0.requested f c ≡ true
  unfolding request
  request-keeps f c h =
      ground (arith, send_runs-marks file prefetch (missing_runs from to (has_chunk r file)) r f c)

  request-sends :
      chunks_of (map (λ m. (m.from, m.to)) (request r file from to prefetch).1)
      ≡ filter (λ c. not (has_chunk r file c)) (count_up from (to + 1 - from))
  unfolding request
  request-sends =
      ap chunks_of (send_runs-sends file prefetch (missing_runs from to (has_chunk r file)) r)
      ∙ (missing_runs_lem from to (has_chunk r file)).0

-- A request for the chunks `from` to `to` of a file sends messages for that file, marked as read ahead
-- when it is, that ask for exactly the chunks that are neither in the cache nor already asked for, each
-- once and in order; afterwards each of them counts as asked for, and nothing else does that did not
-- before; and the same request again sends nothing.
pub request_once :
    (r : StreamReader) (file from to : ℕ) (prefetch : Bool)
    → (chunks_of (map (λ m. (m.from, m.to)) (request r file from to prefetch).1)
        ≡ filter (λ c. not (has_chunk r file c)) (count_up from (to + 1 - from)))
      × All (λ m. (m.index ≡ file) × (m.prefetch ≡ prefetch)) (request r file from to prefetch).1
      × ((f c : ℕ)
          → has_chunk (request r file from to prefetch).0 f c
            ≡ (has_chunk r f c || (f == file && (leb from c && leb c to))))
      × ((request (request r file from to prefetch).0 file from to prefetch).1 ≡ [])
request_once r file from to prefetch =
    let next = (request r file from to prefetch).0 in
    let found = missing_runs_lem from to (has_chunk next file) in
    let all_there =
      filter_none (λ c. not (has_chunk next file c)) (count_up from (to + 1 - from))
        λ c e.
          let inside = stands_in-count_up c (to + 1 - from) from in
          let marked = request-marks r file from to prefetch file c in
          let same = (==_iff file file).1 refl in ground arith in
    let no_runs =
      no_chunks from to (missing_runs from to (has_chunk next file)) found.1
        (found.0 ∙ all_there) in
    (
      request-sends r file from to prefetch,
      unfold request in send_runs-names file prefetch (missing_runs from to (has_chunk r file)) r,
      request-marks r file from to prefetch,
      unfold request send_runs in ap (λ runs. (send_runs file prefetch next runs).1) no_runs,
    )
