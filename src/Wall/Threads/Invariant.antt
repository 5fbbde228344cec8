-- ===== src/Wall/Threads/Invariant.antt =====
-- The well-formedness of the store of threads, and that every call keeps it.
use filenymous.Prelude.{
  ℕ, ◌+◌, ◌≤◌, ◌≡◌, refl, sym, ◌∙◌, subst, ap, and-right, ◌++◌, inl, inr, true, false, ◌&&◌, ◌||◌,
  Option, some, List, [], ◌∷◌, arith, Text, text_eq, text_eq_iff, codes, Bool-cases, Option-cases,
}
use filenymous.JsMap
use filenymous.JsMap.{JsMap, set_found, get-set_same, get-set_other}
use filenymous.JsMap.Count.{count, count-set-le, count-set_mono}
use filenymous.Wall.Threads.{
  ThreadState, closed, Thread, ThreadMsg, ThreadBoard, init, threads_per_agent, involves, is_closed,
  is_live_with, is_at_limit, new_thread, same_state, is_opened, moved, open_thread, set_state, say,
  new_msg, trimmed, close_each, close_all_of, Call, opens, sets, says, closes_all, step, run,
}
use filenymous.Wall.Threads.Logs.{IsLog, IsLog-say}

pub record IsSound (msgs : JsMap (List ThreadMsg)) (k : Text) (t : Thread) : Type 0 where
  pub keyed : t.id ≡ k
  pub apart : text_eq t.a t.b ≡ false
  pub logged : (ms : List ThreadMsg) × (JsMap.get k msgs ≡ some ms) × IsLog t ms

pub record IsValid (board : ThreadBoard) : Type 0 where
  pub sound : (k : Text) (t : Thread) → JsMap.get k board.threads ≡ some t → IsSound board.msgs k t
  pub few : (label : Text) → count (is_live_with label) board.threads ≤ threads_per_agent

moved-IsSound :
    {msgs : JsMap (List ThreadMsg)} (k : Text) (t : Thread) (state : ThreadState) (by : Option Text)
    → IsSound msgs k t
    → IsSound msgs k (moved t state by)
unfolding moved involves
moved-IsSound k t state by s = record {
  keyed = s.keyed;
  apart = s.apart;
  logged = (
    s.logged.0,
    s.logged.1,
    record { kept = s.logged.2.kept; numbered = s.logged.2.numbered; inside = s.logged.2.inside },
  );
}

module _ (board : ThreadBoard) (valid : IsValid board) where
  -- A thread and its messages are written together.
  put-IsSound :
      (id : Text) (t : Thread) (ms : List ThreadMsg)
      → t.id ≡ id
      → text_eq t.a t.b ≡ false
      → IsLog t ms
      → (k : Text) (u : Thread) → JsMap.get k (JsMap.set id t board.threads) ≡ some u
      → IsSound (JsMap.set id ms board.msgs) k u
  put-IsSound id t ms named apart log k u e = elim (set_found id k t board.threads e) [
    | inl (here, new) ↦
        subst (λ w. IsSound (JsMap.set id ms board.msgs) k w) new
          record {
            keyed = named ∙ here;
            apart = apart;
            logged =
                subst
                  (λ j.
                    (os : List ThreadMsg) × (JsMap.get j (JsMap.set id ms board.msgs) ≡ some os)
                    × IsLog t os)
                  here (ms, get-set_same id ms board.msgs, log);
          }
    | inr (there, old) ↦
        let s = valid.sound k u old in
        record {
          keyed = s.keyed;
          apart = s.apart;
          logged = (s.logged.0, get-set_other id k ms board.msgs there ∙ s.logged.1, s.logged.2);
        }
  ]

  -- Below the limit there is room for one more thread with either member.
  room :
      (a b l : Text) (t : Thread)
      → t.a ≡ a
      → t.b ≡ b
      → (is_at_limit board a || is_at_limit board b) ≡ false
      → is_live_with l t ≡ true
      → count (is_live_with l) board.threads + 1 ≤ threads_per_agent
  unfolding is_live_with involves is_at_limit
  room a b l t ha hb f live = elim (Bool-cases (text_eq t.a l)) [
    | inl e ↦
        let same : count (is_live_with l) board.threads ≡ count (is_live_with a) board.threads =
          ap (λ x. count (is_live_with x) board.threads) (sym ((text_eq_iff t.a l).0 e) ∙ ha) in
        ground (arith, same)
    | inr e ↦
        let other : text_eq t.b l ≡ true = ground arith in
        let same : count (is_live_with l) board.threads ≡ count (is_live_with b) board.threads =
          ap (λ x. count (is_live_with x) board.threads) (sym ((text_eq_iff t.b l).0 other) ∙ hb) in
        ground (arith, same)
  ]

  open_thread-IsValid :
      (a b : Text) (goal task : Option Text) (now : ℕ) (id : Text)
      → IsValid (open_thread board a b goal task now id).0
  unfolding open_thread new_thread
  open_thread-IsValid a b goal task now id = elim (Bool-cases (text_eq a b)) [
    | inl e ↦ rw e valid
    | inr e ↦ elim (Bool-cases (is_at_limit board a || is_at_limit board b)) [
      | inl f ↦ rw (e, f) valid
      | inr f ↦
          rw (e, f)
            (record {
              sound =
                  put-IsSound id (new_thread id a b goal task now) [] refl e
                    record { kept = refl; numbered = tt; inside = tt };
              few = λ l.
                  let t = new_thread id a b goal task now in
                  let most = count-set-le (is_live_with l) id t board.threads in
                  let old = valid.few l in
                  let free : is_live_with l t ≡ true
                      → count (is_live_with l) board.threads + 1 ≤ threads_per_agent =
                    room a b l t refl refl f in
                  ground (arith, most, old, free);
            })
    ]
  ]

  set_state-IsValid :
      (id : Text) (state : ThreadState) (by : Option Text) → IsValid (set_state board id state by).0
  unfolding set_state
  set_state-IsValid id state by = elim (Option-cases (JsMap.get id board.threads)) [
    | inl e ↦ rw (e, set_state) valid
    | inr (t, e) ↦
        rw (e, set_state)
          (elim (Bool-cases (is_closed t.state || same_state t.state state)) [
            | inl f ↦ rw f valid
            | inr f ↦
                let s = valid.sound id t e in
                rw f record {
                  sound = λ k u g. elim (set_found id k (moved t state by) board.threads g) [
                    | inl (here, new) ↦
                        subst (λ w. IsSound board.msgs k w) new
                          (subst (λ j. IsSound board.msgs j (moved t state by)) here
                            (moved-IsSound id t state by s))
                    | inr (there, old) ↦ valid.sound k u old
                  ];
                  few = λ l.
                      let still : is_live_with l (moved t state by) ≡ true
                          → is_live_with l t ≡ true =
                        unfold moved is_live_with involves in ground arith in
                      omega (
                        arith,
                        valid.few l,
                        count-set_mono (is_live_with l) id (moved t state by) t board.threads e
                            still,
                      );
                }
          ])
  ]

  say-IsValid : (id by text : Text) (now : ℕ) → IsValid (say board id by text now).0
  unfolding say
  say-IsValid id by text now = elim (Option-cases (JsMap.get id board.threads)) [
    | inl e ↦ rw (e, say) valid
    | inr (t, e) ↦
        rw (e, say)
          (elim (Bool-cases (is_opened t.state && involves t by)) [
            | inl f ↦
                let s = valid.sound id t e in
                let ms = s.logged.0 in
                rw (f, s.logged.1)
                  record {
                    sound =
                        put-IsSound id (record t { n = t.n + 1 })
                          (trimmed (ms ++ new_msg t by now text ∷ [])) s.keyed s.apart
                          (IsLog-say t ms by now text (and-right (is_opened t.state) _ f)
                            s.logged.2);
                    few = λ l.
                        let still : is_live_with l (record t { n = t.n + 1 }) ≡ true
                            → is_live_with l t ≡ true =
                          unfold is_live_with involves in λ live. live in
                        omega (
                          arith,
                          valid.few l,
                          count-set_mono (is_live_with l) id (record t { n = t.n + 1 }) t
                              board.threads e still,
                        );
                  }
            | inr f ↦ rw f valid
          ])
  ]

close_each-IsValid :
    (label : Text) (ts : List Thread) (board : ThreadBoard)
    → IsValid board
    → IsValid (close_each label board ts).0
unfolding close_each
close_each-IsValid label [] board valid = valid
close_each-IsValid label (t ∷ ts) board valid = elim (Bool-cases (is_live_with label t)) [
  | inl e ↦ rw e (
      close_each-IsValid label ts (set_state board t.id closed (some (codes "host"))).0
        (set_state-IsValid board valid t.id closed (some (codes "host"))))
  | inr e ↦ rw e (close_each-IsValid label ts board valid)
]

pub step-IsValid : (board : ThreadBoard) (c : ℕ × Call) → IsValid board → IsValid (step board c)
unfolding step close_all_of
step-IsValid board (now, opens a b goal task id) valid =
    open_thread-IsValid board valid a b goal task now id
step-IsValid board (now, sets id state by) valid = set_state-IsValid board valid id state by
step-IsValid board (now, says id by text) valid = say-IsValid board valid id by text now
step-IsValid board (now, closes_all label) valid =
    close_each-IsValid label (JsMap.values board.threads) board valid

run-IsValid : (cs : List (ℕ × Call)) (board : ThreadBoard) → IsValid board → IsValid (run board cs)
unfolding run
run-IsValid [] board valid = valid
run-IsValid (c ∷ cs) board valid = run-IsValid cs (step board c) (step-IsValid board c valid)

-- Whatever calls the store has seen since it was made, with any times and ids: every thread stands
-- under its own id and links two different labels, no label is a member of more than 8 threads that
-- are not closed, and each thread has its list of messages, which holds the newest min(n, 500) of
-- them, numbered without a gap up to the thread's count n, each by one of the two members.
pub run_threads-IsValid : (cs : List (ℕ × Call)) → IsValid (run init cs)
run_threads-IsValid cs =
    run-IsValid cs init
      record { sound = λ k t e. unfold JsMap.get in ground arith; few = λ l. omega arith }
