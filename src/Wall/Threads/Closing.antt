-- ===== src/Wall/Threads/Closing.antt =====
-- What closing a member's threads leaves, and that a message always finds its list.
use filenymous.Prelude.{
  ℕ, ◌≡◌, ◌≢◌, refl, sym, ◌∙◌, subst, ap, inl, inr, ◌⊎◌, Bool, true, false, ◌&&◌, ◌||◌, Option,
  some, List, [], ◌∷◌, arith, Text, text_eq, text_eq_iff, text_eq_refl, codes, Bool-cases,
  Option-cases, any,
}
use mathlib.Core.Option.{some-injective}
use filenymous.JsMap
use filenymous.JsMap.{JsMap, set_found, get-set_same, get-set_other, has-get}
use filenymous.Wall.Threads.{
  ThreadState, pending, opened, closed, Thread, ThreadBoard, threw, init, involves, is_closed,
  is_opened, same_state, is_live_with, moved, set_state, say, close_each, close_all_of, Call, run,
}
use filenymous.Wall.Threads.Invariant.{IsValid, run_threads-IsValid}

-- A thread of the list that stands under the key and counts for the label.
covers : Text → Text → Thread → Bool
covers label k u = text_eq u.id k && is_live_with label u

-- Every thread of the store that counts for the label is in the list.
abbrev IsCovered : Text → ThreadBoard → List Thread → Type 0
IsCovered label board ts =
    (k : Text) (t : Thread)
    → JsMap.get k board.threads ≡ some t
    → is_live_with label t ≡ true
    → any (covers label k) ts ≡ true

same_state-closed : (s : ThreadState) → same_state s closed ≡ true → is_closed s ≡ true
unfolding same_state is_closed
same_state-closed pending h = h
same_state-closed opened h = h
same_state-closed closed h = refl

-- A lookup is at the id or not.
at_or_not :
    (id k : Text) (m : JsMap Thread) (t : Thread)
    → JsMap.get k m ≡ some t
    → ((id ≡ k) × (JsMap.get id m ≡ some t)) ⊎ ((text_eq id k ≡ false) × (JsMap.get k m ≡ some t))
at_or_not id k m t h = elim (Bool-cases (text_eq id k)) [
  | inl e ↦ let same = (text_eq_iff id k).0 e in inl (same, ap (λ j. JsMap.get j m) same ∙ h)
  | inr e ↦ inr (e, h)
]

-- After a call that closes, what stands under the id is closed, and the rest is as it was.
set_state-closed :
    (board : ThreadBoard) (id : Text) (by : Option Text) (k : Text) (t : Thread)
    → JsMap.get k (set_state board id closed by).0.threads ≡ some t
    → ((id ≡ k) × (is_closed t.state ≡ true))
      ⊎ ((text_eq id k ≡ false) × (JsMap.get k board.threads ≡ some t))
unfolding set_state
set_state-closed board id by k t h = elim (Option-cases (JsMap.get id board.threads)) [
  | inl e ↦ elim (at_or_not id k board.threads t (rw (e, set_state) at h)) [
    | inl (here, g) ↦ ground arith
    | inr old ↦ inr old
  ]
  | inr (u, e) ↦ elim (Bool-cases (is_closed u.state || same_state u.state closed)) [
    | inl f ↦ elim (at_or_not id k board.threads t (rw (e, set_state, f) at h)) [
      | inl (here, g) ↦
          let same = some-injective u t (sym e ∙ g) in
          inl (
            here,
            subst (λ w. is_closed w.state ≡ true) same (ground (arith, same_state-closed u.state)),
          )
      | inr old ↦ inr old
    ]
    | inr f ↦ elim (set_found id k (moved u closed by) board.threads (rw (e, set_state, f) at h)) [
      | inl (here, new) ↦
          inl (here, subst (λ w. is_closed w.state ≡ true) new (unfold moved is_closed in refl))
      | inr (there, old) ↦ inr (there, old)
    ]
  ]
]

close_each-closes :
    (label : Text) (ts : List Thread) (board : ThreadBoard)
    → IsCovered label board ts
    → (k : Text) (t : Thread) → JsMap.get k (close_each label board ts).0.threads ≡ some t
    → is_live_with label t ≡ false
unfolding close_each is_live_with covers
close_each-closes label [] board cover k t h = elim (Bool-cases (is_live_with label t)) [
  | inl e ↦ ground (arith, cover k t h e)
  | inr e ↦ e
]
close_each-closes label (u ∷ ts) board cover k t h = elim (Bool-cases (is_live_with label u)) [
  | inl e ↦
      close_each-closes label ts (set_state board u.id closed (some (codes "host"))).0
        (λ j s g live.
          let old = cover j s in
          elim (set_state-closed board u.id (some (codes "host")) j s g) [
            | inl (here, over) ↦ unfold is_live_with in ground arith
            | inr (there, was) ↦ let c = cover j s was live in unfold covers in ground arith
          ])
        k t (rw e at h)
  | inr e ↦
      close_each-closes label ts board
        (λ j s g live. let c = cover j s g live in unfold covers in ground arith) k t (rw e at h)
]

-- The list of the threads covers the store that it was read from.
values-IsCovered :
    (label : Text) (m : JsMap Thread)
    → ((k : Text) (t : Thread) → JsMap.get k m ≡ some t → t.id ≡ k)
    → (k : Text) (t : Thread) → JsMap.get k m ≡ some t
    → is_live_with label t ≡ true
    → any (covers label k) (JsMap.values m) ≡ true
unfolding JsMap.get covers
values-IsCovered label m keyed k t h live =
    any_values m h (ground (arith, text_eq_refl k, ap (λ j. text_eq j k) (keyed k t h)))
  where
    any_values :
        (m : JsMap Thread)
        → JsMap.get k m ≡ some t
        → covers label k t ≡ true
        → any (covers label k) (JsMap.values m) ≡ true
    any_values [] e c = ground arith
    any_values ((j, w) ∷ m) e c = elim (Bool-cases (text_eq j k)) [
      | inl q ↦
          let same = some-injective w t (rw q at e) in
          let here : covers label k w ≡ true = subst (λ x. covers label k x ≡ true) (sym same) c in
          ground arith
      | inr q ↦ let rest = any_values m (rw q at e) c in ground arith
    ]

-- Whatever calls the store has seen since it was made: after `closeAllOf(label)` every thread that
-- it holds is closed or has no member of that label.
pub close_all_of-closes :
    (cs : List (ℕ × Call)) (label k : Text) (t : Thread)
    → JsMap.get k (close_all_of (run init cs) label).0.threads ≡ some t
    → is_live_with label t ≡ false
unfolding close_all_of
close_all_of-closes cs label k t h =
    let board = run init cs in
    let valid : IsValid board = run_threads-IsValid cs in
    close_each-closes label (JsMap.values board.threads) board
      (values-IsCovered label board.threads (λ j u e. (valid.sound j u e).keyed)) k t h

-- Whatever calls the store has seen since it was made, `say` always finds the thread's list of
-- messages: it does not throw.
pub say-never_throws :
    (cs : List (ℕ × Call)) (id by text : Text) (now : ℕ)
    → (say (run init cs) id by text now).1 ≢ threw
unfolding say
say-never_throws cs id by text now h =
    let board = run init cs in
    let valid : IsValid board = run_threads-IsValid cs in
    elim (Option-cases (JsMap.get id board.threads)) [
      | inl e ↦ let g = rw (e, say) at h in ground arith
      | inr (t, e) ↦ elim (Bool-cases (is_opened t.state && involves t by)) [
        | inl f ↦
            let s = valid.sound id t e in let g = rw (e, say, f, s.logged.1) at h in ground arith
        | inr f ↦ let g = rw (e, say, f) at h in ground arith
      ]
    ]
