-- ===== src/P2p/Stream/Runs.antt =====
-- The runs are the missing chunks, each once and in order, in pieces that a sender accepts.
use filenymous.Prelude.{
  ℕ, zero, suc, ◌+◌, ◌-◌, ◌≤◌, ◌<◌, ◌≡◌, refl, ◌∙◌, ap, inl, inr, Bool, true, false, not, Option,
  none, some, List, [], ◌∷◌, ◌++◌, arith, leb, leb→le, ◌==◌, filter, All, Bool-cases,
}
use filenymous.P2p.Stream.{
  max_range_chunks, is_missing, opened_at, ends_run, push_run, runs_from, missing_runs,
}

-- c, c + 1, …: n numbers.
unfoldable pub count_up : ℕ → ℕ → List ℕ
count_up c zero = []
count_up c (suc n) = c ∷ count_up (c + 1) n

-- The chunks of the runs, one after the other.
unfoldable pub chunks_of : List (ℕ × ℕ) → List ℕ
unfolding count_up
chunks_of [] = []
chunks_of ((a, b) ∷ runs) = count_up a (b + 1 - a) ++ chunks_of runs

-- The chunks of the run that is open before chunk c.
pending_of : Option ℕ → ℕ → List ℕ
unfolding count_up
pending_of none c = []
pending_of (some s) c = count_up s (c - s)

IsOpen : ℕ → ℕ → Option ℕ → Type 0
IsOpen to c none = Unit
IsOpen to c (some s) = (s < c) × (c ≤ s + max_range_chunks) × (c ≤ to + 1)

count_up-snoc :
    (n s c : ℕ) (rest : List ℕ) → s + n ≡ c → count_up s (suc n) ++ rest ≡ count_up s n ++ c ∷ rest
unfolding count_up
count_up-snoc zero s c rest e = let here : s ≡ c = omega arith in ap (λ x. x ∷ rest) here
count_up-snoc (suc n) s c rest e = ap (λ xs. s ∷ xs) (count_up-snoc n (s + 1) c rest (omega arith))

count_up_one : (c : ℕ) → count_up c (c + 1 - c) ≡ c ∷ []
unfolding count_up
count_up_one c = let e : c + 1 - c ≡ 1 = omega arith in ap (count_up c) e

module _ (to : ℕ) (have : ℕ → Bool) where
  -- The missing chunks among the next n.
  ahead : ℕ → ℕ → List ℕ
  unfolding count_up
  ahead c n = filter (is_missing to have) (count_up c n)

  missing-le : (c : ℕ) → is_missing to have c ≡ true → c ≤ to
  unfolding is_missing
  missing-le c m = ground arith

  runs_from_lem :
      (n c : ℕ) (start : Option ℕ)
      → c + n ≡ to + 2
      → IsOpen to c start
      → chunks_of (runs_from to have n c start) ≡ pending_of start c ++ ahead c n
  unfolding runs_from pending_of ahead count_up opened_at ends_run push_run chunks_of IsOpen
  runs_from_lem zero c none e going = refl
  runs_from_lem zero c (some s) e going = ground arith
  runs_from_lem (suc n) c none e going = elim (Bool-cases (is_missing to have c)) [
    | inl m ↦
        let short : (c - c == max_range_chunks) ≡ false = ground arith in
        let few = missing-le c m in
        rw (m, short)
          (runs_from_lem n (c + 1) (some c) (omega arith) (omega arith, omega arith, omega arith)
            ∙ ap (λ xs. xs ++ ahead (c + 1) n) (count_up_one c))
    | inr m ↦ rw m (runs_from_lem n (c + 1) none (omega arith) tt)
  ]
  runs_from_lem (suc n) c (some s) e going = elim (Bool-cases (is_missing to have c)) [
    | inl m ↦ elim (Bool-cases (c - s == max_range_chunks)) [
      | inl f ↦
          let few = missing-le c m in
          let whole : c - 1 + 1 - s ≡ c - s = omega arith in
          rw (m, f, whole)
            (ap (λ xs. count_up s (c - s) ++ xs)
              (runs_from_lem n (c + 1) (some c) (omega arith)
                  (omega arith, omega arith, omega arith)
                ∙ ap (λ xs. xs ++ ahead (c + 1) n) (count_up_one c)))
      | inr f ↦
          let few = missing-le c m in
          let longer : c + 1 - s ≡ suc (c - s) = omega arith in
          rw (m, f)
            (runs_from_lem n (c + 1) (some s) (omega arith) (omega arith, ground arith, omega arith)
              ∙ ap (λ k. count_up s k ++ ahead (c + 1) n) longer
              ∙ count_up-snoc (c - s) s c (ahead (c + 1) n) (omega arith))
    ]
    | inr m ↦
        let whole : c - 1 + 1 - s ≡ c - s = omega arith in
        rw (m, whole)
          (ap (λ xs. count_up s (c - s) ++ xs) (runs_from_lem n (c + 1) none (omega arith) tt))
  ]

  -- The round for `to + 1` finds nothing.
  ahead_lem :
      (n c : ℕ) → c + n ≡ to + 1 → ahead c (suc n) ≡ filter (λ x. not (have x)) (count_up c n)
  unfolding ahead count_up is_missing
  ahead_lem zero c e = ground arith
  ahead_lem (suc n) c e = ground (arith, ahead_lem n (c + 1) (omega arith))

-- A run that the sender accepts, within the chunks asked for.
pub record IsRun (from to : ℕ) (run : ℕ × ℕ) : Type 0 where
  pub after : from ≤ run.0
  pub forward : run.0 ≤ run.1
  pub before : run.1 ≤ to
  pub short : run.1 + 1 ≤ run.0 + max_range_chunks

IsAfter : ℕ → Option ℕ → Type 0
IsAfter from none = Unit
IsAfter from (some s) = from ≤ s

module _ (from to : ℕ) (have : ℕ → Bool) where
  runs_from-IsRun :
      (n c : ℕ) (start : Option ℕ)
      → from ≤ c
      → c + n ≡ to + 2
      → IsOpen to c start
      → IsAfter from start
      → All (IsRun from to) (runs_from to have n c start)
  unfolding runs_from opened_at ends_run push_run IsOpen IsAfter
  runs_from-IsRun zero c start f e going later = tt
  runs_from-IsRun (suc n) c none f e going later = elim (Bool-cases (is_missing to have c)) [
    | inl m ↦
        let same : (c - c == max_range_chunks) ≡ false = ground arith in
        let few = missing-le to have c m in
        rw (m, same)
          (runs_from-IsRun n (c + 1) (some c) (omega arith) (omega arith)
            (omega arith, omega arith, omega arith) f)
    | inr m ↦ rw m (runs_from-IsRun n (c + 1) none (omega arith) (omega arith) tt tt)
  ]
  runs_from-IsRun (suc n) c (some s) f e going later = elim (Bool-cases (is_missing to have c)) [
    | inl m ↦
        let few = missing-le to have c m in
        elim (Bool-cases (c - s == max_range_chunks)) [
          | inl g ↦
              rw (m, g)
                (
                  closed_run c s going later,
                  runs_from-IsRun n (c + 1) (some c) (omega arith) (omega arith)
                      (omega arith, omega arith, omega arith) f,
                )
          | inr g ↦
              rw (m, g)
                (runs_from-IsRun n (c + 1) (some s) (omega arith) (omega arith)
                  (omega arith, ground arith, omega arith) later)
        ]
    | inr m ↦ rw m (
      closed_run c s going later,
      runs_from-IsRun n (c + 1) none (omega arith) (omega arith) tt tt,
    )
  ]
    where
      closed_run :
          (c s : ℕ)
          → (s < c) × (c ≤ s + max_range_chunks) × (c ≤ to + 1)
          → from ≤ s
          → IsRun from to (s, c - 1)
      closed_run c s going later = record {
        after = later;
        forward = omega arith;
        before = omega arith;
        short = omega arith;
      }

-- The runs hold exactly the chunks from `from` to `to` that the receiver does not have, each once and
-- in order, and each run lies within them and is one that the sender accepts: not empty and of at
-- most 64 chunks.
pub missing_runs_lem :
    (from to : ℕ) (have : ℕ → Bool)
    → (chunks_of (missing_runs from to have)
        ≡ filter (λ c. not (have c)) (count_up from (to + 1 - from)))
      × All (IsRun from to) (missing_runs from to have)
unfolding missing_runs runs_from count_up chunks_of pending_of IsOpen IsAfter
missing_runs_lem from to have = elim (Bool-cases (leb from (to + 1))) [
  | inl h ↦
      let inside = leb→le from (to + 1) h in
      let n : ℕ = to + 1 - from in
      let size : to + 2 - from ≡ suc n = omega arith in
      rw size (
        runs_from_lem to have (suc n) from none (omega arith) tt
            ∙ ahead_lem to have n from (omega arith),
        runs_from-IsRun from to have (suc n) from none (omega arith) (omega arith) tt tt,
      )
  | inr h ↦
      let no_rounds : to + 2 - from ≡ 0 = ground arith in
      let no_chunks : to + 1 - from ≡ 0 = ground arith in rw (no_rounds, no_chunks) (refl, tt)
]
