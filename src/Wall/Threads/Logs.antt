-- ===== src/Wall/Threads/Logs.antt =====
-- The messages that a thread keeps are numbered without a gap up to its count.
use filenymous.Prelude.{
  ℕ, zero, suc, ◌+◌, ◌-◌, ◌≤◌, ◌≡◌, inl, inr, true, List, [], ◌∷◌, ◌++◌, arith, ltb, min, Text,
  length, drop, length-append, length-drop, All, All-append, All-drop, Bool-cases, subst, ltb→lt,
}
use filenymous.Wall.Threads.{Thread, ThreadMsg, involves, trimmed, new_msg, thread_keep}

-- The messages are number k + 1, k + 2, … in this order.
abbrev pub Runs : ℕ → List ThreadMsg → Type 0
Runs k [] = Unit
Runs k (m ∷ ms) = (m.n ≡ k + 1) × Runs (k + 1) ms

-- What a thread's list of messages holds.
pub record IsLog (t : Thread) (ms : List ThreadMsg) : Type 0 where
  pub kept : length ms ≡ min t.n thread_keep
  pub numbered : Runs (t.n - length ms) ms
  pub inside : All (λ m. involves t m.by ≡ true) ms

Runs-append :
    (k : ℕ) (ms : List ThreadMsg) (m : ThreadMsg)
    → Runs k ms
    → m.n ≡ k + length ms + 1
    → Runs k (ms ++ m ∷ [])
Runs-append k [] m h e = (omega arith, tt)
Runs-append k (x ∷ ms) m h e = (h.0, Runs-append (k + 1) ms m h.1 (omega arith))

Runs-drop : (d k : ℕ) (ms : List ThreadMsg) → d ≤ length ms → Runs k ms → Runs (k + d) (drop d ms)
Runs-drop zero k ms f h = let e : k ≡ k + 0 = omega arith in subst (λ i. Runs i ms) e h
Runs-drop (suc d) k [] f h = tt
Runs-drop (suc d) k (x ∷ ms) f h =
    let e : k + 1 + d ≡ k + suc d = omega arith in
    subst (λ i. Runs i (drop d ms)) e (Runs-drop d (k + 1) ms (omega arith) h.1)

pub IsLog-say :
    (t : Thread) (ms : List ThreadMsg) (by : Text) (now : ℕ) (text : Text)
    → involves t by ≡ true
    → IsLog t ms
    → IsLog (record t { n = t.n + 1 }) (trimmed (ms ++ new_msg t by now text ∷ []))
unfolding trimmed new_msg involves
IsLog-say t ms by now text member h =
    let msg : ThreadMsg = new_msg t by now text in
    let kept = h.kept in
    let grown = length-append ms (msg ∷ []) in
    let full = Runs-append (t.n - length ms) ms msg h.numbered (omega arith) in
    let own = All-append (λ m. involves t m.by ≡ true) ms (msg ∷ []) h.inside (member, tt) in
    elim (Bool-cases (ltb thread_keep (length (ms ++ msg ∷ [])))) [
      | inl e ↦
          let xs = ms ++ msg ∷ [] in
          let d : ℕ = length xs - thread_keep in
          let l : length (drop d xs) ≡ length xs - d = length-drop d xs in
          let big : thread_keep + 1 ≤ length xs = ltb→lt thread_keep (length xs) e in
          let k : t.n - length ms + d ≡ t.n + 1 - length (drop d xs) = omega arith in
          rw e record {
            kept = omega arith;
            numbered =
                subst (λ i. Runs i (drop d xs)) k
                  (Runs-drop d (t.n - length ms) xs (omega arith) full);
            inside = All-drop (λ m. involves t m.by ≡ true) d xs own;
          }
      | inr e ↦
          let xs = ms ++ msg ∷ [] in
          let k : t.n - length ms ≡ t.n + 1 - length xs = ground arith in
          rw e
            record { kept = ground arith; numbered = subst (λ i. Runs i xs) k full; inside = own }
    ]
