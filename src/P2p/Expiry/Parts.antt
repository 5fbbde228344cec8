-- ===== src/P2p/Expiry/Parts.antt =====
-- What is shown of a time, and which times a share can expire at.
use filenymous.Prelude.{
  ℕ, ◌+◌, ◌*◌, ◌/◌, ◌≤◌, ◌<◌, ◌≡◌, Bool-cases, inl, inr, ◌||◌, Option, none, some, leb, ltb, arith,
}
use filenymous.Prelude.Options.{Each}
use filenymous.P2p.Expiry.{
  ExpiryChoice, max_expiry_ms, chosen_time, allowed_time, expiry_from_choice, remaining_parts,
}

-- The parts are the whole time in seconds, each below the next unit.
pub remaining_parts_lem :
    (ms : ℕ)
    → (((remaining_parts ms).d * 24 + (remaining_parts ms).h) * 3600
          + ((remaining_parts ms).m * 60 + (remaining_parts ms).s)
        ≡ ms / 1000)
      × ((remaining_parts ms).h < 24)
      × ((remaining_parts ms).m < 60)
      × ((remaining_parts ms).s < 60)
unfolding remaining_parts
remaining_parts_lem ms = (omega arith, omega arith, omega arith, omega arith)

allowed_time-le :
    (now : ℕ) (o : Option ℕ)
    → Each (λ t. (now + 29002 ≤ t * 1000) × (t * 1000 ≤ now + max_expiry_ms)) (allowed_time now o)
unfolding allowed_time
allowed_time-le now none = tt
allowed_time-le now (some at) =
    elim (Bool-cases (leb at (now + 30000) || ltb (now + max_expiry_ms) at)) [
      | inl e ↦ rw e tt
      | inr e ↦ rw e (ground (arith, e), ground (arith, e))
    ]

-- An expiry that is given, whatever was chosen, lies ahead by more than 29 seconds and by 30 days at
-- most.
pub expiry_from_choice-le :
    (choice : ExpiryChoice) (parsed : Option ℕ) (now : ℕ)
    → Each
        (λ t. (now + 29002 ≤ t * 1000) × (t * 1000 ≤ now + max_expiry_ms))
        (expiry_from_choice choice parsed now)
unfolding expiry_from_choice
expiry_from_choice-le choice parsed now = allowed_time-le now (chosen_time choice parsed now)
