-- ===== src/P2p/Expiry.antt =====
-- ui/src/p2p/expiry.ts: when a share expires, and what is left of its time. Times are in milliseconds;
-- what `Date.parse` makes of a date is an argument, with none for NaN and for a time before 1970.
pub mod Parts
mod Tests
use filenymous.Prelude.{
  ℕ, ◌+◌, ◌-◌, ◌*◌, ◌/◌, ◌%◌, Bool, true, false, ◌||◌, Option, none, some, List, [], ◌∷◌, ◌++◌, leb,
  ltb, if◌then◌else◌, Text, codes,
}
use filenymous.Wall.Store.{digits}

pub data ExpiryChoice : Type 0 where
  no_expiry one_hour one_day seven_days custom : ExpiryChoice

abbrev pub max_expiry_ms : ℕ
max_expiry_ms = 30 * 86400000

-- `Date.parse(custom)` or `now + PRESET_MS[choice]`
pub chosen_time : ExpiryChoice → Option ℕ → ℕ → Option ℕ
chosen_time no_expiry parsed now = none
chosen_time one_hour parsed now = some (now + 3600000)
chosen_time one_day parsed now = some (now + 86400000)
chosen_time seven_days parsed now = some (now + 7 * 86400000)
chosen_time custom parsed now = parsed

pub allowed_time : ℕ → Option ℕ → Option ℕ
allowed_time now none = none
allowed_time now (some at) =
    if leb at (now + 30000) || ltb (now + max_expiry_ms) at then none else some (at / 1000)

pub expiry_from_choice : ExpiryChoice → Option ℕ → ℕ → Option ℕ
expiry_from_choice choice parsed now = allowed_time now (chosen_time choice parsed now)

pub record Remaining : Type 0 where
  pub d : ℕ
  pub h : ℕ
  pub m : ℕ
  pub s : ℕ

-- `remainingParts`, of a time that is not over.
pub remaining_parts : ℕ → Remaining
remaining_parts ms =
    let t : ℕ = ms / 1000 in
    record { d = t / 86400; h = t % 86400 / 3600; m = t % 3600 / 60; s = t % 60 }

-- `String(n)`
pub shown : ℕ → Text
shown n = digits (n + 1) n

-- `String(n).padStart(2, "0")`
pub pad : ℕ → Text
pad n = if ltb n 10 then b'0' ∷ shown n else shown n

pub format_parts : Remaining → Text → Text
format_parts r day =
    if ltb 0 r.d
    then shown r.d ++ (codes " " ++ (day ++ (codes " " ++ (shown r.h ++ codes " h"))))
    else if ltb 0 r.h
    then shown r.h ++ (codes " h " ++ (pad r.m ++ codes " min"))
    else if ltb 0 r.m
    then shown r.m ++ (codes " min " ++ (pad r.s ++ codes " s"))
    else shown r.s ++ codes " s"

-- `formatRemaining`, in French or in English.
pub format_remaining : ℕ → Bool → Text
format_remaining ms french =
    format_parts (remaining_parts ms) (if french then codes "j" else codes "d")
