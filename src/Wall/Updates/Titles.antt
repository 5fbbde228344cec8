-- ===== src/Wall/Updates/Titles.antt =====
-- The title of a wall that a peer is shown.
use filenymous.Prelude.{
  ℕ, suc, zero, ◌+◌, ◌≤◌, ◌≡◌, refl, false, ◌&&◌, Bool-cases, inl, inr, Option, none, some, [], ◌∷◌,
  arith, Text, length, blank, collapse_spaces, All-collapse_spaces, trim, All-trim, length-trim-le,
  All,
}
use filenymous.Prelude.Json.{Json, is_high, is_low}
use filenymous.Prelude.Items.{text_of, fits}
use filenymous.Wall.Updates.{
  wall_title_max, is_unseen, take_characters, sanitize_wall_title, short_title, title_of,
}

-- Neither a control character, nor one that takes no room or turns the direction of writing.
abbrev pub IsSeen : ℕ → Type 0
IsSeen c = is_unseen c ≡ false

-- Eighty characters, each of one or two code units.
abbrev pub IsWallTitle : Text → Type 0
IsWallTitle s = All IsSeen s × (length s ≤ 160)

IsSeen-space : IsSeen 32
unfolding is_unseen
IsSeen-space = refl

blank-All : (s : Text) → All IsSeen (blank is_unseen s)
unfolding blank
blank-All [] = tt
blank-All (c ∷ s) = elim (Bool-cases (is_unseen c)) [
  | inl e ↦ rw e (IsSeen-space, blank-All s)
  | inr e ↦ rw e (e, blank-All s)
]

take_characters-All : (n : ℕ) (s : Text) → All IsSeen s → All IsSeen (take_characters n s)
unfolding take_characters
take_characters-All zero s h = tt
take_characters-All (suc n) [] h = tt
take_characters-All (suc n) (c ∷ []) h = h
take_characters-All (suc n) (c ∷ d ∷ s) (p, (q, h)) = elim (Bool-cases (is_high c && is_low d)) [
  | inl e ↦ rw e (p, (q, take_characters-All n s h))
  | inr e ↦ rw e (p, take_characters-All n (d ∷ s) (q, h))
]

length-take_characters-le : (n : ℕ) (s : Text) → length (take_characters n s) ≤ n + n
unfolding take_characters
length-take_characters-le zero s = omega arith
length-take_characters-le (suc n) [] = omega arith
length-take_characters-le (suc n) (c ∷ []) = omega arith
length-take_characters-le (suc n) (c ∷ d ∷ s) = elim (Bool-cases (is_high c && is_low d)) [
  | inl e ↦ rw e (omega (arith, length-take_characters-le n s))
  | inr e ↦ rw e (omega (arith, length-take_characters-le n (d ∷ s)))
]

pub sanitize_wall_title-IsWallTitle : (s : Text) → IsWallTitle (sanitize_wall_title s)
unfolding sanitize_wall_title
sanitize_wall_title-IsWallTitle s =
    let spaced = collapse_spaces (blank is_unseen s) in
    let cut = take_characters wall_title_max (trim spaced) in
    (
      All-trim IsSeen cut (
          take_characters-All wall_title_max (trim spaced) (
            All-trim IsSeen spaced
              (All-collapse_spaces IsSeen (blank is_unseen s) IsSeen-space (blank-All s)))),
      omega (arith, length-trim-le cut, length-take_characters-le wall_title_max (trim spaced)),
    )

short_title-IsWallTitle : (o : Option Text) → IsWallTitle (short_title o)
unfolding short_title
short_title-IsWallTitle none = (tt, omega arith)
short_title-IsWallTitle (some s) = sanitize_wall_title-IsWallTitle s

pub title_of-IsWallTitle : (v : Json) → IsWallTitle (title_of v)
unfolding title_of
title_of-IsWallTitle v = short_title-IsWallTitle (text_of (fits 1024) v)
