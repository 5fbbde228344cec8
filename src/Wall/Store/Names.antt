-- ===== src/Wall/Store/Names.antt =====
-- The names under which files are offered for saving.
use filenymous.Prelude.{
  ℕ, ◌≤◌, ◌≡◌, refl, inl, inr, false, [], ◌∷◌, arith, ◌==◌, Text, codes, length, take, trim, strip,
  All, All-take, All-trim, strip-All, length-take-le, Bool-cases,
}
use filenymous.Wall.Store.{
  is_control, is_reserved, without_reserved, drop_dots, or_text, safe_file_name,
}

-- Neither a control character nor one that a path or a shell reads.
pub IsPlain : ℕ → Type 0
IsPlain c = (is_control c ≡ false) × (is_reserved c ≡ false)

without_reserved-IsPlain :
    (s : Text) → All (λ c. is_control c ≡ false) s → All IsPlain (without_reserved s)
unfolding without_reserved IsPlain is_control
without_reserved-IsPlain [] h = tt
without_reserved-IsPlain (c ∷ s) h = elim (Bool-cases (is_reserved c)) [
  | inl e ↦ rw e ((refl, unfold is_reserved in refl), without_reserved-IsPlain s h.1)
  | inr e ↦ rw e ((h.0, e), without_reserved-IsPlain s h.1)
]

drop_dots-IsPlain : (s : Text) → All IsPlain s → All IsPlain (drop_dots s)
unfolding drop_dots
drop_dots-IsPlain [] h = tt
drop_dots-IsPlain (c ∷ s) h = elim (Bool-cases (c == b'.')) [
  | inl e ↦ rw e (drop_dots-IsPlain s h.1)
  | inr e ↦ rw e h
]

or_file :
    (s : Text)
    → All IsPlain s
    → length s ≤ 200
    → All IsPlain (or_text s (codes "file"))
      × (1 ≤ length (or_text s (codes "file")))
      × (length (or_text s (codes "file")) ≤ 200)
unfolding or_text IsPlain is_control is_reserved
or_file [] h l =
    (((refl, refl), ((refl, refl), ((refl, refl), ((refl, refl), tt)))), omega arith, omega arith)
or_file (c ∷ s) h l = (h, omega arith, l)

pub safe_file_name-IsPlain :
    (name : Text)
    → All IsPlain (safe_file_name name)
      × (1 ≤ length (safe_file_name name))
      × (length (safe_file_name name) ≤ 200)
unfolding safe_file_name
safe_file_name-IsPlain name =
    let cleaned = trim (drop_dots (without_reserved (strip is_control name))) in
    or_file (take 200 cleaned)
      (All-take IsPlain 200 cleaned (
        All-trim IsPlain (drop_dots (without_reserved (strip is_control name))) (
          drop_dots-IsPlain (without_reserved (strip is_control name))
            (without_reserved-IsPlain (strip is_control name) (strip-All is_control name)))))
      (length-take-le 200 cleaned)
