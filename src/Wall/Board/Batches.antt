-- ===== src/Wall/Board/Batches.antt =====
-- `boardBatches` loses nothing, and each batch fits one message.
use mathlib.Core.List.{flatten, append_assoc}
use filenymous.Prelude.{
  ℕ, ◌+◌, ◌≤◌, ◌≡◌, ◌⊎◌, refl, ap, ◌∙◌, inl, inr, ◌||◌, List, [], ◌∷◌, ◌++◌, arith, ltb, leb,
  length, length-append, All, Bool-cases,
}
use filenymous.Wall.Board.{BoardElement, chars_of, batch_from, board_batches}

-- The characters of a batch, with one more for each element.
abbrev pub batch_size : List BoardElement → ℕ
batch_size [] = 0
batch_size (e ∷ es) = chars_of e + 1 + batch_size es

-- At least one element and at most 200; more than one only if they fit.
pub record Fits (max : ℕ) (batch : List BoardElement) : Type 0 where
  pub some_element : 1 ≤ length batch
  pub few : length batch ≤ 200
  pub small : (batch_size batch ≤ max) ⊎ (length batch ≡ 1)

batch_size-concat :
    (es : List BoardElement) (e : BoardElement)
    → batch_size (es ++ e ∷ []) ≡ batch_size es + (chars_of e + 1)
batch_size-concat [] e = omega arith
batch_size-concat (x ∷ es) e = omega (arith, batch_size-concat es e)

flatten-batch_from :
    (max : ℕ) (cur : List BoardElement) (size : ℕ) (els : List BoardElement)
    → flatten (batch_from max cur size els) ≡ cur ++ els
unfolding batch_from flatten
flatten-batch_from max [] size [] = refl
flatten-batch_from max (c ∷ cur) size [] = refl
flatten-batch_from max [] size (el ∷ els) = flatten-batch_from max (el ∷ []) _ els
flatten-batch_from max (c ∷ cur) size (el ∷ els) =
    elim (Bool-cases (ltb max (size + (chars_of el + 1)) || leb 200 (length (c ∷ cur)))) [
      | inl e ↦ rw e (ap (λ r. c ∷ cur ++ r) (flatten-batch_from max (el ∷ []) _ els))
      | inr e ↦ rw e (
          flatten-batch_from max ((c ∷ cur) ++ el ∷ []) _ els
          ∙ append_assoc (c ∷ cur) (el ∷ []) els)
    ]

batch_from-Fits :
    (max : ℕ) (cur : List BoardElement) (size : ℕ) (els : List BoardElement)
    → size ≡ batch_size cur
    → length cur ≤ 200
    → (size ≤ max) ⊎ (length cur ≤ 1)
    → All (Fits max) (batch_from max cur size els)
unfolding batch_from flatten
batch_from-Fits max [] size [] s f t = tt
batch_from-Fits max (c ∷ cur) size [] s f t =
    (record { some_element = omega arith; few = f; small = ground arith }, tt)
batch_from-Fits max [] size (el ∷ els) s f t =
    batch_from-Fits max (el ∷ []) _ els (omega arith) (omega arith) (inr (omega arith))
batch_from-Fits max (c ∷ cur) size (el ∷ els) s f t =
    elim (Bool-cases (ltb max (size + (chars_of el + 1)) || leb 200 (length (c ∷ cur)))) [
      | inl e ↦ rw e (
        record { some_element = omega arith; few = f; small = ground arith },
        batch_from-Fits max (el ∷ []) _ els (omega arith) (omega arith) (inr (omega arith)),
      )
      | inr e ↦ rw e (
          batch_from-Fits max ((c ∷ cur) ++ el ∷ []) _ els
            (omega (arith, batch_size-concat (c ∷ cur) el))
            (ground (arith, length-append (c ∷ cur) (el ∷ []))) (inl (ground arith)))
    ]

-- The batches hold the elements in their order, and no other. Each batch has 1 to 200 elements, and
-- its characters, one more for each element, stay within the limit unless it is a single element.
pub board_batches_lem :
    (els : List BoardElement) (max : ℕ)
    → (flatten (board_batches els max) ≡ els) × All (Fits max) (board_batches els max)
unfolding board_batches
board_batches_lem els max = (
  flatten-batch_from max [] 0 els,
  batch_from-Fits max [] 0 els refl (omega arith) (inr (omega arith)),
)
