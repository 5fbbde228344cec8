-- ===== src/P2p/Media/Ranges.antt =====
-- The chunks hold the bytes asked for, and no chunk more.
use filenymous.Prelude.{ℕ, ◌+◌, ◌-◌, ◌*◌, ◌≤◌, ◌<◌, ◌≡◌, refl, min, arith}
use filenymous.Prelude.Json.{pos}
use filenymous.Prelude.{
  Bool-cases, inl, inr, Option, none, some, [], ◌∷◌, ◌||◌, zero, suc, leb, ltb, Text, codes,
}
use filenymous.Prelude.Options.{Each, Each-bind}
use filenymous.Wall.Collab.{after_prefix}
use filenymous.P2p.Media.{
  ByteRange, in_file, range_of, number_from, end_digits, split_digits, matched_range, parse_range,
  p2p_chunk_size, larger, chunks_for_range,
}

-- For a range of bytes within a file, the first chunk is the one that holds the first byte and the
-- last chunk the one that holds the last byte, and the first does not come after the last.
pub chunks_for_range_lem :
    (start end size : ℕ)
    → start ≤ end
    → end < size
    → ((chunks_for_range (pos start) (pos end) size).0 * p2p_chunk_size ≤ start)
      × (start < ((chunks_for_range (pos start) (pos end) size).0 + 1) * p2p_chunk_size)
      × ((chunks_for_range (pos start) (pos end) size).1 * p2p_chunk_size ≤ end)
      × (end < ((chunks_for_range (pos start) (pos end) size).1 + 1) * p2p_chunk_size)
      × ((chunks_for_range (pos start) (pos end) size).0
          ≤ (chunks_for_range (pos start) (pos end) size).1)
unfolding chunks_for_range
chunks_for_range_lem start end size h k =
    let inside : min start (size - 1) ≡ start = omega arith in
    let longer : larger start end ≡ end = unfold larger in ground arith in
    let ends : min end (size - 1) ≡ end = omega arith in
    rw (inside, longer, ends) (omega arith, omega arith, omega arith, omega arith, omega arith)

-- A range that starts and ends in a file of this size.
pub IsWithin : ℕ → ByteRange → Type 0
IsWithin size r = (n : ℕ) × ((r.end ≡ pos n) × (r.start ≤ n) × (n < size))

in_file-IsWithin : (size start end : ℕ) → end < size → Each (IsWithin size) (in_file size start end)
unfolding in_file IsWithin
in_file-IsWithin size start end h = elim (Bool-cases (ltb end start || leb size start)) [
  | inl e ↦ rw e tt
  | inr e ↦ rw e (end, (refl, ground (arith, e), h))
]

range_of-IsWithin : (size : ℕ) (first last : Text) → Each (IsWithin size) (range_of size first last)
unfolding range_of
range_of-IsWithin zero first last = tt
range_of-IsWithin (suc n) [] [] = tt
range_of-IsWithin (suc n) [] (c ∷ last) =
    in_file-IsWithin (suc n) (suc n - number_from 0 (c ∷ last)) n (omega arith)
range_of-IsWithin (suc n) (c ∷ first) [] =
    in_file-IsWithin (suc n) (number_from 0 (c ∷ first)) n (omega arith)
range_of-IsWithin (suc n) (c ∷ first) (d ∷ last) =
    in_file-IsWithin (suc n) (number_from 0 (c ∷ first)) (min (number_from 0 (d ∷ last)) n)
      (omega arith)

matched_range-IsWithin : (size : ℕ) (o : Option Text) → Each (IsWithin size) (matched_range size o)
unfolding matched_range
matched_range-IsWithin size none = tt
matched_range-IsWithin size (some s) =
    Each-bind (IsWithin size) (end_digits (split_digits s).1)
      (λ last. range_of size (split_digits s).0 last)
      (λ last e. range_of-IsWithin size (split_digits s).0 last)

-- A range that a header asks for, whatever the header and the size, lies in the file.
pub parse_range-IsWithin :
    (c : ℕ) (header : Text) (size : ℕ) → Each (IsWithin size) (parse_range (some (c ∷ header)) size)
unfolding parse_range
parse_range-IsWithin c header size =
    matched_range-IsWithin size (after_prefix (codes "bytes=") (c ∷ header))
