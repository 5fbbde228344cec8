-- ===== src/P2p/Reader/Assembly.antt =====
-- A read returns the bytes of the file.
use filenymous.Prelude.{
  ℕ, zero, suc, ◌+◌, ◌-◌, ◌*◌, ◌≤◌, ◌<◌, ◌≡◌, refl, sym, ap, ◌∙◌, min, Bool-cases, inl, inr, leb,
  leb→le, false, some, List, [], ◌∷◌, ◌++◌, ltb, arith, length, take, drop, length-take,
  length-drop,
}
use filenymous.Prelude.Bytes.{Bytes}
use filenymous.Prelude.Json.{pos}
use filenymous.P2p.Media.{p2p_chunk_size, chunks_for_range, max_zero, larger}
use filenymous.P2p.Reader.{zeros, assemble, end_read}

take-nil : (n : ℕ) → take {A = ℕ} n [] ≡ []
take-nil zero = refl
take-nil (suc n) = refl

drop-nil : (n : ℕ) → drop {A = ℕ} n [] ≡ []
drop-nil zero = refl
drop-nil (suc n) = refl

-- The sizes are variables with an equation, so that each clause computes.
take-take : (m n k : ℕ) (xs : Bytes) → k ≡ min m n → take m (take n xs) ≡ take k xs
take-take zero n zero xs e = refl
take-take zero n (suc k) xs e = ground (arith, e)
take-take (suc m) zero zero xs e = refl
take-take (suc m) zero (suc k) xs e = ground (arith, e)
take-take (suc m) (suc n) zero xs e = ground (arith, e)
take-take (suc m) (suc n) (suc k) [] e = refl
take-take (suc m) (suc n) (suc k) (x ∷ xs) e =
    ap (λ t. x ∷ t) (take-take m n k xs (omega (arith, e)))

drop-take : (m n k : ℕ) (xs : Bytes) → n ≡ m + k → drop m (take n xs) ≡ take k (drop m xs)
drop-take zero n k xs e = ap (λ (i : ℕ). take i xs) (omega (arith, e))
drop-take (suc m) zero k xs e = ground (arith, e)
drop-take (suc m) (suc n) k [] e = sym (take-nil k)
drop-take (suc m) (suc n) k (x ∷ xs) e = drop-take m n k xs (omega (arith, e))

drop-drop : (m n k : ℕ) (xs : Bytes) → k ≡ n + m → drop m (drop n xs) ≡ drop k xs
drop-drop m zero k xs e = ap (λ (i : ℕ). drop i xs) (omega (arith, e))
drop-drop m (suc n) k [] e = drop-nil m ∙ sym (drop-nil k)
drop-drop m (suc n) zero (x ∷ xs) e = ground (arith, e)
drop-drop m (suc n) (suc k) (x ∷ xs) e = drop-drop m n k xs (omega (arith, e))

take-append-drop :
    (m n k : ℕ) (xs : Bytes) → k ≡ m + n → take m xs ++ take n (drop m xs) ≡ take k xs
take-append-drop zero n k xs e = ap (λ (i : ℕ). take i xs) (omega (arith, e))
take-append-drop (suc m) n zero xs e = ground (arith, e)
take-append-drop (suc m) n (suc k) [] e = take-nil n
take-append-drop (suc m) n (suc k) (x ∷ xs) e =
    ap (λ t. x ∷ t) (take-append-drop m n k xs (omega (arith, e)))

-- The n chunks of a file from the one that starts there.
module _ (data_bytes : Bytes) (size : ℕ) where
  pub chunks_at : ℕ → ℕ → List Bytes
  chunks_at start zero = []
  chunks_at start (suc n) = take size (drop start data_bytes) ∷ chunks_at (start + size) n

  -- What is left to fill lies in the chunks that are left, and in the file.
  assemble-chunks_at :
      (n start offset room : ℕ)
      → offset ≤ size
      → room ≤ n * size - offset
      → room ≤ length data_bytes - (start + offset)
      → assemble offset room (chunks_at start n) ≡ take room (drop (start + offset) data_bytes)
  unfolding assemble chunks_at zeros
  assemble-chunks_at zero start offset zero p q r = refl
  assemble-chunks_at zero start offset (suc room) p q r = ground (arith, q)
  assemble-chunks_at (suc n) start offset room p q r =
      let a : ℕ = min room (size - offset) in
      let from : ℕ = start + offset in
      let piece : take room (drop offset (take size (drop start data_bytes)))
          ≡ take a (drop from data_bytes) =
        ap (take room) (
          drop-take offset size (size - offset) (drop start data_bytes) (omega (arith, p))
          ∙ ap (take (size - offset)) (drop-drop offset start from data_bytes refl))
        ∙ take-take room (size - offset) a (drop from data_bytes) refl in
      let long : length (take a (drop from data_bytes)) ≡ a =
        omega (arith, length-take a (drop from data_bytes), length-drop from data_bytes, r) in
      let next : start + size ≡ start + size + 0 = omega arith in
      let grown : suc n * size ≡ size + n * size = omega arith in
      let rest =
        assemble-chunks_at n (start + size) 0 (room - a) (omega arith) (omega (arith, q, grown))
          (omega (arith, r)) in
      let there : take (room - a) (drop (start + size + 0) data_bytes)
          ≡ take (room - a) (drop a (drop from data_bytes)) =
        elim (Bool-cases (leb room (size - offset))) [
          | inl e ↦
              let none_left : room - a ≡ 0 = omega (arith, leb→le room (size - offset) e) in
              rw none_left refl
          | inr e ↦
              let whole : start + size + 0 ≡ from + a = ground (arith, e, p) in
              ap (take (room - a)) (sym (drop-drop a from (start + size + 0) data_bytes whole))
        ] in
      ap (λ t. t ++ assemble 0 (room - length t) (chunks_at (start + size) n)) piece
      ∙ ap
          (λ (l : ℕ).
            take a (drop from data_bytes) ++ assemble 0 (room - l) (chunks_at (start + size) n))
          long
      ∙ ap (λ t. take a (drop from data_bytes) ++ t) (rest ∙ there)
      ∙ take-append-drop a (room - a) room (drop from data_bytes) (omega arith)

-- The range of chunks covers the range of bytes, and starts in its first chunk.
covers :
    (start end size : ℕ)
    → start ≤ end
    → start < size
    → ((chunks_for_range (pos start) (pos end) size).0 * p2p_chunk_size ≤ start)
      × (start < ((chunks_for_range (pos start) (pos end) size).0 + 1) * p2p_chunk_size)
      × (min end (size - 1)
          < ((chunks_for_range (pos start) (pos end) size).1 + 1) * p2p_chunk_size)
      × ((chunks_for_range (pos start) (pos end) size).0
          ≤ (chunks_for_range (pos start) (pos end) size).1)
unfolding chunks_for_range max_zero
covers start end size h k =
    let inside : min start (size - 1) ≡ start = omega arith in
    let longer : larger start end ≡ end = unfold larger in ground arith in
    rw (inside, longer) (omega arith, omega arith, omega arith, omega arith)

-- The chunks of a range, as the sender cuts the file.
pub range_chunks : Bytes → ℕ × ℕ → List Bytes
range_chunks data_bytes (from, to) =
    chunks_at data_bytes p2p_chunk_size (from * p2p_chunk_size) (to + 1 - from)

-- From the chunks of its range, a read of a file puts together exactly the bytes `start` to `end` of
-- the file, or to its last one, when the range starts in the file and
-- does not end before it starts.
pub end_read_lem :
    (data_bytes : Bytes) (start end : ℕ)
    → start ≤ end
    → start < length data_bytes
    → end_read
        (length data_bytes)
        start
        end
        (range_chunks data_bytes (chunks_for_range (pos start) (pos end) (length data_bytes)))
      ≡ some (take (min end (length data_bytes - 1) + 1 - start) (drop start data_bytes))
unfolding end_read range_chunks
end_read_lem data_bytes start end h k =
    let size : ℕ = length data_bytes in
    let from : ℕ = (chunks_for_range (pos start) (pos end) size).0 in
    let to : ℕ = (chunks_for_range (pos start) (pos end) size).1 in
    let c = covers start end size h k in
    let stop : ℕ = min end (size - 1) + 1 in
    let offset : ℕ = start - from * p2p_chunk_size in
    let legal : ltb stop start ≡ false = ground arith in
    let filled =
      assemble-chunks_at data_bytes p2p_chunk_size (to + 1 - from) (from * p2p_chunk_size) offset
        (stop - start) (omega (arith, c)) (omega (arith, c)) (omega (arith, c)) in
    let place : from * p2p_chunk_size + offset ≡ start = omega (arith, c) in
    rw legal (ap some (filled ∙ ap (λ (i : ℕ). take (stop - start) (drop i data_bytes)) place))
