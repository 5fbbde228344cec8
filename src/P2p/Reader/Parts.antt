-- ===== src/P2p/Reader/Parts.antt =====
-- What a read has when it begins: each of its chunks, or a place among those who wait for it.
use mathlib.Core.List.{Memᴰ}
use mathlib.Core.List.Memᴰ
use filenymous.Prelude.{
  ℕ, zero, suc, ◌+◌, ◌-◌, ◌≡◌, refl, sym, subst, ap, ◌∙◌, inl, inr, true, false, Bool-cases, Option,
  none, some, List, [], ◌∷◌, ◌++◌, ltb, ◌==◌, if◌then◌else◌, arith, length, get_elem?,
}
use filenymous.Prelude.Bytes.{Bytes}
use filenymous.Prelude.Json.{pos}
use filenymous.P2p.Chunks.{chunk_count}
use filenymous.P2p.Media.{p2p_chunk_size, chunks_for_range}
use filenymous.P2p.Reader.{
  Key, same_key, KeyMap, lookup, without, renew, add_waiter, Reader, tickets, waiting, ask, chunk,
  chunk_found, chunks_from, read_ahead, Reading, bad_file, no_bytes, reading, begin_chunks,
  begin_sized, begin_found, begin_read,
}
use filenymous.P2p.Reader.Waiting.{same_key_iff, lookup-without_other}

first_or : Option Bytes → Option Bytes → Option Bytes
first_or none o = o
first_or (some v) o = some v

lookup-append :
    (k j : Key) (v : Bytes) (m : KeyMap Bytes)
    → lookup k (m ++ ((j, v) ∷ [])) ≡ first_or (lookup k m) (if same_key j k then some v else none)
unfolding lookup first_or
lookup-append k j v [] = refl
lookup-append k j v ((i, w) ∷ m) = elim (Bool-cases (same_key i k)) [
  | inl e ↦ rw e refl
  | inr e ↦ rw e (lookup-append k j v m)
]

lookup-without_same :
    (j k : Key) (m : KeyMap Bytes) → same_key j k ≡ true → lookup k (without j m) ≡ none
unfolding lookup without
lookup-without_same j k [] h = refl
lookup-without_same j k ((i, v) ∷ m) h = elim (Bool-cases (same_key i j)) [
  | inl e ↦ rw e (lookup-without_same j k m h)
  | inr e ↦
      let other : same_key i k ≡ false =
        ground (arith, e, h, same_key_iff i j, same_key_iff i k, same_key_iff j k) in
      rw (e, other) (lookup-without_same j k m h)
]

-- To renew an entry that is there changes only its place.
lookup-renew :
    (j k : Key) (v : Bytes) (m : KeyMap Bytes)
    → lookup j m ≡ some v
    → lookup k (renew j v m) ≡ lookup k m
unfolding renew first_or
lookup-renew j k v m h = elim (Bool-cases (same_key j k)) [
  | inl e ↦
      lookup-append k j v (without j m)
      ∙ rw (lookup-without_same j k m e, e)
          (sym (ap (λ i. lookup i m) (sym ((same_key_iff j k).0 e)) ∙ h))
  | inr e ↦
      lookup-append k j v (without j m)
      ∙ rw (lookup-without_other j k m e, e) (or_none (lookup k m))
]
  where
    or_none : (o : Option Bytes) → first_or o none ≡ o
    or_none none = refl
    or_none (some w) = refl

-- Who waits goes on waiting when another comes, and the other waits as well.
add_waiter-keeps :
    (j k : Key) (s t : ℕ) (m : KeyMap (List ℕ))
    → Memᴰ t (waiting k m)
    → Memᴰ t (waiting k (add_waiter j s m))
unfolding waiting tickets lookup add_waiter
add_waiter-keeps j k s t [] w = absurd (Memᴰ.not-nil w)
add_waiter-keeps j k s t ((i, ts) ∷ m) w = elim (Bool-cases (same_key i j)) [
  | inl e ↦ elim (Bool-cases (same_key i k)) [
    | inl f ↦ rw (e, f) (Memᴰ.append_left (s ∷ []) (rw f at w))
    | inr f ↦ rw (e, f) (rw f at w)
  ]
  | inr e ↦ elim (Bool-cases (same_key i k)) [
    | inl f ↦ rw (e, f) (rw f at w)
    | inr f ↦ rw (e, f) (add_waiter-keeps j k s t m (rw f at w))
  ]
]

add_waiter-waits : (k : Key) (t : ℕ) (m : KeyMap (List ℕ)) → Memᴰ t (waiting k (add_waiter k t m))
unfolding waiting tickets lookup add_waiter
add_waiter-waits k t [] = rw ((same_key_iff k k).1 refl) (Memᴰ.head refl)
add_waiter-waits k t ((i, ts) ∷ m) = elim (Bool-cases (same_key i k)) [
  | inl e ↦ rw (e, e) (Memᴰ.append_right ts (Memᴰ.head refl))
  | inr e ↦ rw (e, e) (add_waiter-waits k t m)
]

-- A part of a read: the bytes that the cache had, or none, and then the read waits for them.
pub IsAnswer : KeyMap Bytes → KeyMap (List ℕ) → Key → ℕ → Option Bytes → Type 0
IsAnswer cache waiters k ticket (some b) = lookup k cache ≡ some b
IsAnswer cache waiters k ticket none = (lookup k cache ≡ none) × Memᴰ ticket (waiting k waiters)

-- The parts of a read of a file, from chunk c on.
pub Answers : KeyMap Bytes → KeyMap (List ℕ) → ℕ → ℕ → ℕ → List (Option Bytes) → Type 0
Answers cache waiters file ticket c [] = Unit
Answers cache waiters file ticket c (p ∷ parts) =
    IsAnswer cache waiters (file, c) ticket p × Answers cache waiters file ticket (c + 1) parts

-- More wait, and who waited still does.
pub Keeps : KeyMap (List ℕ) → KeyMap (List ℕ) → Type 0
Keeps before after = (k : Key) (t : ℕ) → Memᴰ t (waiting k before) → Memᴰ t (waiting k after)

module _ (r : Reader) (k : Key) (ticket : ℕ) where
  chunk_found-Keeps : (o : Option Bytes) → Keeps r.waiters (chunk_found r k ticket o).0.waiters
  unfolding chunk_found Keeps
  chunk_found-Keeps none j t w = add_waiter-keeps k j ticket t r.waiters w
  chunk_found-Keeps (some hit) j t w = w

  chunk_found-cache :
      (o : Option Bytes) (j : Key)
      → lookup k r.cache ≡ o
      → lookup j (chunk_found r k ticket o).0.cache ≡ lookup j r.cache
  unfolding chunk_found
  chunk_found-cache none j e = refl
  chunk_found-cache (some hit) j e = lookup-renew k j hit r.cache e

  chunk_found-IsAnswer :
      (o : Option Bytes)
      → lookup k r.cache ≡ o
      → IsAnswer r.cache (chunk_found r k ticket o).0.waiters k ticket (chunk_found r k ticket o).1
  unfolding chunk_found IsAnswer
  chunk_found-IsAnswer none e = (e, add_waiter-waits k ticket r.waiters)
  chunk_found-IsAnswer (some hit) e = e

IsAnswer-Keeps :
    (cache cache' : KeyMap Bytes) (waiters waiters' : KeyMap (List ℕ)) (k : Key) (ticket : ℕ)
    (p : Option Bytes)
    → lookup k cache' ≡ lookup k cache
    → Keeps waiters waiters'
    → IsAnswer cache' waiters k ticket p
    → IsAnswer cache waiters' k ticket p
unfolding IsAnswer Keeps
IsAnswer-Keeps cache cache' waiters waiters' k ticket none e keeps h =
    (sym e ∙ h.0, keeps k ticket h.1)
IsAnswer-Keeps cache cache' waiters waiters' k ticket (some b) e keeps h = sym e ∙ h

Answers-cache :
    (cache cache' : KeyMap Bytes) (waiters : KeyMap (List ℕ)) (file ticket c : ℕ)
    (parts : List (Option Bytes))
    → ((k : Key) → lookup k cache' ≡ lookup k cache)
    → Answers cache' waiters file ticket c parts
    → Answers cache waiters file ticket c parts
unfolding Answers Keeps
Answers-cache cache cache' waiters file ticket c [] e h = tt
Answers-cache cache cache' waiters file ticket c (p ∷ parts) e (q, h) = (
  IsAnswer-Keeps cache cache' waiters waiters (file, c) ticket p (e (file, c)) (λ k t w. w) q,
  Answers-cache cache cache' waiters file ticket (c + 1) parts e h,
)

chunks_from-Answers :
    (n : ℕ) (r : Reader) (file ticket c : ℕ)
    → Answers r.cache
        (chunks_from r file ticket c n).0.waiters
        file
        ticket
        c
        (chunks_from r file ticket c n).1
      × (length (chunks_from r file ticket c n).1 ≡ n)
      × Keeps r.waiters (chunks_from r file ticket c n).0.waiters
unfolding chunks_from chunk Answers Keeps
chunks_from-Answers zero r file ticket c = (tt, refl, λ k t w. w)
chunks_from-Answers (suc n) r file ticket c =
    let o = lookup (file, c) r.cache in
    let next = (chunk_found r (file, c) ticket o).0 in
    let ih = chunks_from-Answers n next file ticket (c + 1) in
    (
      (
        IsAnswer-Keeps r.cache r.cache next.waiters
            (chunks_from next file ticket (c + 1) n).0.waiters (file, c) ticket
            (chunk_found r (file, c) ticket o).1 refl ih.2
            (chunk_found-IsAnswer r (file, c) ticket o refl),
        Answers-cache r.cache next.cache (chunks_from next file ticket (c + 1) n).0.waiters file
            ticket (c + 1) (chunks_from next file ticket (c + 1) n).1
            (λ k. chunk_found-cache r (file, c) ticket o k refl) ih.0,
      ),
      ap suc ih.1,
      λ k t w. ih.2 k t (chunk_found-Keeps r (file, c) ticket o k t w),
    )

-- Asking for chunks changes neither the cache nor who waits.
read_ahead-same :
    (r : Reader) (file to last_chunk : ℕ)
    → ((read_ahead r file to last_chunk).0.cache ≡ r.cache)
      × ((read_ahead r file to last_chunk).0.waiters ≡ r.waiters)
unfolding read_ahead ask
read_ahead-same r file to last_chunk = elim (Bool-cases (ltb to last_chunk)) [
  | inl e ↦ rw e (refl, refl)
  | inr e ↦ rw e (refl, refl)
]

-- The parts of a read of the chunks of a range, answered from the cache before it, and who waited.
pub IsAnswered : Reader → ℕ → ℕ → ℕ × ℕ → Reading → Type 0
IsAnswered r file ticket range n =
    Answers r.cache n.reader.waiters file ticket range.0 n.parts
    × (length n.parts ≡ range.1 + 1 - range.0)
    × Keeps r.waiters n.reader.waiters

begin_chunks-IsAnswered :
    (r : Reader) (file ticket : ℕ) (range : ℕ × ℕ) (last_chunk : ℕ)
    → IsAnswered r file ticket range (begin_chunks r file ticket range last_chunk)
unfolding begin_chunks IsAnswered ask
begin_chunks-IsAnswered r file ticket (from, to) last_chunk =
    let asked = (ask r file from to false).0 in
    let ahead = (read_ahead asked file to last_chunk).0 in
    let same = read_ahead-same asked file to last_chunk in
    let got = chunks_from-Answers (to + 1 - from) ahead file ticket from in
    let after = (chunks_from ahead file ticket from (to + 1 - from)).0.waiters in
    (
      subst
          (λ m.
            Answers m after file ticket from (chunks_from ahead file ticket from (to + 1 - from)).1)
          same.0 got.0,
      got.1,
      subst (λ m. Keeps m after) same.1 got.2,
    )

-- When a read of a file begins, it has a part for each chunk of its range: the bytes that the cache
-- held, or where it held none, a place among those who wait for that chunk, under the number of the
-- read; and who waited for any chunk before still does.
pub begin_read-IsAnswered :
    (sizes : List ℕ) (r : Reader) (file ticket start end size : ℕ) {n : Reading}
    → get_elem? sizes file ≡ some size
    → begin_read sizes r file ticket start end ≡ reading n
    → IsAnswered r file ticket (chunks_for_range (pos start) (pos end) size) n
unfolding begin_read begin_found begin_sized
begin_read-IsAnswered sizes r file ticket start end size {n} here e =
    let range = chunks_for_range (pos start) (pos end) size in
    let last_chunk : ℕ = chunk_count size p2p_chunk_size - 1 in
    let sized = rw here at e in
    elim (Bool-cases (size == 0)) [
      | inl z ↦ ground (arith, rw z at sized)
      | inr z ↦
          subst (IsAnswered r file ticket range) (reading-injective (rw z at sized))
            (begin_chunks-IsAnswered r file ticket range last_chunk)
    ]
  where
    reading-injective : {a b : Reading} → reading a ≡ reading b → a ≡ b
    reading-injective {a} h =
        ap (λ x. elim x as (λ _. Reading) [ bad_file ↦ a | no_bytes ↦ a | reading c ↦ c ]) h
