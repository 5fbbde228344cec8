-- ===== src/P2p/Reader/Waiting.antt =====
-- A read never waits for a chunk that nobody was asked for.
use filenymous.Prelude.{
  if◌then◌else◌, subst, ℕ, zero, suc, ◌+◌, ◌-◌, ◌≤◌, ◌<◌, ◌≡◌, ◌↔◌, refl, sym, ap, ◌∙◌, inl, inr,
  min, Bool, true, false, ◌&&◌, ◌||◌, not, Bool-cases, Option, none, some, is_some, List, [], ◌∷◌,
  ◌++◌, ltb, leb, le→leb, ◌==◌, ==_iff, arith, length, length-append, All, All-imply, get_elem?,
}
use filenymous.Prelude.Bytes.{Bytes}
use filenymous.Prelude.Json.{pos}
use filenymous.P2p.Chunks.{
  AesGcm, Chunk, Opened, ok, short_frame, not_authentic, open_chunk, chunk_count,
}
use filenymous.P2p.Stream.{has_chunk}
use filenymous.P2p.Stream.Requests.{request-marks, request-cached, request-keeps}
use filenymous.P2p.Media.{p2p_chunk_size, chunks_for_range}
use filenymous.P2p.Reader.{
  Key, same_key, KeyMap, lookup, without, renew, evict, add_waiter, Reader, fresh_reader, marks,
  absorb, if_opened, on_frame, ask, chunk, chunk_found, chunks_from, read_ahead, begin_chunks,
  begin_sized, begin_found, begin_read, reader_after, Event, frame, read, after_frame, after_event,
  run_reader, cache_chunks, prefetch_chunks,
}

pub same_key_iff : (j k : Key) → (same_key j k ≡ true) ↔ (j ≡ k)
unfolding same_key
same_key_iff (a, b) (c, d) = (
  λ h.
      let first : a ≡ c = (==_iff a c).0 (ground arith) in
      let second : b ≡ d = (==_iff b d).0 (ground arith) in
      ap (λ (x : ℕ). (x, b)) first ∙ ap (λ (y : ℕ). (c, y)) second,
  λ e.
      let first = (==_iff a c).1 (ap (λ (k : Key). k.0) e) in
      let second = (==_iff b d).1 (ap (λ (k : Key). k.1) e) in ground arith,
)

module _ {V : Type 0} where
  pub is_some-lookup-without :
      (j k : Key) (m : KeyMap V)
      → is_some (lookup k (without j m)) ≡ (not (same_key j k) && is_some (lookup k m))
  unfolding lookup without
  is_some-lookup-without j k [] = ground arith
  is_some-lookup-without j k ((i, v) ∷ m) =
      ground
        (arith, is_some-lookup-without j k m, same_key_iff j k, same_key_iff i j, same_key_iff i k)

  pub is_some-lookup-append :
      (k j : Key) (v : V) (m : KeyMap V)
      → is_some (lookup k (m ++ ((j, v) ∷ []))) ≡ (is_some (lookup k m) || same_key j k)
  unfolding lookup
  is_some-lookup-append k j v [] = ground arith
  is_some-lookup-append k j v ((i, w) ∷ m) = ground (arith, is_some-lookup-append k j v m)

  -- To renew an entry that is there changes only its place.
  pub lookup-renew_found :
      (j k : Key) (v : V) (m : KeyMap V)
      → lookup j m ≡ some v
      → is_some (lookup k (renew j v m)) ≡ is_some (lookup k m)
  unfolding renew
  lookup-renew_found j k v m h =
      let there = is_some-lookup-without j k m in
      let last = is_some-lookup-append k j v (without j m) in
      let same : same_key j k ≡ true → is_some (lookup k m) ≡ true =
        λ e. ap (λ i. is_some (lookup i m)) (sym ((same_key_iff j k).0 e)) ∙ ap is_some h in
      ground arith

  pub lookup-without_other :
      (j k : Key) (m : KeyMap V) → same_key j k ≡ false → lookup k (without j m) ≡ lookup k m
  unfolding lookup without
  lookup-without_other j k [] h = refl
  lookup-without_other j k ((i, v) ∷ m) h = elim (Bool-cases (same_key i j)) [
    | inl e ↦
        let other : same_key i k ≡ false =
          ground (arith, e, h, same_key_iff i j, same_key_iff i k, same_key_iff j k) in
        rw (e, other) (lookup-without_other j k m h)
    | inr e ↦ rw e (ap (λ o. if same_key i k then some v else o) (lookup-without_other j k m h))
  ]

  pub lookup-All :
      (P : Key → Type 0) (k : Key) (m : KeyMap V) {v : V}
      → All (λ e. P e.0) m
      → lookup k m ≡ some v
      → P k
  unfolding lookup
  lookup-All P k [] h e = absurd (ground (arith, e))
  lookup-All P k ((i, w) ∷ m) (p, h) e = elim (Bool-cases (same_key i k)) [
    | inl t ↦ subst P ((same_key_iff i k).0 t) p
    | inr t ↦ lookup-All P k m h (rw t at e)
  ]

  pub All-without :
      (P : Key × V → Type 0) (k : Key) (m : KeyMap V)
      → All P m
      → All (λ e. P e × (same_key k e.0 ≡ false)) (without k m)
  unfolding without
  All-without P k [] h = tt
  All-without P k ((j, v) ∷ m) (p, h) = elim (Bool-cases (same_key j k)) [
    | inl e ↦ rw e (All-without P k m h)
    | inr e ↦ rw e ((p, ground (arith, e, same_key_iff j k, same_key_iff k j)), All-without P k m h)
  ]

length-evict : (m : KeyMap Bytes) → length (evict m) ≤ cache_chunks
unfolding evict
length-evict [] = omega arith
length-evict (e ∷ m) = ground (arith, length-evict m)

-- Who waits, waits for a chunk that is asked for.
abbrev pub IsAsked : Reader → Key × List ℕ → Type 0
IsAsked r e = r.requested e.0.0 e.0.1 ≡ true

pub record IsValid (r : Reader) : Type 0 where
  pub asked : All (IsAsked r) r.waiters
  pub bounded : length r.cache ≤ cache_chunks

absorb-IsValid : (r : Reader) (c : Chunk) → IsValid r → IsValid (absorb r c).0
unfolding absorb
absorb-IsValid r c h =
    let k : Key = (c.file_index, c.chunk_index) in
    record {
      asked =
          All-imply (λ e. IsAsked r e × (same_key k e.0 ≡ false)) (IsAsked (absorb r c).0)
            (without k r.waiters) (λ e h. rw h.1 h.0) (All-without (IsAsked r) k r.waiters h.asked);
      bounded = length-evict (renew k c.plain r.cache);
    }

-- A chunk that is in the cache or asked for.
IsKnown : Reader → ℕ → ℕ → Type 0
IsKnown r f c = has_chunk (marks r) f c ≡ true

module _ (r : Reader) (file from to : ℕ) (prefetch : Bool) where
  ask-IsValid : IsValid r → IsValid (ask r file from to prefetch).0
  unfolding ask marks
  ask-IsValid h = record {
    asked =
        All-imply (IsAsked r) (IsAsked (ask r file from to prefetch).0) r.waiters
          (λ e h. request-keeps (marks r) file from to prefetch e.0.0 e.0.1 h) h.asked;
    bounded = h.bounded;
  }

  ask-has :
      (f c : ℕ)
      → has_chunk (marks (ask r file from to prefetch).0) f c
        ≡ (has_chunk (marks r) f c || (f == file && (leb from c && leb c to)))
  unfolding ask marks
  ask-has f c =
      let marked = request-marks (marks r) file from to prefetch f c in
      let cached = request-cached (marks r) file from to prefetch f c in
      unfold has_chunk in ground arith

add_waiter-All :
    (P : Key → Type 0) (k : Key) (t : ℕ) (m : KeyMap (List ℕ))
    → P k
    → All (λ e. P e.0) m
    → All (λ e. P e.0) (add_waiter k t m)
unfolding add_waiter
add_waiter-All P k t [] p h = (p, tt)
add_waiter-All P k t ((j, ts) ∷ m) p (q, h) = elim (Bool-cases (same_key j k)) [
  | inl e ↦ rw e (q, h)
  | inr e ↦ rw e (q, add_waiter-All P k t m p h)
]

length-without-le : {V : Type 0} (k : Key) (m : KeyMap V) → length (without k m) ≤ length m
unfolding without
length-without-le k [] = omega arith
length-without-le k ((j, v) ∷ m) = ground (arith, length-without-le k m)

-- An entry that is there leaves a place for its renewal.
length-without-lt :
    {V : Type 0} (k : Key) (v : V) (m : KeyMap V)
    → lookup k m ≡ some v
    → length (without k m) < length m
unfolding without lookup
length-without-lt k v [] h = ground (arith, h)
length-without-lt k v ((j, w) ∷ m) h = elim (Bool-cases (same_key j k)) [
  | inl e ↦ rw e (omega (arith, length-without-le k m))
  | inr e ↦ rw e (omega (arith, length-without-lt k v m (rw e at h)))
]

-- Whether it is a hit or waits, a call of `chunk` for a known chunk keeps what is known and valid.
chunk_found-IsValid :
    (r : Reader) (k : Key) (ticket : ℕ) (o : Option Bytes)
    → lookup k r.cache ≡ o
    → IsValid r
    → IsKnown r k.0 k.1
    → IsValid (chunk_found r k ticket o).0
unfolding chunk_found IsKnown marks has_chunk
chunk_found-IsValid r k ticket none e h known = record {
  asked =
      add_waiter-All (λ j. r.requested j.0 j.1 ≡ true) k ticket r.waiters
        (unfold has_chunk in ground (arith, known, ap is_some e)) h.asked;
  bounded = h.bounded;
}
chunk_found-IsValid r k ticket (some hit) e h known = record {
  asked = h.asked;
  bounded =
      unfold renew in
      omega (
        arith,
        h.bounded,
        length-append (without k r.cache) ((k, hit) ∷ []),
        length-without-lt k hit r.cache e,
      );
}

chunk_found-keeps :
    (r : Reader) (k : Key) (ticket : ℕ) (o : Option Bytes) (f d : ℕ)
    → lookup k r.cache ≡ o
    → has_chunk (marks (chunk_found r k ticket o).0) f d ≡ has_chunk (marks r) f d
unfolding chunk_found marks has_chunk lookup
chunk_found-keeps r k ticket none f d e = refl
chunk_found-keeps r k ticket (some hit) f d e =
    ap (λ b. b || r.requested f d) (lookup-renew_found k (f, d) hit r.cache e)

chunks_from-IsValid :
    (n : ℕ) (r : Reader) (file ticket c : ℕ)
    → IsValid r
    → ((d : ℕ) → c ≤ d → d < c + n → IsKnown r file d)
    → IsValid (chunks_from r file ticket c n).0
unfolding chunks_from chunk IsKnown
chunks_from-IsValid zero r file ticket c h known = h
chunks_from-IsValid (suc n) r file ticket c h known =
    let next = (chunk r file c ticket).0 in
    chunks_from-IsValid n next file ticket (c + 1)
      (chunk_found-IsValid r (file, c) ticket (lookup (file, c) r.cache) refl h
        (known c (omega arith) (omega arith)))
      (λ d l u.
        chunk_found-keeps r (file, c) ticket (lookup (file, c) r.cache) file d refl
        ∙ known d (omega arith) (omega arith))

-- What is in the range of an asked reader is known.
ask-IsKnown :
    (r : Reader) (file from to d : ℕ)
    → from ≤ d
    → d ≤ to
    → IsKnown (ask r file from to false).0 file d
unfolding IsKnown
ask-IsKnown r file from to d l u =
    ground
      (arith, ask-has r file from to false file d, ==_iff file file, le→leb from d l, le→leb d to u)

module _ (r : Reader) (file to last_chunk : ℕ) where
  read_ahead-IsValid : IsValid r → IsValid (read_ahead r file to last_chunk).0
  unfolding read_ahead
  read_ahead-IsValid h = elim (Bool-cases (ltb to last_chunk)) [
    | inl e ↦ rw e (ask-IsValid r file (to + 1) (min last_chunk (to + prefetch_chunks)) true h)
    | inr e ↦ rw e h
  ]

  read_ahead-IsKnown :
      (d : ℕ) → IsKnown r file d → IsKnown (read_ahead r file to last_chunk).0 file d
  unfolding read_ahead IsKnown
  read_ahead-IsKnown d h = elim (Bool-cases (ltb to last_chunk)) [
    | inl e ↦ rw e (
        ask-has r file (to + 1) (min last_chunk (to + prefetch_chunks)) true file d
        ∙ ap
            (λ b.
              b
              || (file == file
                  && (leb (to + 1) d && leb d (min last_chunk (to + prefetch_chunks)))))
            h)
    | inr e ↦ rw e h
  ]

begin_chunks-IsValid :
    (r : Reader) (file ticket : ℕ) (range : ℕ × ℕ) (last_chunk : ℕ)
    → IsValid r
    → IsValid (begin_chunks r file ticket range last_chunk).reader
unfolding begin_chunks
begin_chunks-IsValid r file ticket (from, to) last_chunk h =
    let asked = (ask r file from to false).0 in
    chunks_from-IsValid (to + 1 - from) (read_ahead asked file to last_chunk).0 file ticket from
      (read_ahead-IsValid asked file to last_chunk (ask-IsValid r file from to false h))
      (λ d l u.
        read_ahead-IsKnown asked file to last_chunk d
          (ask-IsKnown r file from to d l (omega arith)))

begin_sized-IsValid :
    (r : Reader) (file size ticket start end : ℕ)
    → IsValid r
    → IsValid (reader_after r (begin_sized r file size ticket start end))
unfolding begin_sized reader_after
begin_sized-IsValid r file size ticket start end h = elim (Bool-cases (size == 0)) [
  | inl z ↦ rw (z, begin_sized) h
  | inr z ↦
      rw (z, begin_sized)
        (begin_chunks-IsValid r file ticket (chunks_for_range (pos start) (pos end) size)
          (chunk_count size p2p_chunk_size - 1) h)
]

begin_found-IsValid :
    (r : Reader) (file ticket start end : ℕ) (o : Option ℕ)
    → IsValid r
    → IsValid (reader_after r (begin_found r file ticket start end o))
unfolding begin_found reader_after
begin_found-IsValid r file ticket start end none h = h
begin_found-IsValid r file ticket start end (some size) h =
    begin_sized-IsValid r file size ticket start end h

if_opened-IsValid : (r : Reader) (o : Opened) → IsValid r → IsValid (after_frame r (if_opened r o))
unfolding if_opened after_frame
if_opened-IsValid r (ok c) h = absorb-IsValid r c h
if_opened-IsValid r short_frame h = h
if_opened-IsValid r not_authentic h = h

module _ {CryptoKey : Type 0} (cipher : AesGcm CryptoKey) (key : CryptoKey) (sizes : List ℕ) where
  after_event-IsValid :
      (r : Reader) (e : Event) → IsValid r → IsValid (after_event cipher key sizes r e)
  unfolding after_event on_frame begin_read
  after_event-IsValid r (frame bytes) h = if_opened-IsValid r (open_chunk cipher key bytes) h
  after_event-IsValid r (read file ticket start end) h =
      begin_found-IsValid r file ticket start end (get_elem? sizes file) h

  pub run_reader_kept :
      (events : List Event) (r : Reader)
      → IsValid r
      → IsValid (run_reader cipher key sizes r events)
  unfolding run_reader
  run_reader_kept [] r h = h
  run_reader_kept (e ∷ events) r h =
      run_reader_kept events (after_event cipher key sizes r e) (after_event-IsValid r e h)

  pub run_reader-IsValid :
      (events : List Event) → IsValid (run_reader cipher key sizes fresh_reader events)
  unfolding fresh_reader
  run_reader-IsValid events =
      run_reader_kept events fresh_reader (record { asked = tt; bounded = omega arith })
