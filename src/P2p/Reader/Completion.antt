-- ===== src/P2p/Reader/Completion.antt =====
-- Reads that wait are over when the chunks have come.
use filenymous.Prelude.{
  ℕ, ◌<◌, ◌^◌, ◌≡◌, refl, sym, subst, ap, ◌∙◌, inl, inr, Bool-cases, Option-cases, Option, some,
  none, if◌then◌else◌, Bool, true, false, List, [], ◌∷◌, map, any, arith, All, All-imply,
}
use mathlib.Core.List.{Memᴰ}
use mathlib.Core.List.Memᴰ
use mathlib.Core.Option.{some-injective}
use filenymous.Prelude.Bytes.{Bytes}
use filenymous.P2p.Chunks.{AesGcm, Chunk, seal_chunk}
use filenymous.P2p.Chunks.Sealing.{IsAuthenticated, open_chunk-seal_chunk}
use filenymous.P2p.Reader.{
  Key, same_key, KeyMap, without, Reader, fresh_reader, absorb, if_opened, on_frame, Event, frame,
  after_frame, after_event, run_reader, handed, woken_by, run_woken, waiting, tickets, lookup,
}
use filenymous.P2p.Reader.Waiting.{
  All-without, lookup-All, lookup-without_other, same_key_iff, IsAsked, run_reader-IsValid,
}

abbrev pub key_of : Chunk → Key
key_of chunk = (chunk.file_index, chunk.chunk_index)

-- One of the chunks is this one.
unfoldable pub comes : List Chunk → Key → Bool
comes chunks k = any (λ chunk. same_key (key_of chunk) k) chunks

-- The bytes of the first of the chunks with this key.
unfoldable pub first_of : Key → List Chunk → Option Bytes
first_of k [] = none
first_of k (chunk ∷ chunks) =
    let rest = first_of k chunks in if same_key (key_of chunk) k then some chunk.plain else rest

comes-first_of :
    (chunks : List Chunk) (k : Key)
    → comes chunks k ≡ true
    → (plain : Bytes) × (first_of k chunks ≡ some plain)
unfolding comes first_of
comes-first_of [] k h = absurd (ground (arith, h))
comes-first_of (chunk ∷ chunks) k h = elim (Bool-cases (same_key (key_of chunk) k)) [
  | inl e ↦ rw e (chunk.plain, refl)
  | inr e ↦ rw e (comes-first_of chunks k (rw e at h))
]

waiting-All :
    (P : Key → Type 0) (k : Key) (m : KeyMap (List ℕ)) {t : ℕ}
    → All (λ e. P e.0) m
    → Memᴰ t (waiting k m)
    → P k
unfolding waiting tickets
waiting-All P k m {t} h w = elim (Option-cases (lookup k m)) [
  | inl e ↦ absurd (Memᴰ.not-nil (subst (λ o. Memᴰ t (tickets o)) e w))
  | inr (ts, e) ↦ lookup-All P k m h e
]

-- The frame that the sender makes of a chunk.
pub sealed_frame : {CryptoKey : Type 0} → AesGcm CryptoKey → CryptoKey → Chunk → Event
sealed_frame cipher key chunk = frame (seal_chunk cipher key chunk)

abbrev pub Fits : Chunk → Type 0
Fits chunk = (chunk.file_index < 2 ^ 32) × (chunk.chunk_index < 2 ^ 32)

module _ {CryptoKey : Type 0} (cipher : AesGcm CryptoKey) (law : IsAuthenticated cipher)
    (key : CryptoKey) (sizes : List ℕ) where
  after_event-sealed_frame :
      (r : Reader) (chunk : Chunk)
      → Fits chunk
      → after_event cipher key sizes r (sealed_frame cipher key chunk) ≡ (absorb r chunk).0
  unfolding after_event sealed_frame on_frame if_opened after_frame
  after_event-sealed_frame r chunk h =
      ap (λ o. after_frame r (if_opened r o)) (open_chunk-seal_chunk cipher law key chunk h.0 h.1)

  woken_by-sealed_frame :
      (r : Reader) (chunk : Chunk)
      → Fits chunk
      → woken_by cipher key sizes r (sealed_frame cipher key chunk) ≡ (absorb r chunk).1
  unfolding woken_by sealed_frame on_frame if_opened handed
  woken_by-sealed_frame r chunk h =
      ap (λ o. handed (if_opened r o)) (open_chunk-seal_chunk cipher law key chunk h.0 h.1)

  -- When a chunk of each that is waited for comes, nobody waits.
  all_served :
      (chunks : List Chunk) (r : Reader)
      → All Fits chunks
      → All (λ e. comes chunks e.0 ≡ true) r.waiters
      → (run_reader cipher key sizes r (map (sealed_frame cipher key) chunks)).waiters ≡ []
  unfolding run_reader comes
  all_served [] r fits h = no_waiter r.waiters h
    where
      no_waiter : (m : KeyMap (List ℕ)) → All (λ e. false ≡ true) m → m ≡ []
      no_waiter [] h = refl
      no_waiter (e ∷ m) h = ground (arith, h.0)
  all_served (chunk ∷ chunks) r (fit, fits) h =
      let next = (absorb r chunk).0 in
      let left : All (λ e. comes chunks e.0 ≡ true) next.waiters =
        unfold absorb in
        All-imply (λ e. (comes (chunk ∷ chunks) e.0 ≡ true) × (same_key (key_of chunk) e.0 ≡ false))
          (λ e. comes chunks e.0 ≡ true) (without (key_of chunk) r.waiters)
          (λ e h. ground (arith, h.0, h.1))
          (All-without (λ e. comes (chunk ∷ chunks) e.0 ≡ true) (key_of chunk) r.waiters h) in
      ap (λ n. (run_reader cipher key sizes n (map (sealed_frame cipher key) chunks)).waiters)
        (after_event-sealed_frame r chunk fit)
      ∙ all_served chunks next fits left

  -- Whoever waits for a chunk is handed the bytes of the first of that chunk that comes.
  all_handed :
      (chunks : List Chunk) (r : Reader) (k : Key) (t : ℕ) (plain : Bytes)
      → All Fits chunks
      → first_of k chunks ≡ some plain
      → Memᴰ t (waiting k r.waiters)
      → Memᴰ (t, plain) (run_woken cipher key sizes r (map (sealed_frame cipher key) chunks))
  unfolding run_woken first_of
  all_handed [] r k t plain fits e w = absurd (ground (arith, e))
  all_handed (chunk ∷ chunks) r k t plain (fit, fits) e w =
      let frames = map (sealed_frame cipher key) chunks in
      let event = sealed_frame cipher key chunk in
      elim (Bool-cases (same_key (key_of chunk) k)) [
        | inl here ↦
            let same : chunk.plain ≡ plain = some-injective chunk.plain plain (rw here at e) in
            let its : Memᴰ t (waiting (key_of chunk) r.waiters) =
              subst (λ j. Memᴰ t (waiting j r.waiters))
                (sym ((same_key_iff (key_of chunk) k).0 here)) w in
            let now : Memᴰ (t, plain) (absorb r chunk).1 =
              unfold absorb in
              subst
                (λ p.
                  Memᴰ {A = ℕ × Bytes} (t, p)
                    (map (λ u. (u, chunk.plain)) (waiting (key_of chunk) r.waiters)))
                same (Memᴰ.map {B = ℕ × Bytes} (λ u. (u, chunk.plain)) its) in
            Memᴰ.append_left
              (run_woken cipher key sizes (after_event cipher key sizes r event) frames)
              (subst (λ l. Memᴰ (t, plain) l) (sym (woken_by-sealed_frame r chunk fit)) now)
        | inr other ↦
            let kept : Memᴰ t (waiting k (absorb r chunk).0.waiters) =
              unfold absorb waiting in
              subst (λ o. Memᴰ t (tickets o))
                (sym (lookup-without_other (key_of chunk) k r.waiters other)) w in
            Memᴰ.append_right (woken_by cipher key sizes r event) (
              subst (λ n. Memᴰ (t, plain) (run_woken cipher key sizes n frames))
                (sym (after_event-sealed_frame r chunk fit))
                (all_handed chunks (absorb r chunk).0 k t plain fits (rw other at e) kept))
      ]

  -- After any reads and frames, in any order, let a sealed frame of each chunk that is asked for come,
  -- in any order and among others. Then no read waits any more, and each that waited for a chunk was
  -- handed the bytes of the first frame of that chunk. The indices of the chunks fit their 32 bits, and
  -- the cipher decrypts what it has encrypted.
  pub reads_complete :
      (events : List Event) (chunks : List Chunk)
      → All Fits chunks
      → ((f c : ℕ)
          → (run_reader cipher key sizes fresh_reader events).requested f c ≡ true
          → comes chunks (f, c) ≡ true)
      → ((run_reader cipher key sizes
            (run_reader cipher key sizes fresh_reader events)
            (map (sealed_frame cipher key) chunks)).waiters
          ≡ [])
        × ((k : Key) (t : ℕ)
            → Memᴰ t (waiting k (run_reader cipher key sizes fresh_reader events).waiters)
            → (plain : Bytes) × (first_of k chunks ≡ some plain)
              × Memᴰ
                  (t, plain)
                  (run_woken cipher key sizes
                    (run_reader cipher key sizes fresh_reader events)
                    (map (sealed_frame cipher key) chunks)))
  reads_complete events chunks fits sent =
      let r = run_reader cipher key sizes fresh_reader events in
      let known =
        All-imply (IsAsked r) (λ e. comes chunks e.0 ≡ true) r.waiters (λ e h. sent e.0.0 e.0.1 h)
          (run_reader-IsValid cipher key sizes events).asked in
      (
        all_served chunks r fits known,
        λ k t w.
            let (plain, e) =
              comes-first_of chunks k
                (waiting-All (λ j. comes chunks j ≡ true) k r.waiters known w) in
            (plain, e, all_handed chunks r k t plain fits e w),
      )
