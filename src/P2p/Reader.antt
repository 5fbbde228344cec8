-- ===== src/P2p/Reader.antt =====
-- ui/src/p2p/stream.ts: `StreamReader`, with its cache of decrypted chunks and the reads that wait for
-- one. A promise that waits is the number that its read was given.
pub mod Waiting
pub mod Completion
pub mod Parts
pub mod Assembly
mod Tests
use filenymous.Prelude.{
  ℕ, zero, suc, ◌+◌, ◌-◌, ◌*◌, min, Bool, true, false, ◌&&◌, not, Option, none, some, is_some, List,
  [], ◌∷◌, ◌++◌, map, ltb, ◌==◌, if◌then◌else◌, length, take, drop, get_elem?,
}
use filenymous.Prelude.Bytes.{Bytes}
use filenymous.Prelude.Json.{pos}
use filenymous.P2p.Chunks.{AesGcm, Chunk, Opened, ok, open_chunk, chunk_count}
use filenymous.P2p.Stream.{StreamReader, Range, request}
use filenymous.P2p.Media.{p2p_chunk_size, chunks_for_range}

abbrev pub cache_chunks : ℕ
cache_chunks = 256

abbrev pub prefetch_chunks : ℕ
prefetch_chunks = 32

-- The key `${file}:${c}`.
abbrev pub Key : Type 0
Key = ℕ × ℕ

unfoldable pub same_key : Key → Key → Bool
same_key j k = j.0 == k.0 && j.1 == k.1

-- A `Map` with such keys, in the order of insertion.
abbrev pub KeyMap : Type 0 → Type 0
KeyMap V = List (Key × V)

module _ {V : Type 0} where
  pub lookup : Key → KeyMap V → Option V
  lookup k [] = none
  lookup k ((j, v) ∷ m) = let rest = lookup k m in if same_key j k then some v else rest

  pub without : Key → KeyMap V → KeyMap V
  without k [] = []
  without k ((j, v) ∷ m) = let rest = without k m in if same_key j k then rest else (j, v) ∷ rest

  -- `delete(k)`, then `set(k, v)`: the entry goes to the end.
  pub renew : Key → V → KeyMap V → KeyMap V
  renew k v m = without k m ++ ((k, v) ∷ [])

-- `while (cache.size > CACHE_CHUNKS) cache.delete(cache.keys().next().value)`
pub evict : KeyMap Bytes → KeyMap Bytes
evict [] = []
evict (e ∷ m) = let rest = evict m in if ltb cache_chunks (suc (length m)) then rest else e ∷ m

-- `waiters.set(k, list)` with the list of k so far and one more.
pub add_waiter : Key → ℕ → KeyMap (List ℕ) → KeyMap (List ℕ)
add_waiter k t [] = (k, t ∷ []) ∷ []
add_waiter k t ((j, ts) ∷ m) =
    let rest = add_waiter k t m in if same_key j k then (j, ts ++ (t ∷ [])) ∷ m else (j, ts) ∷ rest

pub record Reader : Type 0 where
  pub cache : KeyMap Bytes
  pub waiters : KeyMap (List ℕ)
  pub requested : ℕ → ℕ → Bool
  pub received : ℕ

pub fresh_reader : Reader
fresh_reader = record { cache = []; waiters = []; requested = λ f c. false; received = 0 }

-- What `request` reads and writes of the reader.
pub marks : Reader → StreamReader
marks r = record { cached = λ f c. is_some (lookup (f, c) r.cache); requested = r.requested }

pub tickets : Option (List ℕ) → List ℕ
tickets none = []
tickets (some ts) = ts

pub waiting : Key → KeyMap (List ℕ) → List ℕ
waiting k m = tickets (lookup k m)

-- What `onFrame` does with an open chunk: the reader, and the reads that have their chunk.
pub absorb : Reader → Chunk → Reader × List (ℕ × Bytes)
absorb r chunk =
    let k : Key = (chunk.file_index, chunk.chunk_index) in
    (
      record {
        cache = evict (renew k chunk.plain r.cache);
        waiters = without k r.waiters;
        requested = λ f c. not (same_key k (f, c)) && r.requested f c;
        received = r.received + length chunk.plain;
      },
      map (λ t. (t, chunk.plain)) (waiting k r.waiters),
    )

-- A frame that does not open is an exception, and changes nothing.
pub if_opened : Reader → Opened → Option (Reader × List (ℕ × Bytes))
if_opened r (ok chunk) = some (absorb r chunk)
if_opened r _ = none

pub on_frame :
    {CryptoKey : Type 0}
    → AesGcm CryptoKey
    → CryptoKey
    → Reader
    → Bytes
    → Option (Reader × List (ℕ × Bytes))
on_frame cipher key r frame = if_opened r (open_chunk cipher key frame)

-- `request`, with the messages that it sends.
pub ask : Reader → ℕ → ℕ → ℕ → Bool → Reader × List Range
ask r file from to prefetch =
    let asked = request (marks r) file from to prefetch in
    (record r { requested = asked.0.requested }, asked.1)

-- `chunk`: the bytes when they are in the cache, or none, and the read waits.
pub chunk_found : Reader → Key → ℕ → Option Bytes → Reader × Option Bytes
chunk_found r k ticket none = (record r { waiters = add_waiter k ticket r.waiters }, none)
chunk_found r k ticket (some hit) = (record r { cache = renew k hit r.cache }, some hit)

pub chunk : Reader → ℕ → ℕ → ℕ → Reader × Option Bytes
chunk r file c ticket = chunk_found r (file, c) ticket (lookup (file, c) r.cache)

-- The calls of `chunk` of one read, n of them from chunk c on.
pub chunks_from : Reader → ℕ → ℕ → ℕ → ℕ → Reader × List (Option Bytes)
chunks_from r file ticket c zero = (r, [])
chunks_from r file ticket c (suc n) =
    let first = chunk r file c ticket in
    let rest = chunks_from first.0 file ticket (c + 1) n in (rest.0, first.1 ∷ rest.1)

-- `if (to < lastChunk) this.request(...)`
pub read_ahead : Reader → ℕ → ℕ → ℕ → Reader × List Range
read_ahead r file to last_chunk =
    let asked = ask r file (to + 1) (min last_chunk (to + prefetch_chunks)) true in
    if ltb to last_chunk then asked else (r, [])

pub record Reading : Type 0 where
  pub reader : Reader
  pub sent : List Range
  pub parts : List (Option Bytes)

-- A read that has its bytes at once is one of an empty file.
pub data Begun : Type 0 where
  bad_file no_bytes : Begun
  reading : Reading → Begun

pub begin_chunks : Reader → ℕ → ℕ → ℕ × ℕ → ℕ → Reading
begin_chunks r file ticket (from, to) last_chunk =
    let asked = ask r file from to false in
    let ahead = read_ahead asked.0 file to last_chunk in
    let got = chunks_from ahead.0 file ticket from (to + 1 - from) in
    record { reader = got.0; sent = asked.1 ++ ahead.1; parts = got.1 }

pub begin_sized : Reader → ℕ → ℕ → ℕ → ℕ → ℕ → Begun
begin_sized r file size ticket start end =
    if size == 0
    then no_bytes
    else reading (
        begin_chunks r file ticket (chunks_for_range (pos start) (pos end) size)
          (chunk_count size p2p_chunk_size - 1))

pub begin_found : Reader → ℕ → ℕ → ℕ → ℕ → Option ℕ → Begun
begin_found r file ticket start end none = bad_file
begin_found r file ticket start end (some size) = begin_sized r file size ticket start end

-- `read` up to `await`, of the files of these sizes, for bytes that are not before the first, as the
-- service worker asks.
pub begin_read : List ℕ → Reader → ℕ → ℕ → ℕ → ℕ → Begun
begin_read sizes r file ticket start end =
    begin_found r file ticket start end (get_elem? sizes file)

-- An exception and an empty file leave the reader as it is.
pub reader_after : Reader → Begun → Reader
reader_after r (reading n) = n.reader
reader_after r _ = r

-- What happens to a reader: a frame comes, or a read is called with its number.
pub data Event : Type 0 where
  frame : Bytes → Event
  read : ℕ → ℕ → ℕ → ℕ → Event

-- `for (const fn of w) fn(plain)`
pub handed : Option (Reader × List (ℕ × Bytes)) → List (ℕ × Bytes)
handed none = []
handed (some (next, woken)) = woken

pub after_frame : Reader → Option (Reader × List (ℕ × Bytes)) → Reader
after_frame r none = r
after_frame r (some (next, woken)) = next

module _ {CryptoKey : Type 0} (cipher : AesGcm CryptoKey) (key : CryptoKey) (sizes : List ℕ) where
  pub after_event : Reader → Event → Reader
  after_event r (frame bytes) = after_frame r (on_frame cipher key r bytes)
  after_event r (read file ticket start end) =
      reader_after r (begin_read sizes r file ticket start end)

  -- The reads whose promise an event ends, with the bytes that it hands them.
  pub woken_by : Reader → Event → List (ℕ × Bytes)
  woken_by r (frame bytes) = handed (on_frame cipher key r bytes)
  woken_by r (read file ticket start end) = []

  pub run_reader : Reader → List Event → Reader
  run_reader r [] = r
  run_reader r (e ∷ events) = run_reader (after_event r e) events

  pub run_woken : Reader → List Event → List (ℕ × Bytes)
  run_woken r [] = []
  run_woken r (e ∷ events) = woken_by r e ++ run_woken (after_event r e) events

-- `new Uint8Array(n)`
pub zeros : ℕ → Bytes
zeros zero = []
zeros (suc n) = 0 ∷ zeros n

-- The loop over the parts, with the room that is left of the result.
pub assemble : ℕ → ℕ → List Bytes → Bytes
assemble offset room [] = zeros room
assemble offset room (p ∷ parts) =
    let piece = take room (drop offset p) in piece ++ assemble 0 (room - length piece) parts

-- `read` after `await`: none is the exception of an array of negative length.
pub end_read : ℕ → ℕ → ℕ → List Bytes → Option Bytes
end_read size start end parts =
    let stop = min end (size - 1) + 1 in
    let from = (chunks_for_range (pos start) (pos end) size).0 in
    if ltb stop start
    then none
    else some (assemble (start - from * p2p_chunk_size) (stop - start) parts)
