-- ===== src/P2p/Reader/Tests.antt =====
-- The streaming reader on concrete inputs.
use filenymous.Prelude.{
  ℕ, ◌≡◌, ◌&&◌, ◌||◌, refl, false, none, some, List, [], ◌∷◌, map, arith, length, leb, ◌==◌, ==_iff,
}
use filenymous.Prelude.Bytes.{Bytes}
use filenymous.Prelude.Json.{pos}
use filenymous.P2p.Chunks.{AesGcm, Chunk}
use filenymous.P2p.Chunks.Appending.{appending, appending-IsAuthenticated}
use filenymous.P2p.Media.{chunks_for_range}
use filenymous.P2p.Reader.{
  Reader, fresh_reader, Event, frame, read, run_reader, end_read, same_key, Key, waiting, run_woken,
  Reading, reading, begin_chunks, begin_read,
}
use filenymous.P2p.Reader
use filenymous.P2p.Reader.Completion.{comes, sealed_frame, reads_complete, first_of}
use filenymous.P2p.Reader.Parts.{IsAnswered, begin_read-IsAnswered}
use mathlib.Core.List.{Memᴰ}
use filenymous.P2p.Reader.Assembly.{range_chunks, end_read_lem}

abbrev five_bytes : Bytes
five_bytes = 11 ∷ 12 ∷ 13 ∷ 14 ∷ 15 ∷ []

end_read_example :
    end_read 5 1 9 (range_chunks five_bytes (chunks_for_range (pos 1) (pos 9) 5))
    ≡ some (12 ∷ 13 ∷ 14 ∷ 15 ∷ [])
end_read_example = end_read_lem five_bytes 1 9 (omega arith) (omega arith)

-- A read of the first chunk of a file of two, which is also read ahead of.
abbrev read_first : List Event
read_first = read 0 7 0 5 ∷ []

abbrev two_chunks : List Chunk
two_chunks =
    record { file_index = 0; chunk_index = 1; plain = 9 ∷ [] }
    ∷ record { file_index = 0; chunk_index = 0; plain = 1 ∷ 2 ∷ 3 ∷ [] }
    ∷ []

abbrev sizes : List ℕ
sizes = 70000 ∷ []

abbrev after_read : Reader
after_read = run_reader appending 5 sizes fresh_reader read_first

reader_functions : Unit {0}
unfolding filenymous.P2p.Reader.run_reader filenymous.P2p.Reader.after_event
    filenymous.P2p.Reader.reader_after filenymous.P2p.Reader.begin_read
    filenymous.P2p.Reader.begin_found filenymous.P2p.Reader.begin_sized
    filenymous.P2p.Reader.begin_chunks filenymous.P2p.Reader.chunks_from filenymous.P2p.Reader.chunk
    filenymous.P2p.Reader.chunk_found filenymous.P2p.Reader.read_ahead filenymous.P2p.Reader.ask
    filenymous.P2p.Reader.marks filenymous.P2p.Reader.add_waiter filenymous.P2p.Reader.lookup
    fresh_reader chunks_for_range filenymous.P2p.Chunks.chunk_count filenymous.P2p.Stream.request
    filenymous.P2p.Stream.send_runs filenymous.P2p.Stream.missing_runs
    filenymous.P2p.Stream.runs_from filenymous.P2p.Stream.add_run filenymous.P2p.Stream.is_missing
    filenymous.P2p.Stream.opened_at filenymous.P2p.Stream.ends_run filenymous.P2p.Stream.push_run
    filenymous.P2p.Stream.has_chunk filenymous.P2p.Reader.same_key
reader_functions = tt

still_waiting : length after_read.waiters ≡ 1
unfolding reader_functions
still_waiting = refl

asked_chunks :
    (f c : ℕ)
    → after_read.requested f c
      ≡ ((f == 0 && leb 1 c && leb c 1) || ((f == 0 && leb 0 c && leb c 0) || false))
unfolding reader_functions
asked_chunks f c = refl

reads_complete_example :
    ((run_reader appending 5 sizes after_read (map (sealed_frame appending 5) two_chunks)).waiters
      ≡ [])
    × ((k : Key) (t : ℕ)
        → Memᴰ t (waiting k after_read.waiters)
        → (plain : Bytes) × (first_of k two_chunks ≡ some plain)
          × Memᴰ
              (t, plain)
              (run_woken appending 5 sizes after_read (map (sealed_frame appending 5) two_chunks)))
reads_complete_example =
    reads_complete appending appending-IsAuthenticated 5 sizes read_first two_chunks
      ((omega arith, omega arith), ((omega arith, omega arith), tt))
      (λ f c e.
        unfold comes same_key in
        ground (arith, e, asked_chunks f c, ==_iff 0 f, ==_iff f 0, ==_iff 0 c, ==_iff 1 c))

-- A second read of the first chunk and the next one, of which the first has come.
abbrev cached : Reader
cached = record fresh_reader { cache = ((0, 0), 1 ∷ 2 ∷ 3 ∷ []) ∷ [] }

abbrev begun : Reading
begun = begin_chunks cached 0 8 (0, 1) 1

begun_so : begin_read sizes cached 0 8 1 66000 ≡ reading begun
unfolding reader_functions
begun_so = refl

begin_read-IsAnswered_example :
    IsAnswered cached 0 8 (chunks_for_range (pos 1) (pos 66000) 70000) begun
begin_read-IsAnswered_example = begin_read-IsAnswered sizes cached 0 8 1 66000 70000 refl begun_so

answered : begun.parts ≡ some (1 ∷ 2 ∷ 3 ∷ []) ∷ none ∷ []
unfolding reader_functions filenymous.P2p.Reader.renew filenymous.P2p.Reader.without
answered = refl
