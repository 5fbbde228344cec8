-- ===== src/Optical/Decoder/Replay.antt =====
-- The receiver against its specification: the library is given the first frame of each sequence
-- number, in the order of arrival, until it answers.
use filenymous.Prelude.{
  ℕ, suc, ◌≡◌, refl, ap, ◌∙◌, true, false, inl, inr, Bool-cases, ==_iff, ◌==◌, Option, none, some,
  List, [], ◌∷◌, if◌then◌else◌, length,
}
use filenymous.Prelude.Bytes.{Bytes}
use filenymous.Optical.Frames.{TransferMeta, Droplet}
use filenymous.Optical.Decoder.{
  Solver, Receiver, full_packet, has, absorbed, pushed, noted, receive_with, receive_data,
}

-- Those frames whose sequence number has not been seen.
pub fresh : List ℕ → List Droplet → List Droplet
fresh seen [] = []
fresh seen (f ∷ fs) =
    let rest = fresh seen fs in
    let more = fresh (f.sequence ∷ seen) fs in if has f.sequence seen then rest else f ∷ more

module _ {D : Type 0} (solver : Solver D) (m : TransferMeta) where
  fed_next : D × Option Bytes → (D → D × Option Bytes) → D × Option Bytes
  fed_next (d, none) k = k d
  fed_next (d, some stream) k = (d, some stream)

  -- The packets are pushed one after the other until the library returns the stream.
  pub fed : D → List Droplet → D × Option Bytes
  unfolding fed_next
  fed d [] = (d, none)
  fed d (f ∷ fs) = fed_next (solver.push d (full_packet m f.payload)) λ d'. fed d' fs

  -- The frames of the transfer, one after the other.
  pub receive_all : Receiver D → List Droplet → Receiver D
  receive_all r [] = r
  receive_all r (f ∷ fs) = receive_all (receive_data solver r m.session_id f).0 fs

  -- A receiver that has the descriptor and a decoder, and no stream yet.
  abbrev pub ready : D → List ℕ → ℕ → Receiver D
  ready d seen n = record {
    meta = some m;
    decoder = some d;
    seen = seen;
    solved_count = n;
    stream = none;
  }

  abbrev complete : D → List ℕ → ℕ → Bytes → Receiver D
  complete d seen n stream = record {
    meta = some m;
    decoder = some d;
    seen = seen;
    solved_count = n;
    stream = some stream;
  }

  -- The state of the library and the stream.
  abbrev pub outcome : Receiver D → Option D × Option Bytes
  outcome r = (r.decoder, r.stream)

  abbrev pub told : D × Option Bytes → Option D × Option Bytes
  told s = (some s.0, s.1)

  same_session : (m.session_id == m.session_id) ≡ true
  same_session = (==_iff m.session_id m.session_id).1 refl

  receive-complete :
      (d : D) (seen : List ℕ) (n : ℕ) (stream : Bytes) (f : Droplet)
      → (receive_data solver (complete d seen n stream) m.session_id f).0 ≡ complete d seen n stream
  unfolding receive_data receive_with
  receive-complete d seen n stream f = rw same_session refl

  -- Nothing changes after the stream.
  receive_all-complete :
      (d : D) (seen : List ℕ) (n : ℕ) (stream : Bytes) (fs : List Droplet)
      → receive_all (complete d seen n stream) fs ≡ complete d seen n stream
  unfolding receive_all
  receive_all-complete d seen n stream [] = refl
  receive_all-complete d seen n stream (f ∷ fs) =
      ap (λ r. receive_all r fs) (receive-complete d seen n stream f)
      ∙ receive_all-complete d seen n stream fs

  receive-seen :
      (d : D) (seen : List ℕ) (n : ℕ) (f : Droplet)
      → has f.sequence seen ≡ true
      → (receive_data solver (ready d seen n) m.session_id f).0 ≡ ready d seen n
  unfolding receive_data receive_with
  receive-seen d seen n f e = rw (same_session, e) refl

  receive-new :
      (d : D) (seen : List ℕ) (n : ℕ) (f : Droplet)
      → has f.sequence seen ≡ false
      → (receive_data solver (ready d seen n) m.session_id f).0
        ≡ absorbed (noted (ready d seen n) f.sequence) m (solver.push d (full_packet m f.payload))
  unfolding receive_data receive_with pushed noted
  receive-new d seen n f e = rw (same_session, e) refl

  after_push :
      (f : Droplet) (fs : List Droplet) (d : D) (seen : List ℕ) (n : ℕ) (o : D × Option Bytes)
      → ((d' : D)
          → outcome (receive_all (ready d' (f.sequence ∷ seen) (suc (length seen))) fs)
            ≡ told (fed d' (fresh (f.sequence ∷ seen) fs)))
      → outcome (receive_all (absorbed (noted (ready d seen n) f.sequence) m o) fs)
        ≡ told (fed_next o λ d'. fed d' (fresh (f.sequence ∷ seen) fs))
  unfolding absorbed noted fed_next
  after_push f fs d seen n (d', none) ih = ih d'
  after_push f fs d seen n (d', some stream) ih =
      ap (λ r. outcome r) (receive_all-complete d' (f.sequence ∷ seen) m.total_packets stream fs)

  -- For frames of the transfer in any order and with any repetitions, what the library has been given
  -- and the stream that the receiver holds are those of the specification: the packets of the first
  -- frames of each sequence number are pushed in the order of arrival, until the library returns the
  -- stream, which stays.
  pub receive_all-fed :
      (fs : List Droplet) (d : D) (seen : List ℕ) (n : ℕ)
      → outcome (receive_all (ready d seen n) fs) ≡ told (fed d (fresh seen fs))
  unfolding receive_all fed fresh
  receive_all-fed [] d seen n = refl
  receive_all-fed (f ∷ fs) d seen n = elim (Bool-cases (has f.sequence seen)) [
    | inl e ↦
        ap (λ r. outcome (receive_all r fs)) (receive-seen d seen n f e)
        ∙ rw e (receive_all-fed fs d seen n)
    | inr e ↦
        ap (λ r. outcome (receive_all r fs)) (receive-new d seen n f e)
        ∙ rw e (
            after_push f fs d seen n (solver.push d (full_packet m f.payload))
              λ d'. receive_all-fed fs d' (f.sequence ∷ seen) (suc (length seen)))
  ]
