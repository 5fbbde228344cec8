-- ===== src/Optical/Decoder/Tests.antt =====
-- The receiver of an optical transfer on concrete frames, with a library that needs two packets.
use filenymous.Prelude.{
  ℕ, suc, ◌≡◌, refl, false, none, some, List, [], ◌∷◌, leb, if◌then◌else◌, codes,
}
use filenymous.Optical.Frames.{TransferMeta, inline, Droplet}
use filenymous.Optical.Decoder.{
  Solver, Receiver, ok, err, not_initialized, start, set_meta, attach, receive_data,
}
use filenymous.Optical.Decoder
use filenymous.Optical.Decoder.Replay.{
  fresh, fed, receive_all, ready, outcome, told, receive_all-fed,
}

-- It counts the packets, and returns a stream at the second.
abbrev two_packets : Solver ℕ
two_packets = record {
  create = λ size symbol. 0;
  push = λ d packet. if leb 1 d then (suc d, some (7 ∷ [])) else (suc d, none);
}

abbrev meta : TransferMeta
meta = record {
  session_id = 3;
  filename = codes "a";
  mime = codes "b";
  file_size = 1;
  transmitted_size = 1;
  symbol_size = 16;
  total_packets = 2;
  file_crc32 = 0;
  transmitted_crc32 = 0;
  key_encoding = inline;
  compressed = false;
  key_material = [];
}

abbrev frame : ℕ → Droplet
frame n = record { sequence = n; payload = n ∷ [] }

abbrev frames : List Droplet
frames = frame 0 ∷ frame 0 ∷ frame 5 ∷ frame 6 ∷ []

receive_all-fed_example :
    outcome two_packets meta (receive_all two_packets meta (ready two_packets meta 0 [] 0) frames)
    ≡ told two_packets meta (fed two_packets meta 0 (fresh [] frames))
receive_all-fed_example = receive_all-fed two_packets meta frames 0 [] 0

receiver_functions : Unit {0}
unfolding filenymous.Optical.Decoder.start filenymous.Optical.Decoder.set_meta
    filenymous.Optical.Decoder.is_other filenymous.Optical.Decoder.attach
    filenymous.Optical.Decoder.receive_data filenymous.Optical.Decoder.receive_with
    filenymous.Optical.Decoder.pushed filenymous.Optical.Decoder.noted
    filenymous.Optical.Decoder.absorbed filenymous.Optical.Decoder.has
    filenymous.Optical.Decoder.answer filenymous.Optical.Decoder.total_of
    filenymous.Optical.Decoder.full_packet filenymous.Optical.Decoder.packed_word
receiver_functions = tt

announced : Receiver ℕ
unfolding receiver_functions
announced = (set_meta start meta).0

-- A frame that arrives while the decoder is being made is noted and lost: when it is shown again it
-- is a duplicate.
early_frame_lost : (receive_data two_packets announced 3 (frame 0)).1 ≡ err not_initialized
unfolding announced receiver_functions
early_frame_lost = refl

lost_frame_not_pushed :
    (receive_data two_packets
      (attach two_packets (receive_data two_packets announced 3 (frame 0)).0 meta)
      3
      (frame 0)).0.decoder
    ≡ some 0
unfolding announced receiver_functions
lost_frame_not_pushed = refl

-- A packet that is shown again under a new sequence number is counted again: more than all.
counted_beyond_all :
    (receive_data two_packets (ready two_packets meta 0 (2 ∷ 1 ∷ []) 2) 3 (frame 9)).0.solved_count
    ≡ 3
unfolding receiver_functions
counted_beyond_all = refl
