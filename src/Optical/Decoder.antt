-- ===== src/Optical/Decoder.antt =====
-- ui/src/qrferry/protocol.ts: `RaptorQDecoder`, which collects the frames of one transfer. The decoder
-- of the library is an argument: what it makes of the sizes, and what it does with a packet.
pub mod Replay
mod Tests
use filenymous.Prelude.{
  ℕ, ◌+◌, ◌*◌, ◌/◌, ◌%◌, ◌^◌, min, Bool, true, false, not, Option, none, some, is_some, List, [],
  ◌∷◌, ◌++◌, ◌==◌, any, if◌then◌else◌, length, take,
}
use filenymous.Prelude.Bytes.{Bytes}
use filenymous.Optical.Checksum.{crc32}
use filenymous.Optical.Frames.{TransferMeta, Droplet}

-- The library's decoder: `create` and `push`, which returns the stream when it can be rebuilt.
pub record Solver (D : Type 0) : Type 0 where
  pub create : ℕ → ℕ → D
  pub push : D → Bytes → D × Option Bytes

pub record Receiver (D : Type 0) : Type 0 where
  pub meta : Option TransferMeta
  pub decoder : Option D
  pub seen : List ℕ
  pub solved_count : ℕ
  pub stream : Option Bytes

pub record ReceiveResult : Type 0 where
  pub accepted : Bool
  pub duplicate : Bool
  pub complete : Bool
  pub solved : ℕ
  pub total : ℕ

-- The exceptions of the receiver.
pub data ReceiveError : Type 0 where
  different_transfer waiting wrong_transfer not_initialized not_complete corrupt : ReceiveError

pub data Outcome {ℓ} (A : Type ℓ) : Type ℓ where
  ok : A → Outcome A
  err : ReceiveError → Outcome A

pub start : {D : Type 0} → Receiver D
start = record { meta = none; decoder = none; seen = []; solved_count = 0; stream = none }

pub total_of : Option TransferMeta → ℕ
total_of none = 0
total_of (some m) = m.total_packets

pub is_other : Option TransferMeta → TransferMeta → Bool
is_other none m = false
is_other (some cur) m = not (cur.session_id == m.session_id)

-- `setMeta` up to its `await`: whether the decoder is still to be made.
pub set_meta : {D : Type 0} → Receiver D → TransferMeta → Receiver D × Outcome Bool
set_meta r m =
    if is_other r.meta m
    then (r, err different_transfer)
    else (record r { meta = some m }, ok (not (is_some r.decoder)))

-- `setMeta` after its `await`: the decoder that was made.
pub attach : {D : Type 0} → Solver D → Receiver D → TransferMeta → Receiver D
attach solver r m = record r { decoder = some (solver.create m.transmitted_size m.symbol_size) }

-- The packet that is pushed: a header of 8 bytes, the payload and 4 bytes of zero.
pub packed_word : TransferMeta → ℕ
packed_word m = min m.total_packets 0xfff * 2 ^ 12 + 31 * 2 ^ 24 + 2 ^ 30

pub full_packet : TransferMeta → Bytes → Bytes
full_packet m payload =
    let word = packed_word m in
    let dl = m.transmitted_size in
    0x51
    ∷ word % 256
    ∷ word / 256 % 256
    ∷ word / 65536 % 256
    ∷ word / 16777216 % 256
    ∷ dl % 256
    ∷ dl / 256 % 256
    ∷ dl / 65536 % 256
    ∷ (payload ++ (0 ∷ 0 ∷ 0 ∷ 0 ∷ []))

pub has : ℕ → List ℕ → Bool
has n seen = any (λ k. k == n) seen

pub answer : {D : Type 0} → Receiver D → Bool → ReceiveResult
answer r accepted = record {
  accepted = accepted;
  duplicate = not accepted;
  complete = is_some r.stream;
  solved = r.solved_count;
  total = total_of r.meta;
}

-- What the library's answer changes, after the sequence was noted.
pub absorbed : {D : Type 0} → Receiver D → TransferMeta → D × Option Bytes → Receiver D
absorbed r m (d, none) = record r { decoder = some d; solved_count = length r.seen }
absorbed r m (d, some stream) = record r {
  decoder = some d;
  stream = some stream;
  solved_count = m.total_packets;
}

pub pushed :
    {D : Type 0}
    → Solver D
    → Receiver D
    → TransferMeta
    → Option D
    → Bytes
    → Receiver D × Outcome ReceiveResult
pushed solver r m none payload = (r, err not_initialized)
pushed solver r m (some d) payload =
    let r' = absorbed r m (solver.push d (full_packet m payload)) in (r', ok (answer r' true))

-- `this.seenSequences.add(sequence)`
pub noted : {D : Type 0} → Receiver D → ℕ → Receiver D
noted r n = record r { seen = n ∷ r.seen }

pub receive_with :
    {D : Type 0}
    → Solver D
    → Receiver D
    → Option TransferMeta
    → ℕ
    → Droplet
    → Receiver D × Outcome ReceiveResult
receive_with solver r none session_id f = (r, err waiting)
receive_with solver r (some m) session_id f =
    if not (m.session_id == session_id)
    then (r, err wrong_transfer)
    else if is_some r.stream
    then (r, ok (answer r false))
    else if has f.sequence r.seen
    then (r, ok (answer r false))
    else pushed solver (noted r f.sequence) m r.decoder f.payload

-- `receiveData`
pub receive_data :
    {D : Type 0} → Solver D → Receiver D → ℕ → Droplet → Receiver D × Outcome ReceiveResult
receive_data solver r session_id f = receive_with solver r r.meta session_id f

pub trimmed : TransferMeta → Bytes → Outcome Bytes
trimmed m stream =
    let cut = take m.transmitted_size stream in
    if crc32 cut == m.transmitted_crc32 then ok cut else err corrupt

-- `result`
pub result_of : Option TransferMeta → Option Bytes → Outcome Bytes
result_of (some m) (some stream) = trimmed m stream
result_of _ _ = err not_complete

pub result : {D : Type 0} → Receiver D → Outcome Bytes
result r = result_of r.meta r.stream
