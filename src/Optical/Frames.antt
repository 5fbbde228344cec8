-- ===== src/Optical/Frames.antt =====
-- ui/src/qrferry/protocol.ts: the frames of an optical transfer. The platform's `TextEncoder` and
-- `TextDecoder` are arguments.
pub mod RoundTrip
mod Tests
use filenymous.Prelude.{
  ℕ, ◌+◌, ◌-◌, ◌*◌, ◌/◌, ◌%◌, Bool, true, false, ◌||◌, not, Option, none, some, List, [], ◌∷◌, ◌++◌,
  ltb, ◌==◌, if◌then◌else◌, Text, length, take, drop,
}
use filenymous.Prelude.Bytes.{Bytes, u8, u16, u32, get_u8, get_u16, get_u32}
use filenymous.Prelude.Options.{◌>>=◌}
use filenymous.Optical.Checksum.{crc32}

pub data KeyEncoding : Type 0 where
  inline wrapped : KeyEncoding

pub record TransferMeta : Type 0 where
  pub session_id : ℕ
  pub filename : Text
  pub mime : Text
  pub file_size : ℕ
  pub transmitted_size : ℕ
  pub symbol_size : ℕ
  pub total_packets : ℕ
  pub file_crc32 : ℕ
  pub transmitted_crc32 : ℕ
  pub key_encoding : KeyEncoding
  pub compressed : Bool
  pub key_material : Bytes

pub record Droplet : Type 0 where
  pub sequence : ℕ
  pub payload : Bytes

pub data DecodedFrame : Type 0 where
  descriptor : TransferMeta → DecodedFrame
  data_frame : ℕ → Droplet → DecodedFrame

-- The exceptions of `decodeFrame`; the last one is that of a read past the end.
pub data FrameError : Type 0 where
  truncated bad_checksum not_optical invalid_descriptor unknown_type out_of_range : FrameError

pub data Decoded : Type 0 where
  ok : DecodedFrame → Decoded
  err : FrameError → Decoded

-- "FNQR"
abbrev pub magic : Bytes
magic = 0x46 ∷ 0x4e ∷ 0x51 ∷ 0x52 ∷ []

pub key_flag : KeyEncoding → ℕ
key_flag inline = 1
key_flag wrapped = 2

-- The bits of the key and of the compression are apart, so that `|` is a sum.
pub flags_of : KeyEncoding → Bool → ℕ
flags_of key compressed = key_flag key + (if compressed then 4 else 0)

-- `writeCommonHeader`
pub common_header : ℕ → ℕ → ℕ → Bytes
common_header type flags session_id = magic ++ (u8 type ++ (u8 flags ++ u32 session_id))

-- `finalize`: the checksum of all that is before it.
pub finalize : Bytes → Bytes
finalize body = body ++ u32 (crc32 body)

pub sizes : TransferMeta → Bytes → Bytes
sizes m rest =
    u32 m.file_size
    ++ (u32 m.transmitted_size
        ++ (u16 m.symbol_size
            ++ (u32 m.total_packets ++ (u32 m.file_crc32 ++ (u32 m.transmitted_crc32 ++ rest)))))

-- A length in one byte, and the bytes.
pub counted : Bytes → Bytes → Bytes
counted bytes rest = u8 (length bytes) ++ (bytes ++ rest)

pub descriptor_body : (Text → Bytes) → TransferMeta → Bytes → Bytes
descriptor_body encode m rest = sizes m (
    counted (take 255 (encode m.filename))
      (counted (take 255 (encode m.mime)) (counted m.key_material rest)))

pub encode_descriptor : (Text → Bytes) → TransferMeta → Bytes
encode_descriptor encode m = finalize (
    common_header 0 (flags_of m.key_encoding m.compressed) m.session_id
    ++ descriptor_body encode m [])

pub encode_data_frame : ℕ → Droplet → Bytes
encode_data_frame session_id d =
    finalize (common_header 1 0 session_id ++ (u32 d.sequence ++ d.payload))

-- What the first ten bytes say.
pub record Header : Type 0 where
  pub type : ℕ
  pub flags : ℕ
  pub session_id : ℕ
  pub rest : Bytes

pub read_header : Bytes → Option Header
read_header bytes = do
  type ← get_u8 bytes
  flags ← get_u8 type.1
  session_id ← get_u32 flags.1
  some (record { type = type.0; flags = flags.0; session_id = session_id.0; rest = session_id.1 })

-- The bytes behind the magic, if it is there.
pub after_magic : Bytes → Option Bytes
after_magic (a ∷ b ∷ c ∷ d ∷ rest) =
    if a == 0x46
    then if b == 0x4e
      then if c == 0x51 then if d == 0x52 then some rest else none else none
      else none
    else none
after_magic _ = none

-- A length in one byte, and so many bytes or those that are left.
pub get_counted : Bytes → Option (Bytes × Bytes)
get_counted bytes = do n ← get_u8 bytes; some (take n.0 n.1, drop n.0 n.1)

pub key_of : ℕ → KeyEncoding
key_of flags = if flags % 2 == 1 then inline else wrapped

pub is_compressed : ℕ → Bool
is_compressed flags = flags / 4 % 2 == 1

pub read_meta : (Bytes → Text) → Header → Option TransferMeta
read_meta decode h = do
  file_size ← get_u32 h.rest
  transmitted_size ← get_u32 file_size.1
  symbol_size ← get_u16 transmitted_size.1
  total_packets ← get_u32 symbol_size.1
  file_crc32 ← get_u32 total_packets.1
  transmitted_crc32 ← get_u32 file_crc32.1
  name ← get_counted transmitted_crc32.1
  mime ← get_counted name.1
  key ← get_counted mime.1
  some (record {
    session_id = h.session_id;
    filename = decode name.0;
    mime = decode mime.0;
    file_size = file_size.0;
    transmitted_size = transmitted_size.0;
    symbol_size = symbol_size.0;
    total_packets = total_packets.0;
    file_crc32 = file_crc32.0;
    transmitted_crc32 = transmitted_crc32.0;
    key_encoding = key_of h.flags;
    compressed = is_compressed h.flags;
    key_material = key.0;
  })

pub checked_meta : Option TransferMeta → Decoded
checked_meta none = err out_of_range
checked_meta (some m) =
    if ltb m.symbol_size 16 || ltb m.total_packets 1
    then err invalid_descriptor
    else ok (descriptor m)

-- `payload` ends where the checksum starts, also when the sequence was read from the checksum.
pub read_data : ℕ → Bytes → Option DecodedFrame
read_data session_id rest = do
  sequence ← get_u32 rest
  some (
      data_frame session_id
        (record { sequence = sequence.0; payload = take (length rest - 4 - 4) sequence.1 }))

pub checked_data : Option DecodedFrame → Decoded
checked_data none = err out_of_range
checked_data (some f) = ok f

pub read_frame : (Bytes → Text) → Header → Decoded
read_frame decode h =
    if h.type == 0
    then checked_meta (read_meta decode h)
    else if h.type == 1
    then checked_data (read_data h.session_id h.rest)
    else err unknown_type

pub read_typed : (Bytes → Text) → Option Header → Decoded
read_typed decode none = err out_of_range
read_typed decode (some h) = read_frame decode h

pub read_magic : (Bytes → Text) → Option Bytes → Decoded
read_magic decode none = err not_optical
read_magic decode (some rest) = read_typed decode (read_header rest)

pub is_checksum_of : Bytes → Option (ℕ × Bytes) → Bool
is_checksum_of body none = false
is_checksum_of body (some (expected, rest)) = expected == crc32 body

-- The checksum at the end is that of the bytes before.
pub is_sound : Bytes → Bool
is_sound packet =
    is_checksum_of (take (length packet - 4) packet) (get_u32 (drop (length packet - 4) packet))

pub decode_frame : (Bytes → Text) → Bytes → Decoded
decode_frame decode packet =
    if ltb (length packet) 14
    then err truncated
    else if is_sound packet
    then read_magic decode (after_magic packet)
    else err bad_checksum
