-- ===== src/Optical/Source.antt =====
-- ui/src/qrferry/protocol.ts: the packets that are shown. The encoder of RaptorQ is a library; its
-- packets are an argument. So is the random session.
use filenymous.Prelude.{
  ℕ, ◌-◌, ◌%◌, Bool, Option, some, List, [], ◌∷◌, ◌++◌, map, Text, length, take, drop, get_elem?,
}
use filenymous.Prelude.Bytes.{Bytes}
use filenymous.Prelude.Options.{◌>>=◌}
use filenymous.Optical.Checksum.{crc32}
use filenymous.Optical.Frames.{KeyEncoding, TransferMeta, Droplet}

-- `pkt.slice(8, pkt.length - 4)`: without the packet's own header and checksum
pub symbol_of : Bytes → Bytes
symbol_of pkt = take (length pkt - 4 - 8) (drop 8 pkt)

pub record Encoded : Type 0 where
  pub packets : List Bytes
  pub symbol_size : ℕ
  pub total_packets : ℕ
  pub data_length : ℕ

-- `raptorQEncode`, from the packets of the library
pub raptor_q_encode : List Bytes → Bytes → ℕ → Encoded
raptor_q_encode raw_packets source max_symbol_size = record {
  packets = map symbol_of raw_packets;
  symbol_size = max_symbol_size;
  total_packets = length (map symbol_of raw_packets);
  data_length = length source;
}

pub record Options : Type 0 where
  pub filename : Text
  pub mime : Text
  pub file_size : ℕ
  pub file_crc32 : ℕ
  pub symbol_size : ℕ
  pub transmitted_size : ℕ
  pub key_encoding : KeyEncoding
  pub key_material : Bytes
  pub compressed : Bool

pub record TransferSource : Type 0 where
  pub meta : TransferMeta
  pub packets : List Bytes

pub joined : List Bytes → Bytes
joined [] = []
joined (p ∷ ps) = p ++ joined ps

pub create_transfer_source : ℕ → List Bytes → Options → TransferSource
create_transfer_source session_id packets o = record {
  meta = record {
    session_id = session_id;
    filename = o.filename;
    mime = o.mime;
    file_size = o.file_size;
    transmitted_size = o.transmitted_size;
    symbol_size = o.symbol_size;
    total_packets = length packets;
    file_crc32 = o.file_crc32;
    transmitted_crc32 = crc32 (joined packets);
    key_encoding = o.key_encoding;
    compressed = o.compressed;
    key_material = o.key_material;
  };
  packets = packets;
}

-- `getDroplet`; none is a droplet without a payload, of a source without packets.
pub get_droplet : TransferSource → ℕ → Option Droplet
get_droplet source sequence = do
  payload ← get_elem? source.packets (sequence % length source.packets)
  some (record { sequence = sequence; payload = payload })
