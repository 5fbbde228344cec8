-- ===== src/Optical/Frames/Tests.antt =====
-- Frames on concrete inputs.
use filenymous.Prelude.{◌≡◌, refl, true, arith, [], ◌∷◌, Text, codes}
use filenymous.Prelude.Bytes.{Bytes}
use filenymous.Optical.Checksum.{crc32}
use filenymous.Optical.Frames.{
  TransferMeta, inline, Droplet, ok, data_frame, descriptor, encode_data_frame, encode_descriptor,
  decode_frame,
}
use filenymous.Optical.Frames.RoundTrip.{data_frame_back, IsSendable, descriptor_back}

abbrev plain : Text → Bytes
plain s = s

-- The check value of the CRC-32 of zip and PNG.
check_value : crc32 (codes "123456789") ≡ 0xcbf43926
unfolding crc32
check_value = refl

abbrev droplet : Droplet
droplet = record { sequence = 70000; payload = 1 ∷ 2 ∷ 3 ∷ [] }

data_frame_back_example :
    decode_frame plain (encode_data_frame 5 droplet) ≡ ok (data_frame 5 droplet)
data_frame_back_example = data_frame_back plain 5 droplet (omega arith) (omega arith)

abbrev meta : TransferMeta
meta = record {
  session_id = 3;
  filename = codes "a.txt";
  mime = codes "text/plain";
  file_size = 1000;
  transmitted_size = 1016;
  symbol_size = 512;
  total_packets = 3;
  file_crc32 = 7;
  transmitted_crc32 = 8;
  key_encoding = inline;
  compressed = true;
  key_material = 1 ∷ 2 ∷ [];
}

meta-IsSendable : IsSendable plain plain meta
meta-IsSendable = record {
  session = omega arith;
  file = omega arith;
  stream = omega arith;
  symbols = (omega arith, omega arith);
  packets = (omega arith, omega arith);
  sums = (omega arith, omega arith);
  name = (omega arith, refl);
  mime = (omega arith, refl);
  key = omega arith;
}

descriptor_back_example : decode_frame plain (encode_descriptor plain meta) ≡ ok (descriptor meta)
descriptor_back_example = descriptor_back plain plain meta meta-IsSendable
