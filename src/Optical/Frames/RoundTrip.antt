-- ===== src/Optical/Frames/RoundTrip.antt =====
-- What one side encodes, the other decodes.
use filenymous.Prelude.{
  ℕ, zero, suc, ◌+◌, ◌-◌, ◌%◌, ◌^◌, ◌<◌, ◌≤◌, ◌≡◌, refl, ap, ◌∙◌, Bool, true, false, some, [], ◌∷◌,
  ◌++◌, ==_iff, arith, Text, length, length-append, take, drop,
}
use mathlib.Core.List.{append_assoc}
use filenymous.Prelude.Bytes.{
  Bytes, u32, get_u32, u8_value, u16_value, u32_value, take-append, drop-append,
}
use filenymous.Optical.Checksum.{crc32, crc32-bound}
use filenymous.Optical.Frames.{
  KeyEncoding, inline, wrapped, TransferMeta, Droplet, ok, data_frame, descriptor, Header, key_flag,
  flags_of, common_header, finalize, sizes, counted, descriptor_body, encode_descriptor,
  encode_data_frame, read_header, after_magic, get_counted, key_of, is_compressed, read_meta,
  checked_meta, read_data, checked_data, read_frame, read_typed, read_magic, is_sound, decode_frame,
  is_checksum_of,
}

length-finalize : (body : Bytes) → length (finalize body) ≡ length body + 4
unfolding finalize
length-finalize body = length-append body (u32 (crc32 body))

cut_body : (body : Bytes) → take (length (finalize body) - 4) (finalize body) ≡ body
unfolding finalize
cut_body body =
    ap (λ n. take n (body ++ u32 (crc32 body)))
      (omega (arith, length-append body (u32 (crc32 body))))
    ∙ take-append body (u32 (crc32 body))

cut_trailer : (body : Bytes) → drop (length (finalize body) - 4) (finalize body) ≡ u32 (crc32 body)
unfolding finalize
cut_trailer body =
    ap (λ n. drop n (body ++ u32 (crc32 body)))
      (omega (arith, length-append body (u32 (crc32 body))))
    ∙ drop-append body (u32 (crc32 body))

is_sound-finalize : (body : Bytes) → is_sound (finalize body) ≡ true
unfolding is_sound is_checksum_of
is_sound-finalize body =
    ap (λ b. is_checksum_of b (get_u32 (drop (length (finalize body) - 4) (finalize body))))
      (cut_body body)
    ∙ ap (λ t. is_checksum_of body (get_u32 t)) (cut_trailer body)
    ∙ (==_iff _ (crc32 body)).1 (u32_value (crc32 body) (crc32-bound body))

-- A frame that is long enough and ends in its checksum is read behind its magic.
decode_frame-finalize :
    (decode : Bytes → Text) (body : Bytes)
    → 10 ≤ length body
    → decode_frame decode (finalize body) ≡ read_magic decode (after_magic (finalize body))
unfolding decode_frame
decode_frame-finalize decode body h =
    rw (is_sound-finalize body) (ground (arith, length-finalize body))

payload_back :
    (p t : Bytes)
    → length t ≡ 4
    → take (suc (suc (suc (suc (length (p ++ t))))) - 4 - 4) (p ++ t) ≡ p
payload_back p t h = ap (λ n. take n (p ++ t)) (omega (arith, length-append p t)) ∙ take-append p t

-- A frame of data whose session and sequence number each fit 32 bits comes back as it was sent,
-- whatever its payload is.
pub data_frame_back :
    (decode : Bytes → Text) (session_id : ℕ) (d : Droplet)
    → session_id < 2 ^ 32
    → d.sequence < 2 ^ 32
    → decode_frame decode (encode_data_frame session_id d) ≡ ok (data_frame session_id d)
unfolding encode_data_frame common_header finalize after_magic read_magic read_header read_typed
    read_frame read_data checked_data
data_frame_back decode session_id d hs hq =
    let body = common_header 1 0 session_id ++ (u32 d.sequence ++ d.payload) in
    decode_frame-finalize decode body (omega arith)
    ∙ rw
        (
          u32_value session_id hs,
          u32_value d.sequence hq,
          payload_back d.payload (u32 (crc32 body)) refl,
        )
        refl

-- A description of a transfer that a descriptor can carry, with names that the platform encodes and
-- decodes.
pub record IsSendable (encode : Text → Bytes) (decode : Bytes → Text) (m : TransferMeta)
    : Type 0 where
  pub session : m.session_id < 2 ^ 32
  pub file : m.file_size < 2 ^ 32
  pub stream : m.transmitted_size < 2 ^ 32
  pub symbols : (16 ≤ m.symbol_size) × (m.symbol_size < 2 ^ 16)
  pub packets : (1 ≤ m.total_packets) × (m.total_packets < 2 ^ 32)
  pub sums : (m.file_crc32 < 2 ^ 32) × (m.transmitted_crc32 < 2 ^ 32)
  pub name : (length (encode m.filename) ≤ 255) × (decode (encode m.filename) ≡ m.filename)
  pub mime : (length (encode m.mime) ≤ 255) × (decode (encode m.mime) ≡ m.mime)
  pub key : length m.key_material ≤ 255

take_all : (n : ℕ) (xs : Bytes) → length xs ≤ n → take n xs ≡ xs
take_all zero [] h = refl
take_all zero (x ∷ xs) h = ground arith
take_all (suc n) [] h = refl
take_all (suc n) (x ∷ xs) h = ap (λ ys. x ∷ ys) (take_all n xs (omega arith))

counted-append :
    (bytes rest tail : Bytes) → counted bytes rest ++ tail ≡ counted bytes (rest ++ tail)
unfolding counted
counted-append bytes rest tail = ap (λ ws. length bytes % 256 ∷ ws) (append_assoc bytes rest tail)

counted_back :
    (bytes rest : Bytes)
    → length bytes ≤ 255
    → get_counted (counted bytes rest) ≡ some (bytes, rest)
unfolding get_counted counted
counted_back bytes rest h =
    rw (u8_value (length bytes) (omega arith), take-append bytes rest, drop-append bytes rest) refl

descriptor_body-append :
    (encode : Text → Bytes) (m : TransferMeta) (tail : Bytes)
    → descriptor_body encode m [] ++ tail ≡ descriptor_body encode m tail
unfolding descriptor_body sizes
descriptor_body-append encode m tail =
    let name = take 255 (encode m.filename) in
    let mime = take 255 (encode m.mime) in
    ap (λ ws. sizes m ws)
      (counted-append name (counted mime (counted m.key_material [])) tail
        ∙ ap (λ ws. counted name ws)
            (counted-append mime (counted m.key_material []) tail
              ∙ ap (λ ws. counted mime ws) (counted-append m.key_material [] tail)))

flags_key : (key : KeyEncoding) (c : Bool) → key_of (flags_of key c % 256) ≡ key
unfolding key_of flags_of key_flag
flags_key inline true = refl
flags_key inline false = refl
flags_key wrapped true = refl
flags_key wrapped false = refl

flags_compressed : (key : KeyEncoding) (c : Bool) → is_compressed (flags_of key c % 256) ≡ c
unfolding is_compressed flags_of key_flag
flags_compressed inline true = refl
flags_compressed inline false = refl
flags_compressed wrapped true = refl
flags_compressed wrapped false = refl

module _ (encode : Text → Bytes) (decode : Bytes → Text) (m : TransferMeta)
    (h : IsSendable encode decode m) where
  -- The header of the descriptor, with what stands behind it.
  header_with : Bytes → Header
  header_with rest = record {
    type = 0;
    flags = flags_of m.key_encoding m.compressed % 256;
    session_id = m.session_id;
    rest = rest;
  }

  read_meta_back :
      (tail : Bytes) → read_meta decode (header_with (descriptor_body encode m tail)) ≡ some m
  unfolding read_meta header_with descriptor_body sizes
  read_meta_back tail =
      rw
        (
          take_all 255 (encode m.filename) h.name.0,
          take_all 255 (encode m.mime) h.mime.0,
          u32_value m.file_size h.file,
          u32_value m.transmitted_size h.stream,
          u16_value m.symbol_size h.symbols.1,
          u32_value m.total_packets h.packets.1,
          u32_value m.file_crc32 h.sums.0,
          u32_value m.transmitted_crc32 h.sums.1,
          counted_back (encode m.filename) _ h.name.0,
          counted_back (encode m.mime) _ h.mime.0,
          counted_back m.key_material tail h.key,
          h.name.1,
          h.mime.1,
          flags_key m.key_encoding m.compressed,
          flags_compressed m.key_encoding m.compressed,
        )
        refl

  checked_meta_back : checked_meta (some m) ≡ ok (descriptor m)
  unfolding checked_meta
  checked_meta_back = ground (arith, h.symbols.0, h.packets.0)

  -- A descriptor comes back as it was sent, when its numbers fit their fields, its names take at most
  -- 255 bytes and are decoded to what was encoded, its key has at most 255 bytes, symbols have at
  -- least 16 bytes and there is a packet.
  pub descriptor_back : decode_frame decode (encode_descriptor encode m) ≡ ok (descriptor m)
  unfolding encode_descriptor common_header finalize after_magic read_magic read_header read_typed
      read_frame header_with
  descriptor_back =
      let body =
        common_header 0 (flags_of m.key_encoding m.compressed) m.session_id
        ++ descriptor_body encode m [] in
      let tail = u32 (crc32 body) in
      decode_frame-finalize decode body (omega arith)
      ∙ rw (u32_value m.session_id h.session, descriptor_body-append encode m tail)
          (ap checked_meta (read_meta_back tail) ∙ checked_meta_back)
