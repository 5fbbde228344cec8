-- ===== src/P2p/Chunks.antt =====
-- ui/src/p2p/protocol.ts: the sealed chunks of a direct transfer. AES-GCM is the platform's: a record
-- of its two operations is an argument.
pub mod Sealing
pub mod Appending
mod Tests
use filenymous.Prelude.{
  ℕ, ◌+◌, ◌-◌, ◌*◌, ◌/◌, ◌%◌, ◌^◌, Bool, true, false, Option, none, some, List, [], ◌∷◌, ◌++◌, ltb,
  ◌==◌, if◌then◌else◌, length, take, drop,
}
use filenymous.Prelude.Bytes.{Bytes, u32_be, get_u32_be}
use filenymous.Prelude.Options.{◌>>=◌}

-- `encrypt` and `decrypt` with a nonce and additional data; none is the exception of a tag that does
-- not match.
pub record AesGcm (Key : Type 0) : Type 0 where
  pub encrypt : Key → Bytes → Bytes → Bytes → Bytes
  pub decrypt : Key → Bytes → Bytes → Bytes → Option Bytes

abbrev pub gcm_tag_bytes : ℕ
gcm_tag_bytes = 16

abbrev pub frame_header_bytes : ℕ
frame_header_bytes = 8

-- `frameIv`; a write of 32 bits keeps the value modulo 2^32, as `>>> 0` does.
unfoldable pub frame_iv : ℕ → ℕ → Bytes
frame_iv file_index chunk_index =
    u32_be file_index ++ (u32_be (chunk_index / 2 ^ 32) ++ u32_be chunk_index)

pub frame_header : ℕ → ℕ → Bytes
frame_header file_index chunk_index = u32_be file_index ++ u32_be chunk_index

pub record Chunk : Type 0 where
  pub file_index : ℕ
  pub chunk_index : ℕ
  pub plain : Bytes

-- The exceptions of `openChunk`.
pub data Opened : Type 0 where
  ok : Chunk → Opened
  short_frame not_authentic : Opened

module _ {Key : Type 0} (cipher : AesGcm Key) where
  pub seal_chunk : Key → Chunk → Bytes
  seal_chunk key c =
      frame_header c.file_index c.chunk_index
      ++ cipher.encrypt key (frame_iv c.file_index c.chunk_index)
          (frame_header c.file_index c.chunk_index) c.plain

  pub opened : ℕ → ℕ → Option Bytes → Opened
  opened file_index chunk_index none = not_authentic
  opened file_index chunk_index (some plain) =
      ok (record { file_index = file_index; chunk_index = chunk_index; plain = plain })

  -- The indices and the ciphertext, and the header as it stands.
  pub open_parts : Key → Bytes → Option (ℕ × ℕ × Bytes) → Opened
  open_parts key header none = short_frame
  open_parts key header (some (file_index, chunk_index, sealed)) =
      opened file_index chunk_index
        (cipher.decrypt key (frame_iv file_index chunk_index) header sealed)

  pub parts_of : Bytes → Option (ℕ × ℕ × Bytes)
  parts_of frame = do
    file_index ← get_u32_be frame
    chunk_index ← get_u32_be file_index.1
    some (file_index.0, chunk_index.0, chunk_index.1)

  pub open_chunk : Key → Bytes → Opened
  open_chunk key frame =
      if ltb (length frame) (frame_header_bytes + gcm_tag_bytes)
      then short_frame
      else open_parts key (take frame_header_bytes frame) (parts_of frame)

-- `size === 0 ? 0 : Math.ceil(size / chunkSize)`, of a size of chunks that is not 0
unfoldable pub chunk_count : ℕ → ℕ → ℕ
chunk_count size chunk_size = if size == 0 then 0 else (size + chunk_size - 1) / chunk_size
