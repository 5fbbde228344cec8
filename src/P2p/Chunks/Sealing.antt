-- ===== src/P2p/Chunks/Sealing.antt =====
-- What is sealed is opened, and no nonce is used for two chunks.
use filenymous.Prelude.{
  ℕ, ◌+◌, ◌/◌, ◌%◌, ◌^◌, ◌<◌, ◌≡◌, ap, ◌∙◌, sym, Option, some, ◌++◌, arith, length,
}
use mathlib.Core.Option.{some-injective}
use filenymous.Prelude.Bytes.{Bytes, u32_be, get_u32_be, u32_value}
use filenymous.Prelude.Options.{◌>>=◌}
use filenymous.P2p.Chunks.{
  AesGcm, gcm_tag_bytes, frame_iv, frame_header, Chunk, ok, seal_chunk, opened, open_parts,
  parts_of, open_chunk,
}

-- What the platform documents: a ciphertext is decrypted under the key, the nonce and the additional
-- data of its encryption, and is longer than the text by the tag.
pub record IsAuthenticated {Key : Type 0} (cipher : AesGcm Key) : Type 0 where
  pub decrypts :
      (key : Key) (iv header plain : Bytes)
      → cipher.decrypt key iv header (cipher.encrypt key iv header plain) ≡ some plain
  pub tagged :
      (key : Key) (iv header plain : Bytes)
      → length (cipher.encrypt key iv header plain) ≡ length plain + gcm_tag_bytes

module _ {Key : Type 0} (cipher : AesGcm Key) (law : IsAuthenticated cipher) (key : Key) (c : Chunk)
    (hf : c.file_index < 2 ^ 32) (hc : c.chunk_index < 2 ^ 32) where
  -- A sealed chunk, whatever it holds, is opened to its bytes and its place under the same key, when
  -- both indices fit their 32 bits.
  pub open_chunk-seal_chunk : open_chunk cipher key (seal_chunk cipher key c) ≡ ok c
  unfolding open_chunk seal_chunk frame_header parts_of open_parts opened
  open_chunk-seal_chunk =
      let sealed =
        cipher.encrypt key (frame_iv c.file_index c.chunk_index)
          (u32_be c.file_index ++ u32_be c.chunk_index) c.plain in
      let long =
        law.tagged key (frame_iv c.file_index c.chunk_index)
          (u32_be c.file_index ++ u32_be c.chunk_index) c.plain in
      rw
        (
          u32_value c.file_index hf,
          u32_value c.chunk_index hc,
          law.decrypts key (frame_iv c.file_index c.chunk_index)
              (u32_be c.file_index ++ u32_be c.chunk_index) c.plain,
        )
        (ground (arith, long))

-- The three integers of a nonce.
words_of : Bytes → Option (ℕ × ℕ × ℕ)
words_of iv = do a ← get_u32_be iv; b ← get_u32_be a.1; c ← get_u32_be b.1; some (a.0, b.0, c.0)

words_of-frame_iv :
    (f c : ℕ) → f < 2 ^ 32 → c < 2 ^ 53 → words_of (frame_iv f c) ≡ some (f, c / 2 ^ 32, c % 2 ^ 32)
unfolding words_of frame_iv
words_of-frame_iv f c hf hc =
    rw (u32_value f hf, u32_value (c / 2 ^ 32) (omega arith))
      (ap (λ (n : ℕ). some (f, c / 2 ^ 32, n)) (omega arith))

-- Two different chunks of a transfer, whose file index fits 32 bits and whose chunk index is a safe
-- integer, are never sealed with the same nonce: from equal nonces follows the same file and the same
-- chunk.
pub frame_iv_unique :
    (f c f' c' : ℕ)
    → f < 2 ^ 32
    → c < 2 ^ 53
    → f' < 2 ^ 32
    → c' < 2 ^ 53
    → frame_iv f c ≡ frame_iv f' c'
    → (f ≡ f') × (c ≡ c')
frame_iv_unique f c f' c' hf hc hf' hc' e =
    let words =
      some-injective _ _
        (sym (words_of-frame_iv f c hf hc) ∙ ap words_of e ∙ words_of-frame_iv f' c' hf' hc') in
    let high = ap (λ (t : ℕ × ℕ × ℕ). t.1) words in
    let low = ap (λ (t : ℕ × ℕ × ℕ). t.2) words in
    (ap (λ (t : ℕ × ℕ × ℕ). t.0) words, omega (arith, high, low))
