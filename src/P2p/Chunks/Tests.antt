-- ===== src/P2p/Chunks/Tests.antt =====
-- Sealed chunks on concrete inputs.
use filenymous.Prelude.{ℕ, ◌+◌, ◌^◌, ◌≡◌, refl, [], ◌∷◌, arith}
use filenymous.P2p.Chunks.{Chunk, chunk_count}
use filenymous.P2p.Chunks.Sealing.{frame_iv_unique}

abbrev chunk : Chunk
chunk = record { file_index = 1; chunk_index = 70000; plain = 9 ∷ 8 ∷ [] }

abbrev file : ℕ
file = 1

abbrev far : ℕ
far = 2 ^ 32 + 7

frame_iv_unique_example : (file ≡ file) × (far ≡ far)
frame_iv_unique_example =
    frame_iv_unique file far file far (omega arith) (omega arith) (omega arith) (omega arith) refl

last_chunk_part : chunk_count 65537 65536 ≡ 2
unfolding chunk_count
last_chunk_part = refl
