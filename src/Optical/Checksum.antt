-- ===== src/Optical/Checksum.antt =====
-- ui/src/qrferry/protocol.ts: the CRC32 of a frame. The table is the function that fills it.
use filenymous.Prelude.{
  ℕ, zero, suc, ◌+◌, ◌*◌, ◌/◌, ◌%◌, ◌^◌, ◌<◌, [], ◌∷◌, ◌==◌, if◌then◌else◌, arith,
}
use filenymous.Prelude.Bytes.{Bytes}

-- `a ^ b`, of so many bits
unfoldable pub xor : ℕ → ℕ → ℕ → ℕ
xor zero a b = 0
xor (suc bits) a b = (a + b) % 2 + 2 * xor bits (a / 2) (b / 2)

-- One round of the table: `(value & 1) !== 0 ? 0xedb88320 ^ (value >>> 1) : value >>> 1`
unfoldable pub shift : ℕ → ℕ
unfolding xor
shift value = if value % 2 == 1 then xor 32 0xedb88320 (value / 2) else value / 2

unfoldable pub shifts : ℕ → ℕ → ℕ
unfolding shift
shifts zero value = value
shifts (suc rounds) value = shifts rounds (shift value)

-- `table[n]`
unfoldable pub table_entry : ℕ → ℕ
unfolding shifts
table_entry n = shifts 8 n

-- `table[(crc ^ byte) & 0xff] ^ (crc >>> 8)`
unfoldable pub next_crc : ℕ → ℕ → ℕ
unfolding xor table_entry
next_crc crc byte = xor 32 (table_entry (xor 8 crc byte)) (crc / 256)

unfoldable pub crc_from : ℕ → Bytes → ℕ
unfolding next_crc
crc_from crc [] = crc
crc_from crc (byte ∷ bytes) = crc_from (next_crc crc byte) bytes

unfoldable pub crc32 : Bytes → ℕ
unfolding crc_from xor
crc32 bytes = xor 32 (crc_from 0xffffffff bytes) 0xffffffff

xor-bound : (bits a b : ℕ) → xor bits a b < 2 ^ bits
unfolding xor
xor-bound zero a b = omega arith
xor-bound (suc bits) a b = omega (arith, xor-bound bits (a / 2) (b / 2))

pub crc32-bound : (bytes : Bytes) → crc32 bytes < 2 ^ 32
unfolding crc32
crc32-bound bytes = xor-bound 32 (crc_from 0xffffffff bytes) 0xffffffff
