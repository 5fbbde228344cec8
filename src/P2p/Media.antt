-- ===== src/P2p/Media.antt =====
-- ui/src/p2p/media.ts: the range of bytes that a header asks for, and from a range of bytes to a range
-- of chunks, of the size that every caller takes.
pub mod Ranges
mod Tests
use filenymous.Prelude.{
  ℕ, zero, suc, ◌+◌, ◌-◌, ◌*◌, ◌/◌, ◌%◌, min, Bool, true, false, ◌&&◌, ◌||◌, Option, none, some, [],
  ◌∷◌, leb, ltb, ◌==◌, Text, codes, text_eq, if◌then◌else◌,
}
use filenymous.Prelude.Options.{◌>>=◌}
use filenymous.Wall.Collab.{after_prefix, is_digit}
use filenymous.Prelude.Json.{ℤ, pos, negsuc}

abbrev pub p2p_chunk_size : ℕ
p2p_chunk_size = 64 * 1024

-- `Math.max(0, n)`
unfoldable pub max_zero : ℤ → ℕ
max_zero (pos n) = n
max_zero (negsuc n) = 0

unfoldable pub larger : ℕ → ℕ → ℕ
larger a b = if ltb a b then b else a

-- `chunksForRange`, with `from` and `to`; `Math.max(s, end)` is that of s and `Math.max(0, end)`, since
-- s is not negative.
unfoldable pub chunks_for_range : ℤ → ℤ → ℕ → ℕ × ℕ
unfolding max_zero larger
chunks_for_range start end size =
    let last : ℕ = size - 1 in
    let s : ℕ = min (max_zero start) last in
    let e : ℕ = min (larger s (max_zero end)) last in (s / p2p_chunk_size, e / p2p_chunk_size)

pub record ByteRange : Type 0 where
  pub start : ℕ
  pub end : ℤ

-- `size - 1`
pub last_byte : ℕ → ℤ
last_byte zero = negsuc 0
last_byte (suc n) = pos n

-- `\d*`, and what is behind it
pub split_digits : Text → Text × Text
unfolding is_digit
split_digits [] = ([], [])
split_digits (c ∷ s) =
    let rest = split_digits s in if is_digit c then (c ∷ rest.0, rest.1) else ([], c ∷ s)

-- `Number(s)` of digits
pub number_from : ℕ → Text → ℕ
number_from n [] = n
number_from n (c ∷ s) = number_from (n * 10 + (c - 48)) s

-- `-(\d*)$`
pub end_digits : Text → Option Text
end_digits [] = none
end_digits (c ∷ s) =
    let last = split_digits s in if c == b'-' && text_eq last.1 [] then some last.0 else none

-- `start > end || start >= size`
pub in_file : ℕ → ℕ → ℕ → Option ByteRange
in_file size start end =
    if ltb end start || leb size start then none else some (record { start = start; end = pos end })

-- The digits on both sides of the dash. An empty file has no last byte, and no range.
pub range_of : ℕ → Text → Text → Option ByteRange
range_of zero first last = none
range_of (suc n) [] [] = none
range_of (suc n) [] (c ∷ last) = in_file (suc n) (suc n - number_from 0 (c ∷ last)) n
range_of (suc n) (c ∷ first) [] = in_file (suc n) (number_from 0 (c ∷ first)) n
range_of (suc n) (c ∷ first) (d ∷ last) =
    in_file (suc n) (number_from 0 (c ∷ first)) (min (number_from 0 (d ∷ last)) n)

-- `/^bytes=(\d*)-(\d*)$/`
pub matched_range : ℕ → Option Text → Option ByteRange
matched_range size none = none
matched_range size (some s) =
    let first = split_digits s in do last ← end_digits first.1; range_of size first.0 last

-- `parseRange`: no header, or an empty one, asks for the whole file.
pub parse_range : Option Text → ℕ → Option ByteRange
parse_range none size = some (record { start = 0; end = last_byte size })
parse_range (some []) size = some (record { start = 0; end = last_byte size })
parse_range (some (c ∷ s)) size = matched_range size (after_prefix (codes "bytes=") (c ∷ s))
