-- ===== src/Prelude/Bytes.antt =====
-- Bytes as natural numbers, and the integers that a `DataView` writes and reads. A write keeps the
-- value modulo the width, and a read past the end is an exception, here none.
use Prim.Native.Nat.{ℕ, ◌+◌, ◌*◌, ◌/◌, ◌%◌, ◌<◌, ◌^◌}
use mathlib.Core.Path.{◌≡◌, refl, ap}
use mathlib.Core.Option.{Option, none, some}
use mathlib.Core.List.{List, [], ◌∷◌, ◌++◌}
use native.Mathlib.Omega.{arith}
use filenymous.Prelude.Lists.{length, take, drop}

abbrev pub Bytes : Type 0
Bytes = List ℕ

-- A value that was read, and the bytes behind it.
abbrev pub Read : Type 0 → Type 0
Read A = Option (A × Bytes)

-- `setUint8`, `setUint16(…, true)` and `setUint32(…, true)`: the low byte first.
abbrev pub u8 : ℕ → Bytes
u8 n = n % 256 ∷ []

abbrev pub u16 : ℕ → Bytes
u16 n = n % 256 ∷ n / 256 % 256 ∷ []

abbrev pub u32 : ℕ → Bytes
u32 n = n % 256 ∷ n / 256 % 256 ∷ n / 65536 % 256 ∷ n / 16777216 % 256 ∷ []

-- `setUint32(…)`: the high byte first.
abbrev pub u32_be : ℕ → Bytes
u32_be n = n / 16777216 % 256 ∷ n / 65536 % 256 ∷ n / 256 % 256 ∷ n % 256 ∷ []

abbrev pub get_u8 : Bytes → Read ℕ
get_u8 [] = none
get_u8 (a ∷ rest) = some (a, rest)

abbrev pub get_u16 : Bytes → Read ℕ
get_u16 (a ∷ b ∷ rest) = some (a + 256 * b, rest)
get_u16 _ = none

abbrev pub get_u32 : Bytes → Read ℕ
get_u32 (a ∷ b ∷ c ∷ d ∷ rest) = some (a + 256 * b + 65536 * c + 16777216 * d, rest)
get_u32 _ = none

abbrev pub get_u32_be : Bytes → Read ℕ
get_u32_be (d ∷ c ∷ b ∷ a ∷ rest) = some (a + 256 * b + 65536 * c + 16777216 * d, rest)
get_u32_be _ = none

-- `subarray(offset, offset + n)` stops at the end.
abbrev pub get_bytes : ℕ → Bytes → Bytes × Bytes
get_bytes n bytes = (take n bytes, drop n bytes)

-- The value of what was written.
pub u8_value : (n : ℕ) → n < 256 → n % 256 ≡ n
u8_value n h = omega arith

pub u16_value : (n : ℕ) → n < 2 ^ 16 → n % 256 + 256 * (n / 256 % 256) ≡ n
u16_value n h = omega arith

pub u32_value :
    (n : ℕ)
    → n < 2 ^ 32
    → n % 256 + 256 * (n / 256 % 256) + 65536 * (n / 65536 % 256) + 16777216 * (n / 16777216 % 256)
      ≡ n
u32_value n h = omega arith

module _ {ℓ} {A : Type ℓ} where
  pub take-append : (xs ys : List A) → take (length xs) (xs ++ ys) ≡ xs
  take-append [] ys = refl
  take-append (x ∷ xs) ys = ap (λ zs. x ∷ zs) (take-append xs ys)

  pub drop-append : (xs ys : List A) → drop (length xs) (xs ++ ys) ≡ ys
  drop-append [] ys = refl
  drop-append (x ∷ xs) ys = drop-append xs ys
