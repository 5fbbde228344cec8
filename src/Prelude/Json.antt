-- ===== src/Prelude/Json.antt =====
-- Values of type `unknown`: what `JSON.parse` can return, and `undefined` for a property that is not
-- there.
use filenymous.Prelude.Tests.{◌==◌, leb, ltb, if◌then◌else◌}
use filenymous.Prelude.Lists.{length}
use filenymous.Prelude.Strings.{Text, text_eq}
use Prim.Native.Nat.{zero, suc, ◌+◌, ◌/◌, ℕ, ◌-◌, ◌^◌, ◌≤◌}
use mathlib.Core.Path.{◌≡◌}
use mathlib.Core.Bool.{Bool, true, false, not, ◌&&◌, ◌||◌}
use mathlib.Core.Option.{Option, none, some}
use mathlib.Core.List.{[], ◌∷◌}
use native.Mathlib.Omega.{arith}

-- `negsuc n` is -(n + 1).
pub data ℤ : Type 0 where
  pos : ℕ → ℤ
  negsuc : ℕ → ℤ

-- `a < b`
unfoldable pub lt_ℤ : ℤ → ℤ → Bool
lt_ℤ (pos a) (pos b) = ltb a b
lt_ℤ (pos a) (negsuc b) = false
lt_ℤ (negsuc a) (pos b) = true
lt_ℤ (negsuc a) (negsuc b) = ltb b a

-- An integer, another finite number by its text, or NaN and the infinities.
pub data Number : Type 0 where
  integer : ℤ → Number
  decimal : Text → Number
  nonfinite : Number

mutual
  pub data Json : Type 0 where
    undefined null : Json
    boolean : Bool → Json
    number : Number → Json
    string : Text → Json
    array : Items → Json
    object : Fields → Json

  pub data Items : Type 0 where
    nil : Items
    cons : Json → Items → Items

  pub data Fields : Type 0 where
    end : Fields
    with_field : Text → Json → Fields → Fields

abbrev pub max_safe_integer : ℕ
max_safe_integer = 2 ^ 53 - 1

-- `int(v, min)`, with the number that passes.
unfoldable pub int : ℕ → Json → Option ℕ
int least (number (integer (pos n))) =
    if leb least n && leb n max_safe_integer then some n else none
int least _ = none

-- `Number.isSafeInteger(v)`, with the number that passes.
unfoldable pub safe_integer : Json → Option ℤ
safe_integer (number (integer (pos n))) = if leb n max_safe_integer then some (pos n) else none
safe_integer (number (integer (negsuc n))) =
    if ltb n max_safe_integer then some (negsuc n) else none
safe_integer _ = none

-- `typeof v === "boolean"` and `typeof v === "string"`, with the value.
unfoldable pub as_boolean : Json → Option Bool
as_boolean (boolean b) = some b
as_boolean _ = none

unfoldable pub as_string : Json → Option Text
as_string (string s) = some s
as_string _ = none

unfoldable pub find : Text → Fields → Json
find k end = undefined
find k (with_field j v fs) = let rest = find k fs in if text_eq j k then v else rest

-- `v && typeof v === "object"`, with the properties: an array has none of those that are read.
unfoldable pub as_object : Json → Option Fields
as_object (object fs) = some fs
as_object (array xs) = some end
as_object _ = none

-- `v ?? w`
unfoldable pub or_else : Json → Json → Json
or_else undefined w = w
or_else null w = w
or_else v w = v

pub int_bounds :
    (least : ℕ) (v : Json) {n : ℕ} → int least v ≡ some n → (least ≤ n) × (n ≤ max_safe_integer)
unfolding int
int_bounds least (number (integer (pos n))) h = ground arith
int_bounds least (number (integer (negsuc n))) h = ground arith
int_bounds least (number (decimal t)) h = ground arith
int_bounds least (number nonfinite) h = ground arith
int_bounds least undefined h = ground arith
int_bounds least null h = ground arith
int_bounds least (boolean b) h = ground arith
int_bounds least (string s) h = ground arith
int_bounds least (array xs) h = ground arith
int_bounds least (object fs) h = ground arith

-- The digits of a number in decimal; the number itself is fuel enough, since a tenth is less.
decimal_length : ℕ → ℕ → ℕ
decimal_length zero n = 1
decimal_length (suc fuel) n =
    let rest = decimal_length fuel (n / 10) in if ltb n 10 then 1 else suc rest

number_length : Number → ℕ
unfolding decimal_length
number_length (integer (pos n)) = decimal_length n n
number_length (integer (negsuc n)) = suc (decimal_length (suc n) (suc n))
number_length (decimal t) = length t
number_length nonfinite = 4

unfoldable pub is_high : ℕ → Bool
is_high c = leb 0xd800 c && ltb c 0xdc00

unfoldable pub is_low : ℕ → Bool
is_low c = leb 0xdc00 c && ltb c 0xe000

starts_low : Text → Bool
unfolding is_low
starts_low [] = false
starts_low (c ∷ s) = is_low c

-- The length of one unit in a JSON string: some are escaped by two units, and other controls and lone
-- surrogates by six.
unit_length : Bool → ℕ → Bool → ℕ
unfolding is_high is_low
unit_length after_high c before_low =
    if c == 0x22 || c == 0x5c || c == 8 || c == 9 || c == 10 || c == 12 || c == 13
    then 2
    else if ltb c 0x20 || (is_high c && not before_low) || (is_low c && not after_high)
    then 6
    else 1

text_length_from : Bool → Text → ℕ
unfolding unit_length starts_low
text_length_from after_high [] = 0
text_length_from after_high (c ∷ s) =
    unit_length after_high c (starts_low s) + text_length_from (is_high c) s

text_length : Text → ℕ
unfolding text_length_from
text_length s = 2 + text_length_from false s

is_undefined : Json → Bool
is_undefined undefined = true
is_undefined _ = false

-- The length of one property that is there, with a comma or the brace behind it.
field_length : Text → Json → ℕ → ℕ
unfolding text_length is_undefined
field_length k v n = if is_undefined v then 0 else text_length k + 1 + n + 1

-- `max(1, n)`: the closing bracket of a list with nothing in it
or_one : ℕ → ℕ
or_one zero = 1
or_one (suc n) = suc n

-- `JSON.stringify(v).length`. A property that is undefined is left out; an undefined item is `null`.
unfoldable mutual
  unfolding number_length text_length field_length or_one

  pub json_length : Json → ℕ
  json_length undefined = 4
  json_length null = 4
  json_length (boolean b) = if b then 4 else 5
  json_length (number n) = number_length n
  json_length (string s) = text_length s
  json_length (array xs) = 1 + or_one (items_length xs)
  json_length (object fs) = 1 + or_one (fields_length fs)

  -- The items, with a comma or the bracket behind each.
  pub items_length : Items → ℕ
  items_length nil = 0
  items_length (cons v xs) = json_length v + 1 + items_length xs

  pub fields_length : Fields → ℕ
  fields_length end = 0
  fields_length (with_field k v fs) = field_length k v (json_length v) + fields_length fs
