-- ===== src/Optical/Bundle.antt =====
-- ui/src/qrferry/bundle.ts: several files in one. The platform's `TextEncoder` and `TextDecoder` are
-- arguments.
pub mod RoundTrip
mod Tests
use filenymous.Prelude.{
  ℕ, zero, suc, ◌+◌, Bool, true, false, ◌&&◌, ◌||◌, not, Option, none, some, List, [], ◌∷◌, ◌++◌,
  ltb, leb, ◌==◌, if◌then◌else◌, Text, length, take, drop,
}
use filenymous.Prelude.Bytes.{Bytes, u32, get_u32}

pub record BundleEntry : Type 0 where
  pub name : Text
  pub content : Bytes

-- Several files, none of them, or one without wrapping.
pub data Packed : Type 0 where
  ok : Bytes → Packed
  empty_bundle : Packed

-- A length in four bytes, and the bytes.
pub sized : Bytes → Bytes → Bytes
sized bytes rest = u32 (length bytes) ++ (bytes ++ rest)

pub pack_entries : (Text → Bytes) → List BundleEntry → Bytes
pack_entries encode [] = []
pack_entries encode (e ∷ es) = sized (encode e.name) (sized e.content (pack_entries encode es))

pub pack_bundle : (Text → Bytes) → List BundleEntry → Packed
pack_bundle encode [] = empty_bundle
pack_bundle encode (e ∷ []) = ok e.content
pack_bundle encode (e ∷ f ∷ es) = ok (u32 (length (e ∷ f ∷ es)) ++ pack_entries encode (e ∷ f ∷ es))

-- So many bytes behind their length, if they are there and not more than the limit.
pub skip_sized : Option ℕ → Option (ℕ × Bytes) → Option Bytes
skip_sized limit none = none
skip_sized none (some (n, rest)) = if ltb (length rest) n then none else some (drop n rest)
skip_sized (some limit) (some (n, rest)) =
    if ltb limit n || ltb (length rest) n then none else some (drop n rest)

pub skip_next : (Bytes → Bool) → Option Bytes → Bool
skip_next k none = false
skip_next k (some rest) = k rest

-- The loop of `isBundle`, at the end of which nothing is left.
pub are_entries : ℕ → Bytes → Bool
are_entries zero [] = true
are_entries zero (b ∷ bs) = false
are_entries (suc n) bytes =
    skip_next (λ rest. skip_next (are_entries n) (skip_sized none (get_u32 rest)))
      (skip_sized (some 255) (get_u32 bytes))

pub counts_entries : Option (ℕ × Bytes) → Bool
counts_entries none = false
counts_entries (some (count, rest)) =
    if ltb count 2 || ltb 1000 count then false else are_entries count rest

pub is_bundle : Bytes → Bool
is_bundle bytes = counts_entries (get_u32 bytes)

-- So many bytes behind their length, or those that are left; none is a read past the end.
pub take_sized : Option (ℕ × Bytes) → Option (Bytes × Bytes)
take_sized none = none
take_sized (some (n, rest)) = some (take n rest, drop n rest)

pub data Unpacked : Type 0 where
  entries : List BundleEntry → Unpacked
  not_a_bundle out_of_range : Unpacked

pub add_entry : BundleEntry → Unpacked → Unpacked
add_entry e (entries es) = entries (e ∷ es)
add_entry e not_a_bundle = not_a_bundle
add_entry e out_of_range = out_of_range

pub with_data : (Bytes → Text) → (Bytes → Unpacked) → Bytes → Option (Bytes × Bytes) → Unpacked
with_data decode k name none = out_of_range
with_data decode k name (some (bytes, rest)) =
    add_entry (record { name = decode name; content = bytes }) (k rest)

pub with_name : (Bytes → Text) → (Bytes → Unpacked) → Option (Bytes × Bytes) → Unpacked
with_name decode k none = out_of_range
with_name decode k (some (name, rest)) = with_data decode k name (take_sized (get_u32 rest))

-- The loop of `unpackBundle`.
pub unpack_entries : (Bytes → Text) → ℕ → Bytes → Unpacked
unpack_entries decode zero bytes = entries []
unpack_entries decode (suc n) bytes =
    with_name decode (unpack_entries decode n) (take_sized (get_u32 bytes))

pub unpack_counted : (Bytes → Text) → Option (ℕ × Bytes) → Unpacked
unpack_counted decode none = out_of_range
unpack_counted decode (some (count, rest)) = unpack_entries decode count rest

pub unpack_bundle : (Bytes → Text) → Bytes → Unpacked
unpack_bundle decode bytes =
    if is_bundle bytes then unpack_counted decode (get_u32 bytes) else not_a_bundle
