-- ===== src/Optical/Bundle/RoundTrip.antt =====
-- What is packed is unpacked.
use filenymous.Prelude.{
  ℕ, ◌^◌, ◌<◌, ◌≤◌, ◌≡◌, refl, ap, true, none, some, List, [], ◌∷◌, ◌++◌, arith, Text, length,
  length-append, All,
}
use filenymous.Prelude.Bytes.{Bytes, get_u32, u32_value, take-append, drop-append}
use filenymous.Optical.Bundle.{
  BundleEntry, Packed, ok, empty_bundle, sized, pack_entries, pack_bundle, skip_sized, skip_next,
  are_entries, counts_entries, is_bundle, take_sized, Unpacked, entries, not_a_bundle, add_entry,
  with_data, with_name, unpack_entries, unpack_counted, unpack_bundle,
}

module _ (encode : Text → Bytes) (decode : Bytes → Text) where
  -- An entry whose name takes at most 255 bytes and is decoded to what was encoded, and whose
  -- content's length fits its field.
  pub record IsPackable (e : BundleEntry) : Type 0 where
    pub short : length (encode e.name) ≤ 255
    pub back : decode (encode e.name) ≡ e.name
    pub fitting : length e.content < 2 ^ 32

  -- What the receiver makes of what was packed.
  pub reopened : Packed → Unpacked
  reopened (ok bytes) = unpack_bundle decode bytes
  reopened empty_bundle = not_a_bundle

  get_u32-sized :
      (bytes rest : Bytes)
      → length bytes < 2 ^ 32
      → get_u32 (sized bytes rest) ≡ some (length bytes, bytes ++ rest)
  unfolding sized
  get_u32-sized bytes rest h = ap (λ (n : ℕ). some (n, bytes ++ rest)) (u32_value (length bytes) h)

  skip_sized_back :
      (bytes rest : Bytes)
      → length bytes < 2 ^ 32
      → skip_sized none (get_u32 (sized bytes rest)) ≡ some rest
  unfolding skip_sized
  skip_sized_back bytes rest h =
      rw (get_u32-sized bytes rest h, drop-append bytes rest)
        (ground (arith, length-append bytes rest))

  skip_name_back :
      (bytes rest : Bytes)
      → length bytes ≤ 255
      → skip_sized (some 255) (get_u32 (sized bytes rest)) ≡ some rest
  unfolding skip_sized
  skip_name_back bytes rest h =
      rw (get_u32-sized bytes rest (omega arith), drop-append bytes rest)
        (ground (arith, length-append bytes rest))

  take_sized_back :
      (bytes rest : Bytes)
      → length bytes < 2 ^ 32
      → take_sized (get_u32 (sized bytes rest)) ≡ some (bytes, rest)
  unfolding take_sized
  take_sized_back bytes rest h =
      rw (get_u32-sized bytes rest h, take-append bytes rest, drop-append bytes rest) refl

  are_entries-pack :
      (es : List BundleEntry)
      → All IsPackable es
      → are_entries (length es) (pack_entries encode es) ≡ true
  unfolding are_entries pack_entries skip_next
  are_entries-pack [] h = refl
  are_entries-pack (e ∷ es) (p, h) =
      rw
        (
          skip_name_back (encode e.name) (sized e.content (pack_entries encode es)) p.short,
          skip_sized_back e.content (pack_entries encode es) p.fitting,
        )
        (are_entries-pack es h)

  unpack_entries-pack :
      (es : List BundleEntry)
      → All IsPackable es
      → unpack_entries decode (length es) (pack_entries encode es) ≡ entries es
  unfolding unpack_entries pack_entries with_name with_data add_entry
  unpack_entries-pack [] h = refl
  unpack_entries-pack (e ∷ es) (p, h) =
      rw
        (
          take_sized_back (encode e.name) (sized e.content (pack_entries encode es))
              (omega (arith, p.short)),
          take_sized_back e.content (pack_entries encode es) p.fitting,
          p.back,
          unpack_entries-pack es h,
        )
        refl

  -- From 2 to 1000 files come back with their names and contents in their order, when every name
  -- takes at most 255 bytes and is decoded to what was encoded and every file is under 4 GiB.
  pub bundle_back :
      (e f : BundleEntry) (es : List BundleEntry)
      → length (e ∷ f ∷ es) ≤ 1000
      → All IsPackable (e ∷ f ∷ es)
      → reopened (pack_bundle encode (e ∷ f ∷ es)) ≡ entries (e ∷ f ∷ es)
  unfolding reopened pack_bundle unpack_bundle is_bundle counts_entries unpack_counted
  bundle_back e f es l h =
      rw
        (
          u32_value (length (e ∷ f ∷ es)) (omega arith),
          are_entries-pack (e ∷ f ∷ es) h,
          unpack_entries-pack (e ∷ f ∷ es) h,
        )
        (ground arith)
