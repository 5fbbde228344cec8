-- ===== src/Optical/Bundle/Tests.antt =====
-- Bundles on concrete files.
use filenymous.Prelude.{◌≡◌, refl, true, [], ◌∷◌, arith, Text, codes}
use filenymous.Prelude.Bytes.{Bytes}
use filenymous.Optical.Bundle.{BundleEntry, Packed, pack_bundle, Unpacked, entries, is_bundle, ok}
use filenymous.Optical.Bundle
use filenymous.Optical.Bundle.RoundTrip.{IsPackable, reopened, bundle_back}

abbrev plain : Text → Bytes
plain s = s

abbrev note : BundleEntry
note = record { name = codes "a.txt"; content = 104 ∷ 105 ∷ [] }

abbrev image : BundleEntry
image = record { name = codes "b.png"; content = [] }

note-IsPackable : IsPackable plain plain note
note-IsPackable = record { short = omega arith; back = refl; fitting = omega arith }

image-IsPackable : IsPackable plain plain image
image-IsPackable = record { short = omega arith; back = refl; fitting = omega arith }

bundle_back_example :
    reopened plain plain (pack_bundle plain (note ∷ image ∷ [])) ≡ entries (note ∷ image ∷ [])
bundle_back_example =
    bundle_back plain plain note image [] (omega arith) (note-IsPackable, (image-IsPackable, tt))

bundle_functions : Unit {0}
unfolding filenymous.Optical.Bundle.pack_bundle filenymous.Optical.Bundle.pack_entries
    filenymous.Optical.Bundle.sized filenymous.Optical.Bundle.is_bundle
    filenymous.Optical.Bundle.counts_entries filenymous.Optical.Bundle.are_entries
    filenymous.Optical.Bundle.skip_next filenymous.Optical.Bundle.skip_sized
bundle_functions = tt

-- One file is sent without wrapping, so one whose bytes are those of a bundle is taken for a bundle.
abbrev bundle_bytes : Bytes
bundle_bytes = 2 ∷ 0 ∷ 0 ∷ 0 ∷ 0 ∷ 0 ∷ 0 ∷ 0 ∷ 0 ∷ 0 ∷ 0 ∷ 0 ∷ 0 ∷ 0 ∷ 0 ∷ 0 ∷ 0 ∷ 0 ∷ 0 ∷ 0 ∷ []

single_file :
    pack_bundle plain (record { name = codes "x"; content = bundle_bytes } ∷ []) ≡ ok bundle_bytes
unfolding bundle_functions
single_file = refl

single_file_unpacked : is_bundle bundle_bytes ≡ true
unfolding bundle_functions
single_file_unpacked = refl
