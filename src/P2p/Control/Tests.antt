-- ===== src/P2p/Control/Tests.antt =====
-- Control messages of a direct transfer on concrete inputs.
use filenymous.Prelude.{
  ◌≡◌, refl, true, false, none, some, [], ◌∷◌, arith, codes, text_eq, All, strip,
}
use filenymous.Prelude.Json.{
  string, number, integer, pos, object, Fields, end, with_field, find, int, as_string, as_object,
}
use filenymous.P2p.Stream.{StreamReader, request}
use filenymous.P2p.Control.{parse_control, clean_device}
use filenymous.P2p.Control
use filenymous.P2p.Control.Ranges
use filenymous.P2p.Control.Ranges.{range_fields, request_accepted}

-- Chunk 1 is in the cache.
abbrev reader : StreamReader
reader = record { cached = λ file c. text_eq (c ∷ []) (1 ∷ []); requested = λ file c. false }

request_accepted_example :
    All
      (λ m. parse_control (some (object (range_fields m))) ≡ some (range_fields m))
      (request reader 0 0 3 true).1
request_accepted_example = request_accepted reader 0 0 3 true (omega arith) (omega arith)

-- A chunk that is needed at once is asked for without the word.
on_demand_message :
    range_fields (record { index = 0; from = 2; to = 3; prefetch = false })
    ≡ with_field (codes "type") (string (codes "range")) (
        with_field (codes "index") (number (integer (pos 0))) (
          with_field
            (codes "from")
            (number (integer (pos 2)))
            (with_field (codes "to") (number (integer (pos 3))) end)))
unfolding range_fields filenymous.P2p.Control.Ranges.prefetch_fields
on_demand_message = refl

control_functions : Unit {0}
unfolding parse_control clean_device strip find int as_string as_object text_eq
    filenymous.P2p.Control.control_of filenymous.P2p.Control.checked_kind
    filenymous.P2p.Control.checked_range filenymous.P2p.Control.with_device
    filenymous.P2p.Control.replaced filenymous.P2p.Control.is_control
control_functions = tt

abbrev hello : Fields
hello =
    with_field (codes "type") (string (codes "hello"))
      (with_field (codes "device") (string (10 ∷ codes "phone")) end)

device_cleaned :
    parse_control (some (object hello))
    ≡ some (
        with_field
          (codes "type")
          (string (codes "hello"))
          (with_field (codes "device") (string (codes "phone")) end))
unfolding control_functions
device_cleaned = refl

abbrev backwards : Fields
backwards = with_field (codes "type") (string (codes "range")) (
    with_field (codes "index") (number (integer (pos 0))) (
      with_field (codes "from") (number (integer (pos 5)))
        (with_field (codes "to") (number (integer (pos 4))) end)))

backwards_refused : parse_control (some (object backwards)) ≡ none
unfolding control_functions
backwards_refused = refl
