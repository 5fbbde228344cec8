-- ===== src/Wall/MessageWire/Tests.antt =====
-- Control messages on concrete inputs.
use filenymous.Prelude.{Bool, true, Text, codes}
use filenymous.Prelude.Json.{Json, Number, string, number, integer, pos, object, end, with_field}

abbrev any_text : Text → Bool
any_text s = true

abbrev as_is : Text → Text
as_is s = s

abbrev unrounded : Number → Number
unrounded n = n

abbrev vote_sent : Json
vote_sent = object (
    with_field (codes "t") (string (codes "vote")) (
      with_field (codes "id") (string (codes "p-1"))
        (with_field (codes "option") (number (integer (pos 5))) end)))
