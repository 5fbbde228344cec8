-- ===== src/Wall/PostWire/Tests.antt =====
-- Posts on concrete inputs.
use filenymous.Prelude.{Bool, true, ◌≡◌, refl, some, [], ◌∷◌, Text, codes}
use filenymous.Prelude.Json.{
  Json, string, array, object, nil, cons, end, with_field, number, integer, pos,
}
use filenymous.Prelude.Items.{text_of, as_array, all_of}
use filenymous.Wall.Collab.{is_label}
use filenymous.Wall.PostWire.{labels}

abbrev any_text : Text → Bool
any_text s = true

abbrev as_is : Text → Text
as_is s = s

labels_read :
    labels 16 (array (cons (string (codes "host")) (cons (string (codes "peer:2")) nil)))
    ≡ some (codes "host" ∷ codes "peer:2" ∷ [])
unfolding labels as_array all_of text_of is_label
labels_read = refl

abbrev message_sent : Json
message_sent = object (
    with_field (codes "id") (string (codes "p-1")) (
      with_field (codes "kind") (string (codes "msg")) (
        with_field (codes "by") (string (codes "host")) (
          with_field (codes "at") (number (integer (pos 7)))
            (with_field (codes "text") (string (codes "hello")) end)))))
