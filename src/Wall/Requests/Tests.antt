-- ===== src/Wall/Requests/Tests.antt =====
-- Requests of a peer on concrete inputs.
use filenymous.Prelude.{◌≡◌, refl, none, some, codes, text_eq}
use filenymous.Prelude.Json.{
  string, number, integer, pos, Fields, end, with_field, find, int, as_string,
}
use filenymous.Prelude.Items.{text_of, fits, optional}
use filenymous.Wall.FeedWire.{is_post_id}
use filenymous.Wall.Messages.{vote, say}
use filenymous.Wall.Requests
use filenymous.Wall.Requests.{vote_of, say_of, text_at}

request_functions : Unit {0}
unfolding vote_of say_of text_at text_of fits optional find int as_string text_eq is_post_id
    filenymous.Wall.Requests.post_id_at
request_functions = tt

abbrev ballot : Fields
ballot =
    with_field (codes "id") (string (codes "p-1"))
      (with_field (codes "option") (number (integer (pos 5))) end)

abbrev spoiled : Fields
spoiled =
    with_field (codes "id") (string (codes "p-1"))
      (with_field (codes "option") (number (integer (pos 6))) end)

ballot_read : vote_of ballot ≡ some (vote (codes "p-1") 5)
unfolding request_functions
ballot_read = refl

-- There are at most six options.
spoiled_refused : vote_of spoiled ≡ none
unfolding request_functions
spoiled_refused = refl

reply_read :
    say_of (
      with_field
        (codes "text")
        (string (codes "hi"))
        (with_field (codes "replyTo") (string (codes "p-1")) end))
    ≡ some (say (codes "hi") (some (codes "p-1")))
unfolding request_functions
reply_read = refl
