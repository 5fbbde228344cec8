-- ===== src/Wall/PostWire.antt =====
-- ui/src/wall/feed.ts: `cleanPost`, what a peer accepts as a post of the host. `isEmoji` and
-- `toLowerCase`, which read the tables of Unicode, and the check of an item are arguments.
pub mod Accepted
mod Tests
use filenymous.Prelude.{
  ℕ, ◌+◌, Bool, true, false, ◌&&◌, ◌==◌, Option, none, some, List, [], ◌∷◌, leb, if◌then◌else◌,
  Text, codes, text_eq, length,
}
use filenymous.Prelude.Json.{
  Json, undefined, null, boolean, number, string, array, object, Fields, end, find, int, as_string,
  as_object, or_else,
}
use filenymous.Prelude.Items.{as_array, entries, is_true, text_of, all_of, fits, optional}
use filenymous.Prelude.Options.{◌>>=◌, ◌>>◌, guard}
use filenymous.JsMap
use filenymous.JsMap.{JsMap}
use filenymous.Wall.Collab.{is_label}
use filenymous.Wall.Model.{ItemKind, ItemMeta}
use filenymous.Wall.Feed.{
  PostKind, msg, file, note, poll, Poll, SystemNotice, exported, Caption, Post, max_reaction_kinds,
}
use filenymous.Wall.FeedWire.{max_msg_chars, clean_message, is_post_id, make_poll}

-- Labels, at most so many.
pub labels : ℕ → Json → Option (List Text)
labels max v = do vs ← as_array v; guard (leb (length vs) max); all_of (text_of is_label) vs

pub reactions_from :
    (Text → Bool) → List (Text × Json) → JsMap (List Text) → Option (JsMap (List Text))
reactions_from is_emoji [] out = some out
reactions_from is_emoji ((emoji, v) ∷ more) out = do
  guard (is_emoji emoji)
  who ← labels 64 v
  reactions_from is_emoji more (JsMap.set emoji who out)

-- An array is refused.
pub clean_reactions : (Text → Bool) → Json → Option (JsMap (List Text))
clean_reactions is_emoji (object fs) = do
  guard (leb (length (entries fs)) max_reaction_kinds)
  reactions_from is_emoji (entries fs) []
clean_reactions is_emoji _ = none

pub kind_named : Text → Option PostKind
kind_named s =
    if text_eq s (codes "msg")
    then some msg
    else if text_eq s (codes "file")
    then some file
    else if text_eq s (codes "note")
    then some note
    else if text_eq s (codes "poll")
    then some poll
    else none

-- Each of the optional properties: none inside says that it is undefined.
pub reply_of : Json → Option (Option Text)
reply_of v = optional (text_of is_post_id) v

pub mentions_of : Json → Option (Option (List Text))
mentions_of v = optional (labels 16) v

pub is_msg : PostKind → Bool
is_msg msg = true
is_msg _ = false

pub notice_of : PostKind → Text → Json → Option SystemNotice
notice_of kind by v = do
  name ← as_string v
  guard (text_eq name (codes "exported"))
  guard (is_msg kind)
  guard (text_eq by (codes "host"))
  some exported

-- `c.en === undefined || c.en === true`, with whether it is true.
pub en_of : Json → Option Bool
en_of undefined = some false
en_of (boolean true) = some true
en_of _ = none

pub caption_of : PostKind → Json → Option Caption
caption_of kind v = do
  guard (is_msg kind)
  c ← as_object v
  sid ← text_of (fits 40) (find (codes "sid") c)
  en ← en_of (find (codes "en") c)
  some (record { sid = sid; en = en })

-- `if (!post.text) return null`
pub full_text : Text → Option Text
full_text [] = none
full_text (c ∷ s) = some (c ∷ s)

pub message_of : Json → Option Text
message_of v = do s ← text_of (fits (max_msg_chars + 16)) v; full_text (clean_message (string s))

pub with_votes : List (List Text) → Bool → Poll → Poll
with_votes votes closed p = record p { votes = votes; closed = closed }

pub poll_of : (Text → Text) → Fields → Option Poll
poll_of lower q = do
  p ← make_poll lower (find (codes "question") q) (find (codes "options") q)
  given ← as_array (find (codes "votes") q)
  guard (length given == length p.options)
  votes ← all_of (labels 64) given
  some (with_votes votes (is_true (find (codes "closed") q)) p)

pub is_text_item : ItemKind → Bool
is_text_item ItemKind.file = false
is_text_item ItemKind.text = true

pub same : Bool → Bool → Bool
same true b = b
same false true = false
same false false = true

pub item_of : (Json → Option ItemMeta) → Bool → Text → Json → Option ItemMeta
item_of clean_item masked id v = do
  item ← clean_item v
  guard (text_eq item.id id)
  guard (same masked (is_text_item item.kind))
  some item

-- What the post holds, by its kind.
pub data Content : Type 0 where
  said : Text → Content
  asked : Poll → Content
  shared : ItemMeta → Content

pub content_of :
    (Text → Text) → (Json → Option ItemMeta) → PostKind → Text → Fields → Option Content
content_of lower clean_item msg id fs = do s ← message_of (find (codes "text") fs); some (said s)
content_of lower clean_item poll id fs = do
  q ← as_object (find (codes "poll") fs)
  p ← poll_of lower q
  some (asked p)
content_of lower clean_item note id fs = do
  item ← item_of clean_item true id (find (codes "item") fs)
  some (shared item)
content_of lower clean_item file id fs = do
  item ← item_of clean_item false id (find (codes "item") fs)
  some (shared item)

pub said_in : Content → Option Text
said_in (said s) = some s
said_in _ = none

pub asked_in : Content → Option Poll
asked_in (asked p) = some p
asked_in _ = none

pub shared_in : Content → Option ItemMeta
shared_in (shared i) = some i
shared_in _ = none

pub post_of : (Text → Bool) → (Text → Text) → (Json → Option ItemMeta) → Fields → Option Post
post_of is_emoji lower clean_item fs = do
  id ← text_of is_post_id (find (codes "id") fs)
  by ← text_of is_label (find (codes "by") fs)
  at ← int 0 (find (codes "at") fs)
  name ← as_string (find (codes "kind") fs)
  kind ← kind_named name
  reactions ← clean_reactions is_emoji (or_else (find (codes "reactions") fs) (object end))
  reply_to ← reply_of (find (codes "replyTo") fs)
  mentions ← mentions_of (find (codes "mentions") fs)
  system ← optional (notice_of kind by) (find (codes "system") fs)
  caption ← optional (caption_of kind) (find (codes "caption") fs)
  content ← content_of lower clean_item kind id fs
  some (record {
    id = id;
    kind = kind;
    by = by;
    at = at;
    text = said_in content;
    reply_to = reply_to;
    mentions = mentions;
    item = shared_in content;
    poll = asked_in content;
    reactions = reactions;
    system = system;
    caption = caption;
  })

pub clean_post : (Text → Bool) → (Text → Text) → (Json → Option ItemMeta) → Json → Option Post
clean_post is_emoji lower clean_item v = as_object v >>= post_of is_emoji lower clean_item
