-- ===== src/Wall/Updates.antt =====
-- ui/src/wall/model.ts: what a peer accepts of the host.
pub mod Titles
pub mod Accepted
use filenymous.Prelude.{
  ℕ, suc, zero, Bool, true, false, ◌&&◌, ◌||◌, Option, none, some, List, [], ◌∷◌, leb, ltb, ◌==◌,
  if◌then◌else◌, Text, codes, text_eq, length, blank, collapse_spaces, trim,
}
use filenymous.Prelude.Json.{
  Json, undefined, string, Fields, find, int, as_boolean, as_string, as_object, is_high, is_low,
}
use filenymous.Prelude.Items.{
  as_array, is_true, text_of, fits, optional, nullable, all_of, those_of,
}
use filenymous.Prelude.Options.{◌>>=◌, ◌>>◌, guard}
use filenymous.Wall.Collab.{is_label}
use filenymous.Wall.Model.{ItemMeta}
use filenymous.Wall.ItemWire.{clean_meta}
use filenymous.Wall.FeedWire.{is_post_id, clean_member, clean_live}
use filenymous.Wall.PostWire.{clean_post}
use filenymous.Wall.NotesWire.{is_note_id, clean_shared_note}
use filenymous.Wall.TaskWire.{clean_task}
use filenymous.Wall.Board.{clean_board_element}
use filenymous.Wall.Requests.{text_at, post_id_at, feature_of, burst_kind}
use filenymous.Wall.Messages.{
  DestroyReason, destroyed, expired, host_left, KickReason, kicked, agents_off, GetFailure, gone,
  busy, denied, Welcome, WallMessage, welcome, members, post, pin, live, live_fail, typing_by,
  burst_by, settings, notice, kick, put_ok, put_fail, get_begin, get_end, get_fail, destroy, snote,
  snote_lock_by, task_msg, board,
}

abbrev pub wall_title_max : ℕ
wall_title_max = 80

abbrev pub max_live : ℕ
max_live = 2

-- Controls, and characters that take no room or turn the direction of writing.
pub is_unseen : ℕ → Bool
is_unseen c =
    leb c 0x1f
    || (leb 0x7f c && leb c 0x9f)
    || (leb 0x200b c && leb c 0x200f)
    || (leb 0x202a c && leb c 0x202e)
    || (leb 0x2066 c && leb c 0x2069)
    || c == 0xfeff

-- `Array.from(s).slice(0, max).join("")`: a pair of surrogates is one character.
unfoldable pub take_characters : ℕ → Text → Text
unfolding is_high is_low
take_characters zero s = []
take_characters (suc n) [] = []
take_characters (suc n) (c ∷ []) = c ∷ []
take_characters (suc n) (c ∷ d ∷ s) =
    let pair = take_characters n s in
    let single = take_characters n (d ∷ s) in
    if is_high c && is_low d then c ∷ d ∷ pair else c ∷ single

-- `sanitizeWallTitle` of a string
unfoldable pub sanitize_wall_title : Text → Text
unfolding is_unseen blank collapse_spaces trim take_characters
sanitize_wall_title s =
    trim (take_characters wall_title_max (trim (collapse_spaces (blank is_unseen s))))

pub short_title : Option Text → Text
short_title none = []
short_title (some s) = sanitize_wall_title s

-- The title of a string of at most 1024 units, and of anything else no title.
pub title_of : Json → Text
title_of v = short_title (text_of (fits 1024) v)

pub welcome_of : Fields → Option WallMessage
welcome_of fs = do
  label ← text_of is_label (find (codes "label") fs)
  expires_at ← int 0 (find (codes "expiresAt") fs)
  burn ← as_boolean (find (codes "burn") fs)
  host_leave ← as_boolean (find (codes "hostLeave") fs)
  agents ← as_boolean (find (codes "agents") fs)
  media ← as_boolean (find (codes "media") fs)
  some (
      welcome (record {
        label = label;
        expires_at = expires_at;
        burn = burn;
        host_leave = host_leave;
        agents = agents;
        media = media;
        title = title_of (find (codes "title") fs);
        pending = is_true (find (codes "pending") fs);
        feat = feature_of (find (codes "feat") fs);
      }))

pub members_of : Fields → Option WallMessage
members_of fs = do
  vs ← as_array (find (codes "members") fs)
  guard (leb (length vs) 64)
  ms ← all_of clean_member vs
  some (members ms)

pub post_msg_of : (Text → Bool) → (Text → Text) → Fields → Option WallMessage
post_msg_of is_emoji lower fs = do
  p ← clean_post is_emoji lower clean_meta (find (codes "post") fs)
  some (post p)

pub pin_of : Fields → Option WallMessage
pin_of fs = do id ← nullable (text_of is_post_id) (find (codes "id") fs); some (pin id)

pub captions_of : Json → Option Bool
captions_of v = do c ← as_object v; as_boolean (find (codes "en") c)

pub live_msg_of : Fields → Option WallMessage
live_msg_of fs = do
  vs ← as_array (find (codes "streams") fs)
  guard (leb (length vs) max_live)
  streams ← all_of clean_live vs
  captions ← optional captions_of (find (codes "captions") fs)
  some (live streams captions)

pub live_fail_of : Fields → Option WallMessage
live_fail_of fs = do reason ← text_at 64 (codes "reason") fs; some (live_fail reason)

pub notice_of : Fields → Option WallMessage
notice_of fs = do
  code ← text_at 64 (codes "code") fs
  retry_ms ← optional (int 0) (find (codes "retryMs") fs)
  some (notice code retry_ms)

pub typing_by_of : Fields → Option WallMessage
typing_by_of fs = do label ← text_of is_label (find (codes "label") fs); some (typing_by label)

pub burst_by_of : Fields → Option WallMessage
burst_by_of fs = do
  label ← text_of is_label (find (codes "label") fs)
  word ← as_string (find (codes "kind") fs)
  kind ← burst_kind word
  some (burst_by label kind)

pub settings_of : Fields → Option WallMessage
settings_of fs = do agents ← as_boolean (find (codes "agents") fs); some (settings agents)

pub kick_reason : Text → Option KickReason
kick_reason s =
    if text_eq s (codes "kicked")
    then some kicked
    else if text_eq s (codes "agents-off")
    then some agents_off
    else none

pub kick_of : Fields → Option WallMessage
kick_of fs = do
  word ← as_string (find (codes "reason") fs)
  reason ← kick_reason word
  some (kick reason)

pub put_ok_of : Fields → Option WallMessage
put_ok_of fs = do
  uid ← int 1 (find (codes "uid") fs)
  id ← text_at 64 (codes "id") fs
  some (put_ok uid id)

pub put_fail_of : Fields → Option WallMessage
put_fail_of fs = do
  uid ← int 1 (find (codes "uid") fs)
  reason ← text_at 64 (codes "reason") fs
  some (put_fail uid reason)

pub get_begin_of : Fields → Option WallMessage
get_begin_of fs = do
  item ← clean_meta (find (codes "item") fs)
  rid ← int 1 (find (codes "rid") fs)
  some (get_begin rid item)

pub get_end_of : Fields → Option WallMessage
get_end_of fs = do
  rid ← int 1 (find (codes "rid") fs)
  chunks ← int 0 (find (codes "chunks") fs)
  some (get_end rid chunks)

pub get_failure : Text → Option GetFailure
get_failure s =
    if text_eq s (codes "gone")
    then some gone
    else if text_eq s (codes "busy")
    then some busy
    else if text_eq s (codes "denied")
    then some denied
    else none

pub get_fail_of : Fields → Option WallMessage
get_fail_of fs = do
  rid ← int 1 (find (codes "rid") fs)
  word ← as_string (find (codes "reason") fs)
  reason ← get_failure word
  some (get_fail rid reason)

pub destroy_reason : Text → Option DestroyReason
destroy_reason s =
    if text_eq s (codes "destroyed")
    then some destroyed
    else if text_eq s (codes "expired")
    then some expired
    else if text_eq s (codes "host-left")
    then some host_left
    else none

pub destroy_of : Fields → Option WallMessage
destroy_of fs = do
  word ← as_string (find (codes "reason") fs)
  reason ← destroy_reason word
  some (destroy reason)

pub snote_of : Fields → Option WallMessage
snote_of fs = do
  note ← clean_shared_note (find (codes "note") fs)
  overwrote ← optional (text_of is_label) (find (codes "overwrote") fs)
  some (snote note overwrote)

pub snote_lock_by_of : Fields → Option WallMessage
snote_lock_by_of fs = do
  id ← text_of is_note_id (find (codes "id") fs)
  label ← nullable (text_of is_label) (find (codes "label") fs)
  until ← int 0 (find (codes "until") fs)
  some (snote_lock_by id label until)

pub task_msg_of : Fields → Option WallMessage
task_msg_of fs = do t ← clean_task (find (codes "task") fs); some (task_msg t)

pub board_of : Fields → Option WallMessage
board_of fs = do
  vs ← as_array (find (codes "els") fs)
  guard (leb (length vs) 500)
  some (board (those_of clean_board_element vs))
