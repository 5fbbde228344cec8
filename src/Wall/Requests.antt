-- ===== src/Wall/Requests.antt =====
-- ui/src/wall/model.ts: what the host accepts of a peer.
pub mod Accepted
mod Tests
use filenymous.Prelude.{
  ℕ, ◌+◌, Bool, true, false, ◌&&◌, ◌||◌, not, Option, none, some, List, [], ◌∷◌, leb, ltb, is_some,
  if◌then◌else◌, Text, codes, text_eq, length, take,
}
use filenymous.Prelude.Json.{
  Json, undefined, string, Fields, find, int, as_boolean, as_string, as_object,
}
use filenymous.Prelude.Items.{as_array, text_of, fits, optional, nullable, missing, all_of}
use filenymous.Prelude.Options.{◌>>=◌, ◌>>◌, guard}
use filenymous.Wall.Collab.{is_label, is_task_id, is_result_id}
use filenymous.Wall.ItemWire.{item_kind}
use filenymous.Wall.FeedWire.{max_msg_chars, poll_max, clean_name, is_post_id, live_kind}
use filenymous.Wall.Notes.{clean_note_text, clean_note_title}
use filenymous.Wall.NotesWire.{is_note_id}
use filenymous.Wall.Tasks.{AgentTaskState, submitted, agent_task_state, clean_task_text, TaskPatch}
use filenymous.Wall.TaskWire.{kind_named}
use filenymous.Wall.Messages.{
  BurstKind, applause, party, heart, Upload, WallMessage, profile, say, put, put_end, get, react,
  poll, vote, poll_close, remove, typing, burst, hand, rename, live_start, live_stop, bye,
  snote_new, snote_edit, snote_del, snote_lock, task_new, task_set, task_del, board_op,
}

unfoldable pub text_at : ℕ → Text → Fields → Option Text
text_at max k fs = text_of (fits max) (find k fs)

pub post_id_at : Text → Fields → Option Text
post_id_at k fs = text_of is_post_id (find k fs)

-- A level of the protocol, if there is one below 1000.
pub feature_of : Json → Option ℕ
feature_of v = do n ← int 1 v; guard (ltb n 1000); some n

pub profile_of : Fields → Option WallMessage
profile_of fs = do
  name ← text_at 200 (codes "name") fs
  agent ← as_boolean (find (codes "agent") fs)
  media ← as_boolean (find (codes "media") fs)
  some (profile (clean_name (string name)) agent media (feature_of (find (codes "feat") fs)))

pub say_of : Fields → Option WallMessage
say_of fs = do
  s ← text_at (max_msg_chars + 64) (codes "text") fs
  reply_to ← optional (text_of is_post_id) (find (codes "replyTo") fs)
  some (say s reply_to)

pub put_of : Fields → Option WallMessage
put_of fs = do
  uid ← int 1 (find (codes "uid") fs)
  word ← as_string (find (codes "kind") fs)
  kind ← item_kind word
  name ← text_at 400 (codes "name") fs
  size ← int 0 (find (codes "size") fs)
  mime ← text_at 200 (codes "mime") fs
  reply_to ← optional (text_of is_post_id) (find (codes "replyTo") fs)
  some (
      put (record {
        uid = uid;
        kind = kind;
        name = name;
        size = size;
        mime = mime;
        reply_to = reply_to;
      }))

pub put_end_of : Fields → Option WallMessage
put_end_of fs = do
  uid ← int 1 (find (codes "uid") fs)
  chunks ← int 0 (find (codes "chunks") fs)
  some (put_end uid chunks)

pub get_of : Fields → Option WallMessage
get_of fs = do
  rid ← int 1 (find (codes "rid") fs)
  id ← text_at 64 (codes "id") fs
  some (get rid id)

pub react_of : (Text → Bool) → Fields → Option WallMessage
react_of is_emoji fs = do
  id ← post_id_at (codes "id") fs
  emoji ← text_of is_emoji (find (codes "emoji") fs)
  some (react id emoji)

pub poll_of : Fields → Option WallMessage
poll_of fs = do
  question ← text_at 400 (codes "question") fs
  vs ← as_array (find (codes "options") fs)
  guard (leb (length vs) poll_max)
  options ← all_of (text_of (fits 200)) vs
  some (poll question options)

pub vote_of : Fields → Option WallMessage
vote_of fs = do
  id ← post_id_at (codes "id") fs
  option ← int 0 (find (codes "option") fs)
  guard (ltb option poll_max)
  some (vote id option)

-- The messages that name a post, or a stream, and no more.
pub about_post : Text → (Text → WallMessage) → Fields → Option WallMessage
about_post k make fs = do id ← post_id_at k fs; some (make id)

pub burst_kind : Text → Option BurstKind
burst_kind s =
    if text_eq s (codes "applause")
    then some applause
    else if text_eq s (codes "party")
    then some party
    else if text_eq s (codes "heart")
    then some heart
    else none

pub burst_of : Fields → Option WallMessage
burst_of fs = do
  word ← as_string (find (codes "kind") fs)
  kind ← burst_kind word
  some (burst kind)

pub hand_of : Fields → Option WallMessage
hand_of fs = do up ← as_boolean (find (codes "up") fs); some (hand up)

pub rename_of : Fields → Option WallMessage
rename_of fs = do
  name ← text_at 200 (codes "name") fs
  guard (leb 1 (length (clean_name (string name))))
  some (rename (clean_name (string name)))

pub live_start_of : Fields → Option WallMessage
live_start_of fs = do
  word ← as_string (find (codes "kind") fs)
  kind ← live_kind word
  tracks ← int 1 (find (codes "tracks") fs)
  guard (leb tracks 2)
  some (live_start kind tracks)

pub snote_new_of : Fields → Option WallMessage
snote_new_of fs = do
  title ← clean_note_title (find (codes "title") fs)
  body ← clean_note_text (find (codes "text") fs)
  some (snote_new title body)

pub snote_edit_of : Fields → Option WallMessage
snote_edit_of fs = do
  id ← text_of is_note_id (find (codes "id") fs)
  base ← int 0 (find (codes "base") fs)
  title ← optional clean_note_title (find (codes "title") fs)
  body ← optional clean_note_text (find (codes "text") fs)
  guard (is_some title || is_some body)
  some (snote_edit id base title body)

pub about_note : (Text → WallMessage) → Fields → Option WallMessage
about_note make fs = do id ← text_of is_note_id (find (codes "id") fs); some (make id)

pub snote_lock_of : Fields → Option WallMessage
snote_lock_of fs = do
  id ← text_of is_note_id (find (codes "id") fs)
  on ← as_boolean (find (codes "on") fs)
  some (snote_lock id on)

pub task_text : Json → Option Text
task_text v = as_string v >>= clean_task_text

pub submitted_state : Text → Option AgentTaskState
submitted_state s = if text_eq s (codes "submitted") then some submitted else none

pub only_submitted : Json → Option AgentTaskState
only_submitted v = as_string v >>= submitted_state

pub task_new_of : Fields → Option WallMessage
task_new_of fs = do
  words ← task_text (find (codes "text") fs)
  word ← as_string (find (codes "kind") fs)
  kind ← kind_named word
  owner ← missing (text_of is_label) (find (codes "owner") fs)
  state ← optional only_submitted (find (codes "state") fs)
  some (task_new kind words owner state)

pub is_state : Text → Bool
is_state s = is_some (agent_task_state s)

abbrev pub note_max : ℕ
note_max = 1000

pub cut_note : Json → Option Text
cut_note v = do s ← as_string v; some (take note_max s)

-- Something is changed.
pub changes : TaskPatch → Bool
changes p =
    is_some p.done
    || is_some p.owner
    || is_some p.text
    || is_some p.state
    || is_some p.note
    || is_some p.result

pub task_set_of : Fields → Option WallMessage
task_set_of fs = do
  id ← text_of is_task_id (find (codes "id") fs)
  done ← optional as_boolean (find (codes "done") fs)
  owner ← optional (nullable (text_of is_label)) (find (codes "owner") fs)
  words ← optional task_text (find (codes "text") fs)
  state ← optional (text_of is_state) (find (codes "state") fs)
  note ← optional cut_note (find (codes "note") fs)
  result ← optional (text_of is_result_id) (find (codes "result") fs)
  let patch : TaskPatch = record {
    done = done;
    owner = owner;
    text = words;
    state = state;
    note = note;
    result = result;
  } in
      do guard (changes patch); some (task_set id patch)

pub about_task : (Text → WallMessage) → Fields → Option WallMessage
about_task make fs = do id ← text_of is_task_id (find (codes "id") fs); some (make id)

-- A list that the host looks at one element after the other (`BoardStore.merge`).
pub board_op_of : Fields → Option WallMessage
board_op_of fs = do
  vs ← as_array (find (codes "els") fs)
  guard (leb (length vs) 500)
  some (board_op vs)
