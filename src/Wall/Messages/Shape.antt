-- ===== src/Wall/Messages/Shape.antt =====
-- What the handlers of the messages may rely on.
use filenymous.Prelude.{ℕ, ◌+◌, ◌≤◌, ◌<◌, ◌≡◌, true, ◌||◌, Bool, is_some, Text, length, All}
use filenymous.Prelude.Json.{max_safe_integer}
use filenymous.Prelude.Options.{Each}
use filenymous.Wall.ItemWire.Accepted.{IsItem}
use filenymous.Wall.Collab.{is_label, is_task_id, is_result_id}
use filenymous.Wall.FeedWire.{max_msg_chars, poll_max, is_post_id}
use filenymous.Wall.FeedWire.Accepted.{IsName, IsMember, IsLive}
use filenymous.Wall.PostWire.Accepted.{IsPost}
use filenymous.Wall.NotesWire.{is_note_id}
use filenymous.Wall.NotesWire.Accepted.{IsTitle, IsBody, IsReceivedNote}
use filenymous.Wall.Tasks.{task_text_max, agent_task_state, submitted, AgentTaskState, TaskPatch}
use filenymous.Wall.TaskWire.Accepted.{IsReceived}
use filenymous.Wall.Board.Capacity.{IsClean}
use filenymous.Wall.RtcWire.Accepted.{IsRtc}
use filenymous.Wall.SearchWire.Accepted.{IsSearch}
use filenymous.Wall.ThreadWire.Accepted
use filenymous.Wall.Updates.Titles.{IsWallTitle}
use filenymous.Wall.Messages.{
  Upload, Welcome, WallMessage, profile, say, put, put_end, get, react, poll, vote, poll_close,
  remove, typing, burst, hand, rename, live_start, live_stop, bye, snote_new, snote_edit, snote_del,
  snote_lock, task_new, task_set, task_del, board_op, rtc, search_msg, thread_msg, welcome, members,
  post, unpost, pin, live, live_ok, live_fail, typing_by, burst_by, settings, notice, kick, put_ok,
  put_fail, get_begin, get_end, get_fail, destroy, snote, snote_gone, snote_lock_by, task_msg,
  task_gone, board,
}

abbrev pub IsPostId : Text → Type 0
IsPostId s = is_post_id s ≡ true

abbrev pub IsLabel : Text → Type 0
IsLabel s = is_label s ≡ true

abbrev pub IsNoteId : Text → Type 0
IsNoteId s = is_note_id s ≡ true

abbrev pub IsTaskId : Text → Type 0
IsTaskId s = is_task_id s ≡ true

-- An integer that a double holds exactly.
abbrev pub InRange : ℕ → ℕ → Type 0
InRange least n = (least ≤ n) × (n ≤ max_safe_integer)

-- A level of the protocol.
abbrev pub IsFeature : ℕ → Type 0
IsFeature n = (1 ≤ n) × (n < 1000)

-- The words of a task.
abbrev pub IsTaskText : Text → Type 0
IsTaskText s = (1 ≤ length s) × (length s ≤ task_text_max)

pub record IsUpload (u : Upload) : Type 0 where
  pub numbered : InRange 1 u.uid
  pub titled : length u.name ≤ 400
  pub sized : InRange 0 u.size
  pub typed : length u.mime ≤ 200
  pub replied : Each IsPostId u.reply_to

pub record IsWelcome (w : Welcome) : Type 0 where
  pub labelled : IsLabel w.label
  pub ending : InRange 0 w.expires_at
  pub titled : IsWallTitle w.title
  pub featured : Each IsFeature w.feat

abbrev pub IsStateName : Text → Type 0
IsStateName s = is_some (agent_task_state s) ≡ true

pub record IsPatch (p : TaskPatch) : Type 0 where
  pub owned : Each (Each IsLabel) p.owner
  pub worded : Each IsTaskText p.text
  pub named : Each IsStateName p.state
  pub noted : Each (λ (s : Text). length s ≤ 1000) p.note
  pub resulted : Each (λ s. is_result_id s ≡ true) p.result
  -- It changes something.
  pub changing :
      (is_some p.done
        || is_some p.owner
        || is_some p.text
        || is_some p.state
        || is_some p.note
        || is_some p.result)
      ≡ true

module _ (is_emoji : Text → Bool) (lower : Text → Text) where
  unfoldable pub IsMessage : WallMessage → Type 0
  IsMessage (profile name agent media feat) = IsName name × Each IsFeature feat
  IsMessage (say s reply_to) = (length s ≤ max_msg_chars + 64) × Each IsPostId reply_to
  IsMessage (put u) = IsUpload u
  IsMessage (put_end uid chunks) = InRange 1 uid × InRange 0 chunks
  IsMessage (get rid id) = InRange 1 rid × (length id ≤ 64)
  IsMessage (react id emoji) = IsPostId id × (is_emoji emoji ≡ true)
  IsMessage (poll question options) =
      (length question ≤ 400)
      × All (λ (o : Text). length o ≤ 200) options
      × (length options ≤ poll_max)
  IsMessage (vote id option) = IsPostId id × (option < poll_max)
  IsMessage (poll_close id) = IsPostId id
  IsMessage (remove id) = IsPostId id
  IsMessage (rename name) = IsName name × (1 ≤ length name)
  IsMessage (live_start kind tracks) = (1 ≤ tracks) × (tracks ≤ 2)
  IsMessage (live_stop sid) = IsPostId sid
  IsMessage (snote_new title s) = IsTitle title × IsBody s
  IsMessage (snote_edit id base title s) =
      IsNoteId id
      × InRange 0 base
      × Each IsTitle title
      × Each IsBody s
      × ((is_some title || is_some s) ≡ true)
  IsMessage (snote_del id) = IsNoteId id
  IsMessage (snote_lock id on) = IsNoteId id
  IsMessage (task_new kind s owner state) =
      IsTaskText s × Each IsLabel owner × Each (λ (t : AgentTaskState). t ≡ submitted) state
  IsMessage (task_set id patch) = IsTaskId id × IsPatch patch
  IsMessage (task_del id) = IsTaskId id
  IsMessage (board_op els) = length els ≤ 500
  IsMessage (rtc m) = IsRtc m
  IsMessage (search_msg m) = IsSearch m
  IsMessage (thread_msg m) = filenymous.Wall.ThreadWire.Accepted.IsMessage m
  IsMessage (welcome w) = IsWelcome w
  IsMessage (members ms) = All IsMember ms × (length ms ≤ 64)
  IsMessage (post p) = IsPost is_emoji lower IsItem p
  IsMessage (unpost id) = IsPostId id
  IsMessage (pin id) = Each IsPostId id
  IsMessage (live streams captions) = All IsLive streams × (length streams ≤ 2)
  IsMessage (live_ok sid) = IsPostId sid
  IsMessage (live_fail reason) = length reason ≤ 64
  IsMessage (typing_by label) = IsLabel label
  IsMessage (burst_by label kind) = IsLabel label
  IsMessage (notice code retry_ms) = (length code ≤ 64) × Each (InRange 0) retry_ms
  IsMessage (put_ok uid id) = InRange 1 uid × (length id ≤ 64)
  IsMessage (put_fail uid reason) = InRange 1 uid × (length reason ≤ 64)
  IsMessage (get_begin rid item) = InRange 1 rid × IsItem item
  IsMessage (get_end rid chunks) = InRange 1 rid × InRange 0 chunks
  IsMessage (get_fail rid reason) = InRange 1 rid
  IsMessage (snote n overwrote) = IsReceivedNote n × Each IsLabel overwrote
  IsMessage (snote_gone id) = IsNoteId id
  IsMessage (snote_lock_by id label until) = IsNoteId id × Each IsLabel label × InRange 0 until
  IsMessage (task_msg t) = IsReceived t
  IsMessage (task_gone id) = IsTaskId id
  IsMessage (board els) = All IsClean els × (length els ≤ 500)
  -- words, flags and kinds: every value of the type is one
  IsMessage typing = Unit
  IsMessage (burst kind) = Unit
  IsMessage (hand up) = Unit
  IsMessage bye = Unit
  IsMessage (settings agents) = Unit
  IsMessage (kick reason) = Unit
  IsMessage (destroy reason) = Unit
