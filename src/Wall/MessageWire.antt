-- ===== src/Wall/MessageWire.antt =====
-- ui/src/wall/model.ts: `parseWallMessage`, the check of every control message. `isEmoji` and
-- `toLowerCase`, which read the tables of Unicode, and the rounding of a score to thousandths are
-- arguments.
pub mod Accepted
mod Tests
use filenymous.Prelude.{
  Bool, true, false, ◌||◌, Option, none, some, List, [], ◌∷◌, ◌++◌, if◌then◌else◌, is_some, Text,
  codes, text_eq,
}
use filenymous.Prelude.Json.{Json, Number, Fields, find, as_string, as_object}
use filenymous.Prelude.Options.{◌>>=◌}
use filenymous.Wall.Collab.{after_prefix}
use filenymous.Wall.Messages.{
  WallMessage, poll_close, remove, typing, live_stop, bye, snote_del, task_del, rtc, search_msg,
  thread_msg, unpost, live_ok, snote_gone, task_gone,
}
use filenymous.Wall.Requests.{
  profile_of, say_of, put_of, put_end_of, get_of, react_of, poll_of, vote_of, about_post, burst_of,
  hand_of, rename_of, live_start_of, snote_new_of, snote_edit_of, about_note, snote_lock_of,
  task_new_of, task_set_of, about_task, board_op_of,
}
use filenymous.Wall.Updates.{
  welcome_of, members_of, post_msg_of, pin_of, live_msg_of, live_fail_of, notice_of, typing_by_of,
  burst_by_of, settings_of, kick_of, put_ok_of, put_fail_of, get_begin_of, get_end_of, get_fail_of,
  destroy_of, snote_of, snote_lock_by_of, task_msg_of, board_of,
}
use filenymous.Wall.RtcWire.{rtc_of}
use filenymous.Wall.SearchWire.{parse_search_message}
use filenymous.Wall.ThreadWire.{parse_thread_message}

-- One case of the switch: the word of `t`, and what is read then.
abbrev pub Case : Type 0
Case = Text × (Fields → Option WallMessage)

pub plain : WallMessage → Fields → Option WallMessage
plain m fs = some m

pub rtc_msg_of : Fields → Option WallMessage
rtc_msg_of fs = do m ← rtc_of fs; some (rtc m)

pub requests : (Text → Bool) → List Case
requests is_emoji =
    (codes "profile", profile_of)
    ∷ (codes "say", say_of)
    ∷ (codes "put", put_of)
    ∷ (codes "put-end", put_end_of)
    ∷ (codes "get", get_of)
    ∷ (codes "react", react_of is_emoji)
    ∷ (codes "poll", poll_of)
    ∷ (codes "vote", vote_of)
    ∷ (codes "poll-close", about_post (codes "id") poll_close)
    ∷ (codes "remove", about_post (codes "id") remove)
    ∷ (codes "typing", plain typing)
    ∷ (codes "burst", burst_of)
    ∷ (codes "hand", hand_of)
    ∷ (codes "rename", rename_of)
    ∷ (codes "live-start", live_start_of)
    ∷ (codes "live-stop", about_post (codes "sid") live_stop)
    ∷ (codes "live-ok", about_post (codes "sid") live_ok)
    ∷ (codes "bye", plain bye)
    ∷ []

pub collaboration : List Case
collaboration =
    (codes "snote-new", snote_new_of)
    ∷ (codes "snote-edit", snote_edit_of)
    ∷ (codes "snote-del", about_note snote_del)
    ∷ (codes "snote-lock", snote_lock_of)
    ∷ (codes "snote", snote_of)
    ∷ (codes "snote-gone", about_note snote_gone)
    ∷ (codes "snote-lock-by", snote_lock_by_of)
    ∷ (codes "task-new", task_new_of)
    ∷ (codes "task-set", task_set_of)
    ∷ (codes "task-del", about_task task_del)
    ∷ (codes "task-gone", about_task task_gone)
    ∷ (codes "task", task_msg_of)
    ∷ (codes "board-op", board_op_of)
    ∷ (codes "board", board_of)
    ∷ (codes "rtc", rtc_msg_of)
    ∷ []

pub updates : (Text → Bool) → (Text → Text) → List Case
updates is_emoji lower =
    (codes "welcome", welcome_of)
    ∷ (codes "members", members_of)
    ∷ (codes "post", post_msg_of is_emoji lower)
    ∷ (codes "unpost", about_post (codes "id") unpost)
    ∷ (codes "pin", pin_of)
    ∷ (codes "live", live_msg_of)
    ∷ (codes "live-fail", live_fail_of)
    ∷ (codes "notice", notice_of)
    ∷ (codes "typing-by", typing_by_of)
    ∷ (codes "burst-by", burst_by_of)
    ∷ (codes "settings", settings_of)
    ∷ (codes "kick", kick_of)
    ∷ (codes "put-ok", put_ok_of)
    ∷ (codes "put-fail", put_fail_of)
    ∷ (codes "get-begin", get_begin_of)
    ∷ (codes "get-end", get_end_of)
    ∷ (codes "get-fail", get_fail_of)
    ∷ (codes "destroy", destroy_of)
    ∷ []

pub switch : Text → Fields → List Case → Option WallMessage → Option WallMessage
switch t fs [] other = other
switch t fs ((word, read) ∷ cases) other =
    let rest = switch t fs cases other in if text_eq t word then read fs else rest

pub starts_with : Text → Text → Bool
starts_with prefix s = is_some (after_prefix prefix s)

pub thread_of : Fields → Option WallMessage
thread_of fs = do m ← parse_thread_message fs; some (thread_msg m)

module _ (is_emoji : Text → Bool) (lower : Text → Text) (thousandths : Number → Number) where
  pub search_of : Text → Fields → Option WallMessage
  search_of t fs = do m ← parse_search_message thousandths t fs; some (search_msg m)

  pub other_of : Text → Fields → Option WallMessage
  other_of t fs = if starts_with (codes "thread") t then thread_of fs else search_of t fs

  pub message_of : Fields → Option WallMessage
  message_of fs = do
    t ← as_string (find (codes "t") fs)
    switch t fs (requests is_emoji ++ (collaboration ++ updates is_emoji lower)) (other_of t fs)

  pub parse_wall_message : Json → Option WallMessage
  parse_wall_message m = as_object m >>= message_of
