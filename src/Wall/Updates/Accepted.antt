-- ===== src/Wall/Updates/Accepted.antt =====
-- What a peer accepts of the host is well formed.
use filenymous.Prelude.{◌≡◌, Bool, List, leb, leb→le, arith, Text, codes, length, All}
use filenymous.Prelude.Json.{Fields, find, int, as_boolean, as_string}
use filenymous.Prelude.Items.{
  as_array, text_of, text_of-Each, optional, optional-Each, nullable, nullable-Each, all_of,
  all_of-All, those_of-All, length-those_of-le, int-Each, Each-text, Each-fits, Each-int, Each-then,
}
use filenymous.Prelude.Options.{Each, Each-bind, Each-guard}
use filenymous.Wall.Collab.{is_label}
use filenymous.Wall.ItemWire.{clean_meta}
use filenymous.Wall.ItemWire.Accepted.{IsItem, clean_meta-IsItem}
use filenymous.Wall.FeedWire.{Member, LiveInfo, is_post_id, clean_member, clean_live}
use filenymous.Wall.FeedWire.Accepted.{IsMember, clean_member-IsMember, IsLive, clean_live-IsLive}
use filenymous.Wall.PostWire.{clean_post}
use filenymous.Wall.PostWire.Accepted.{IsPost, clean_post-IsPost}
use filenymous.Wall.NotesWire.{is_note_id, clean_shared_note}
use filenymous.Wall.NotesWire.Accepted.{IsReceivedNote, clean_shared_note-IsReceivedNote}
use filenymous.Wall.TaskWire.{clean_task}
use filenymous.Wall.TaskWire.Accepted.{IsReceived, clean_task-IsReceived}
use filenymous.Wall.Board.{clean_board_element}
use filenymous.Wall.Board.Capacity.{IsClean, clean_board_element-IsClean}
use filenymous.Wall.Requests.{text_at, burst_kind}
use filenymous.Wall.Requests.Accepted.{feature_of-IsFeature}
use filenymous.Wall.Updates.Titles.{title_of-IsWallTitle}
use filenymous.Wall.Messages.{WallMessage}
use filenymous.Wall.Messages.Shape.{IsPostId, IsLabel, InRange, IsMessage}
use filenymous.Wall.Updates.{
  welcome_of, members_of, post_msg_of, pin_of, captions_of, live_msg_of, live_fail_of, notice_of,
  typing_by_of, burst_by_of, settings_of, kick_reason, kick_of, put_ok_of, put_fail_of,
  get_begin_of, get_end_of, get_failure, get_fail_of, destroy_reason, destroy_of, snote_of,
  snote_lock_by_of, task_msg_of, board_of, max_live,
}

module _ (is_emoji : Text → Bool) (lower : Text → Text) (fs : Fields) where
  abbrev Good : WallMessage → Type 0
  Good = IsMessage is_emoji lower

  pub welcome_of-IsMessage : Each Good (welcome_of fs)
  unfolding welcome_of IsMessage
  welcome_of-IsMessage = Each-text Good is_label (find _ fs) _ λ label h.
      Each-int Good 0 (find _ fs) _ λ expires_at l m.
        Each-bind Good (as_boolean (find _ fs)) _ λ burn _.
          Each-bind Good (as_boolean (find _ fs)) _ λ host_leave _.
            Each-bind Good (as_boolean (find _ fs)) _ λ agents _.
              Each-bind Good (as_boolean (find _ fs)) _ λ media _. record {
                labelled = h;
                ending = (l, m);
                titled = title_of-IsWallTitle (find (codes "title") fs);
                featured = feature_of-IsFeature (find (codes "feat") fs);
              }

  pub members_of-IsMessage : Each Good (members_of fs)
  unfolding members_of IsMessage
  members_of-IsMessage = Each-bind Good (as_array (find _ fs)) _ λ vs _.
      Each-guard Good (leb (length vs) 64) _ λ few.
        Each-then Good (λ (ms : List Member). All IsMember ms × (length ms ≡ length vs))
          (all_of clean_member vs) _ (all_of-All IsMember clean_member clean_member-IsMember vs)
          λ ms h. (h.0, omega (arith, h.1, leb→le (length vs) 64 few))

  pub post_msg_of-IsMessage : Each Good (post_msg_of is_emoji lower fs)
  unfolding post_msg_of IsMessage
  post_msg_of-IsMessage =
      Each-then Good (IsPost is_emoji lower IsItem)
        (clean_post is_emoji lower clean_meta (find _ fs)) _
        (clean_post-IsPost is_emoji lower IsItem clean_meta clean_meta-IsItem (find _ fs)) λ p h. h

  pub pin_of-IsMessage : Each Good (pin_of fs)
  unfolding pin_of IsMessage
  pin_of-IsMessage =
      Each-then Good (Each IsPostId) (nullable (text_of is_post_id) (find _ fs)) _
        (nullable-Each IsPostId (text_of is_post_id) (text_of-Each is_post_id) (find _ fs))
        λ id h. h

  pub live_msg_of-IsMessage : Each Good (live_msg_of fs)
  unfolding live_msg_of IsMessage
  live_msg_of-IsMessage = Each-bind Good (as_array (find _ fs)) _ λ vs _.
      Each-guard Good (leb (length vs) max_live) _ λ few.
        Each-then Good (λ (ls : List LiveInfo). All IsLive ls × (length ls ≡ length vs))
          (all_of clean_live vs) _ (all_of-All IsLive clean_live clean_live-IsLive vs)
          λ ls h.
            Each-bind Good (optional captions_of (find _ fs)) _
              λ captions _. (h.0, omega (arith, h.1, leb→le (length vs) max_live few))

  pub live_fail_of-IsMessage : Each Good (live_fail_of fs)
  unfolding live_fail_of text_at IsMessage
  live_fail_of-IsMessage = Each-fits Good 64 (find _ fs) _ λ reason h. h

  pub notice_of-IsMessage : Each Good (notice_of fs)
  unfolding notice_of text_at IsMessage
  notice_of-IsMessage = Each-fits Good 64 (find _ fs) _ λ code h.
      Each-then Good (Each (InRange 0)) (optional (int 0) (find _ fs)) _
        (optional-Each (InRange 0) (int 0) (int-Each 0) (find _ fs)) λ retry_ms r. (h, r)

  pub typing_by_of-IsMessage : Each Good (typing_by_of fs)
  unfolding typing_by_of IsMessage
  typing_by_of-IsMessage = Each-text Good is_label (find _ fs) _ λ label h. h

  pub burst_by_of-IsMessage : Each Good (burst_by_of fs)
  unfolding burst_by_of IsMessage
  burst_by_of-IsMessage = Each-text Good is_label (find _ fs) _ λ label h.
      Each-bind Good (as_string (find _ fs)) _
        λ word _. Each-bind Good (burst_kind word) _ λ kind _. h

  pub settings_of-IsMessage : Each Good (settings_of fs)
  unfolding settings_of IsMessage
  settings_of-IsMessage = Each-bind Good (as_boolean (find _ fs)) _ λ agents _. tt

  pub kick_of-IsMessage : Each Good (kick_of fs)
  unfolding kick_of IsMessage
  kick_of-IsMessage =
      Each-bind Good (as_string (find _ fs)) _
        λ word _. Each-bind Good (kick_reason word) _ λ reason _. tt

  pub put_ok_of-IsMessage : Each Good (put_ok_of fs)
  unfolding put_ok_of text_at IsMessage
  put_ok_of-IsMessage =
      Each-int Good 1 (find _ fs) _ λ uid l m. Each-fits Good 64 (find _ fs) _ λ id h. ((l, m), h)

  pub put_fail_of-IsMessage : Each Good (put_fail_of fs)
  unfolding put_fail_of text_at IsMessage
  put_fail_of-IsMessage =
      Each-int Good 1 (find _ fs) _
        λ uid l m. Each-fits Good 64 (find _ fs) _ λ reason h. ((l, m), h)

  pub get_begin_of-IsMessage : Each Good (get_begin_of fs)
  unfolding get_begin_of IsMessage
  get_begin_of-IsMessage =
      Each-then Good IsItem (clean_meta (find _ fs)) _ (clean_meta-IsItem (find _ fs))
        λ item h. Each-int Good 1 (find _ fs) _ λ rid l m. ((l, m), h)

  pub get_end_of-IsMessage : Each Good (get_end_of fs)
  unfolding get_end_of IsMessage
  get_end_of-IsMessage =
      Each-int Good 1 (find _ fs) _
        λ rid l m. Each-int Good 0 (find _ fs) _ λ chunks cl cm. ((l, m), (cl, cm))

  pub get_fail_of-IsMessage : Each Good (get_fail_of fs)
  unfolding get_fail_of IsMessage
  get_fail_of-IsMessage = Each-int Good 1 (find _ fs) _ λ rid l m.
      Each-bind Good (as_string (find _ fs)) _
        λ word _. Each-bind Good (get_failure word) _ λ reason _. (l, m)

  pub destroy_of-IsMessage : Each Good (destroy_of fs)
  unfolding destroy_of IsMessage
  destroy_of-IsMessage =
      Each-bind Good (as_string (find _ fs)) _
        λ word _. Each-bind Good (destroy_reason word) _ λ reason _. tt

  pub snote_of-IsMessage : Each Good (snote_of fs)
  unfolding snote_of IsMessage
  snote_of-IsMessage =
      Each-then Good IsReceivedNote (clean_shared_note (find _ fs)) _
        (clean_shared_note-IsReceivedNote (find _ fs))
        λ note h.
          Each-then Good (Each IsLabel) (optional (text_of is_label) (find _ fs)) _
            (optional-Each IsLabel (text_of is_label) (text_of-Each is_label) (find _ fs))
            λ overwrote o. (h, o)

  pub snote_lock_by_of-IsMessage : Each Good (snote_lock_by_of fs)
  unfolding snote_lock_by_of IsMessage
  snote_lock_by_of-IsMessage = Each-text Good is_note_id (find _ fs) _ λ id named.
      Each-then Good (Each IsLabel) (nullable (text_of is_label) (find _ fs)) _
        (nullable-Each IsLabel (text_of is_label) (text_of-Each is_label) (find _ fs))
        λ label h. Each-int Good 0 (find _ fs) _ λ until l m. (named, h, (l, m))

  pub task_msg_of-IsMessage : Each Good (task_msg_of fs)
  unfolding task_msg_of IsMessage
  task_msg_of-IsMessage =
      Each-then Good IsReceived (clean_task (find _ fs)) _ (clean_task-IsReceived (find _ fs))
        λ t h. h

  pub board_of-IsMessage : Each Good (board_of fs)
  unfolding board_of IsMessage
  board_of-IsMessage = Each-bind Good (as_array (find _ fs)) _ λ vs _.
      Each-guard Good (leb (length vs) 500) _ λ few. (
        those_of-All IsClean clean_board_element clean_board_element-IsClean vs,
        omega (arith, length-those_of-le clean_board_element vs, leb→le (length vs) 500 few),
      )
