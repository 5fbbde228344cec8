-- ===== src/Wall/Requests/Accepted.antt =====
-- What the host accepts of a peer is well formed.
use filenymous.Prelude.{
  ◌+◌, ◌≤◌, ◌≡◌, refl, Bool, true, ◌||◌, none, some, is_some, List, leb, ltb, leb→le, ltb→lt, arith,
  Text, codes, text_eq, length, length-take-le, All,
}
use filenymous.Prelude.Json.{Json, string, Fields, find, as_boolean, as_string}
use filenymous.Prelude.Items.{
  as_array, text_of, text_of-Each, text_of-fits, fits, optional, optional-Each, nullable,
  nullable-Each, missing, missing-Each, all_of, all_of-All, Each-text, Each-fits, Each-int,
  Each-then,
}
use filenymous.Prelude.Options.{Each, Each-bind, Each-guard, Each-of, Each-if}
use filenymous.Wall.Collab.{is_label, is_task_id, is_result_id}
use filenymous.Wall.ItemWire.{item_kind}
use filenymous.Wall.FeedWire.{max_msg_chars, poll_max, clean_name, is_post_id, live_kind}
use filenymous.Wall.FeedWire.Accepted.{clean_name-IsName}
use filenymous.Wall.Notes.{clean_note_text, clean_note_title}
use filenymous.Wall.NotesWire.{is_note_id}
use filenymous.Wall.NotesWire.Accepted.{
  IsTitle, IsBody, clean_note_title-IsTitle, clean_note_text-IsBody,
}
use filenymous.Wall.Tasks.{AgentTaskState, submitted, clean_task_text, TaskPatch}
use filenymous.Wall.Tasks.Patches.{clean_task_text-bounds}
use filenymous.Wall.TaskWire.{kind_named}
use filenymous.Wall.Messages.{WallMessage, task_set}
use filenymous.Wall.Messages.Shape.{
  IsPostId, IsLabel, IsNoteId, IsTaskId, IsFeature, IsTaskText, IsStateName, IsMessage,
}
use filenymous.Wall.Requests.{
  text_at, post_id_at, feature_of, profile_of, say_of, put_of, put_end_of, get_of, react_of,
  poll_of, vote_of, about_post, burst_kind, burst_of, hand_of, rename_of, live_start_of,
  snote_new_of, snote_edit_of, about_note, snote_lock_of, task_text, submitted_state,
  only_submitted, task_new_of, is_state, cut_note, changes, task_set_of, about_task, board_op_of,
}

pub feature_of-IsFeature : (v : Json) → Each IsFeature (feature_of v)
unfolding feature_of
feature_of-IsFeature v =
    Each-int IsFeature 1 v _ λ n l _. Each-guard IsFeature (ltb n 1000) _ λ h. (l, ltb→lt n 1000 h)

task_text-IsTaskText : (v : Json) → Each IsTaskText (task_text v)
unfolding task_text
task_text-IsTaskText v =
    Each-bind IsTaskText (as_string v) _
      λ s _. Each-of IsTaskText (clean_task_text s) λ t e. clean_task_text-bounds s e

only_submitted-Each : (v : Json) → Each (λ (t : AgentTaskState). t ≡ submitted) (only_submitted v)
unfolding only_submitted submitted_state
only_submitted-Each v =
    let Good : AgentTaskState → Type 0 = λ t. t ≡ submitted in
    Each-bind Good (as_string v) _
      λ s _. Each-if Good (text_eq s (codes "submitted")) (some submitted) none refl tt

cut_note-le : (v : Json) → Each (λ (s : Text). length s ≤ 1000) (cut_note v)
unfolding cut_note
cut_note-le v =
    Each-bind (λ (s : Text). length s ≤ 1000) (as_string v) _ λ s _. length-take-le 1000 s

is_state-IsStateName : (v : Json) → Each IsStateName (text_of is_state v)
unfolding is_state
is_state-IsStateName v = text_of-Each is_state v

module _ (is_emoji : Text → Bool) (lower : Text → Text) (fs : Fields) where
  abbrev Good : WallMessage → Type 0
  Good = IsMessage is_emoji lower

  pub profile_of-IsMessage : Each Good (profile_of fs)
  unfolding profile_of text_at IsMessage
  profile_of-IsMessage = Each-fits Good 200 (find _ fs) _ λ name _.
      Each-bind Good (as_boolean (find _ fs)) _ λ agent _.
        Each-bind Good (as_boolean (find _ fs)) _
          λ media _. (clean_name-IsName (string name), feature_of-IsFeature (find _ fs))

  pub say_of-IsMessage : Each Good (say_of fs)
  unfolding say_of text_at IsMessage
  say_of-IsMessage = Each-fits Good (max_msg_chars + 64) (find _ fs) _ λ s l.
      Each-then Good (Each IsPostId) (optional (text_of is_post_id) (find _ fs)) _
        (optional-Each IsPostId (text_of is_post_id) (text_of-Each is_post_id) (find _ fs))
        λ reply_to r. (l, r)

  pub put_of-IsMessage : Each Good (put_of fs)
  unfolding put_of text_at IsMessage
  put_of-IsMessage = Each-int Good 1 (find _ fs) _ λ uid l m.
      Each-bind Good (as_string (find _ fs)) _ λ word _. Each-bind Good (item_kind word) _ λ kind _.
        Each-fits Good 400 (find _ fs) _ λ name n. Each-int Good 0 (find _ fs) _ λ size sl sm.
          Each-fits Good 200 (find _ fs) _ λ mime t.
            Each-then Good (Each IsPostId) (optional (text_of is_post_id) (find _ fs)) _
              (optional-Each IsPostId (text_of is_post_id) (text_of-Each is_post_id) (find _ fs))
              λ reply_to r. record {
                numbered = (l, m);
                titled = n;
                sized = (sl, sm);
                typed = t;
                replied = r;
              }

  pub put_end_of-IsMessage : Each Good (put_end_of fs)
  unfolding put_end_of IsMessage
  put_end_of-IsMessage =
      Each-int Good 1 (find _ fs) _
        λ uid l m. Each-int Good 0 (find _ fs) _ λ chunks cl cm. ((l, m), (cl, cm))

  pub get_of-IsMessage : Each Good (get_of fs)
  unfolding get_of text_at IsMessage
  get_of-IsMessage =
      Each-int Good 1 (find _ fs) _ λ rid l m. Each-fits Good 64 (find _ fs) _ λ id h. ((l, m), h)

  pub react_of-IsMessage : Each Good (react_of is_emoji fs)
  unfolding react_of post_id_at IsMessage
  react_of-IsMessage =
      Each-text Good is_post_id (find _ fs) _
        λ id h. Each-text Good is_emoji (find _ fs) _ λ emoji e. (h, e)

  pub poll_of-IsMessage : Each Good (poll_of fs)
  unfolding poll_of text_at IsMessage
  poll_of-IsMessage = Each-fits Good 400 (find _ fs) _ λ question q.
      Each-bind Good (as_array (find _ fs)) _ λ vs _.
        Each-guard Good (leb (length vs) poll_max) _ λ few.
          Each-then Good
            (λ (os : List Text). All (λ (o : Text). length o ≤ 200) os × (length os ≡ length vs))
            (all_of (text_of (fits 200)) vs) _
            (all_of-All (λ (o : Text). length o ≤ 200) (text_of (fits 200)) (text_of-fits 200) vs)
            λ os h. (q, h.0, omega (arith, h.1, leb→le (length vs) poll_max few))

  pub vote_of-IsMessage : Each Good (vote_of fs)
  unfolding vote_of post_id_at IsMessage
  vote_of-IsMessage = Each-text Good is_post_id (find _ fs) _ λ id h.
      Each-int Good 0 (find _ fs) _
        λ option _ _. Each-guard Good (ltb option poll_max) _ λ l. (h, ltb→lt option poll_max l)

  pub about_post-IsMessage :
      (k : Text) (make : Text → WallMessage)
      → ((id : Text) → IsPostId id → Good (make id))
      → Each Good (about_post k make fs)
  unfolding about_post post_id_at
  about_post-IsMessage k make h = Each-text Good is_post_id (find _ fs) _ λ id e. h id e

  pub burst_of-IsMessage : Each Good (burst_of fs)
  unfolding burst_of IsMessage
  burst_of-IsMessage =
      Each-bind Good (as_string (find _ fs)) _
        λ word _. Each-bind Good (burst_kind word) _ λ kind _. tt

  pub hand_of-IsMessage : Each Good (hand_of fs)
  unfolding hand_of IsMessage
  hand_of-IsMessage = Each-bind Good (as_boolean (find _ fs)) _ λ up _. tt

  pub rename_of-IsMessage : Each Good (rename_of fs)
  unfolding rename_of text_at IsMessage
  rename_of-IsMessage = Each-fits Good 200 (find _ fs) _ λ name _.
      Each-guard Good (leb 1 (length (clean_name (string name)))) _
        λ full. (clean_name-IsName (string name), leb→le 1 (length (clean_name (string name))) full)

  pub live_start_of-IsMessage : Each Good (live_start_of fs)
  unfolding live_start_of IsMessage
  live_start_of-IsMessage = Each-bind Good (as_string (find _ fs)) _ λ word _.
      Each-bind Good (live_kind word) _ λ kind _.
        Each-int Good 1 (find _ fs) _
          λ tracks l _. Each-guard Good (leb tracks 2) _ λ h. (l, leb→le tracks 2 h)

  pub snote_new_of-IsMessage : Each Good (snote_new_of fs)
  unfolding snote_new_of IsMessage
  snote_new_of-IsMessage =
      Each-then Good IsTitle (clean_note_title (find _ fs)) _ (clean_note_title-IsTitle _)
        λ title t.
          Each-then Good IsBody (clean_note_text (find _ fs)) _ (clean_note_text-IsBody _)
            λ body b. (t, b)

  pub snote_edit_of-IsMessage : Each Good (snote_edit_of fs)
  unfolding snote_edit_of IsMessage
  snote_edit_of-IsMessage = Each-text Good is_note_id (find _ fs) _ λ id named.
      Each-int Good 0 (find _ fs) _ λ base l m.
        Each-then Good (Each IsTitle) (optional clean_note_title (find _ fs)) _
          (optional-Each IsTitle clean_note_title clean_note_title-IsTitle (find _ fs))
          λ title t.
            Each-then Good (Each IsBody) (optional clean_note_text (find _ fs)) _
              (optional-Each IsBody clean_note_text clean_note_text-IsBody (find _ fs))
              λ body b.
                Each-guard Good (is_some title || is_some body) _
                  λ some_of. (named, (l, m), t, b, some_of)

  pub about_note-IsMessage :
      (make : Text → WallMessage)
      → ((id : Text) → IsNoteId id → Good (make id))
      → Each Good (about_note make fs)
  unfolding about_note
  about_note-IsMessage make h = Each-text Good is_note_id (find _ fs) _ λ id e. h id e

  pub snote_lock_of-IsMessage : Each Good (snote_lock_of fs)
  unfolding snote_lock_of IsMessage
  snote_lock_of-IsMessage =
      Each-text Good is_note_id (find _ fs) _
        λ id named. Each-bind Good (as_boolean (find _ fs)) _ λ on _. named

  pub task_new_of-IsMessage : Each Good (task_new_of fs)
  unfolding task_new_of IsMessage
  task_new_of-IsMessage =
      Each-then Good IsTaskText (task_text (find _ fs)) _ (task_text-IsTaskText _) λ words w.
        Each-bind Good (as_string (find _ fs)) _ λ word _.
          Each-bind Good (kind_named word) _ λ kind _.
            Each-then Good (Each IsLabel) (missing (text_of is_label) (find _ fs)) _
              (missing-Each IsLabel (text_of is_label) (text_of-Each is_label) (find _ fs))
              λ owner o.
                Each-then Good (Each (λ (t : AgentTaskState). t ≡ submitted))
                  (optional only_submitted (find _ fs)) _
                  (optional-Each (λ (t : AgentTaskState). t ≡ submitted) only_submitted
                    only_submitted-Each (find _ fs))
                  λ state s. (w, o, s)

  pub task_set_of-IsMessage : Each Good (task_set_of fs)
  unfolding task_set_of IsMessage changes
  task_set_of-IsMessage = Each-text Good is_task_id (find _ fs) _ λ id named.
      Each-bind Good (optional as_boolean (find _ fs)) _ λ done _.
        Each-then Good (Each (Each IsLabel)) (optional (nullable (text_of is_label)) (find _ fs)) _
          (optional-Each (Each IsLabel) (nullable (text_of is_label))
            (nullable-Each IsLabel (text_of is_label) (text_of-Each is_label)) (find _ fs))
          λ owner o.
            Each-then Good (Each IsTaskText) (optional task_text (find _ fs)) _
              (optional-Each IsTaskText task_text task_text-IsTaskText (find _ fs))
              λ words w.
                Each-then Good (Each IsStateName) (optional (text_of is_state) (find _ fs)) _
                  (optional-Each IsStateName (text_of is_state) is_state-IsStateName (find _ fs))
                  λ state s.
                    Each-then Good (Each (λ (n : Text). length n ≤ 1000))
                      (optional cut_note (find _ fs)) _
                      (optional-Each (λ (n : Text). length n ≤ 1000) cut_note cut_note-le
                        (find _ fs))
                      λ note n.
                        Each-then Good (Each (λ r. is_result_id r ≡ true))
                          (optional (text_of is_result_id) (find _ fs)) _
                          (optional-Each (λ r. is_result_id r ≡ true) (text_of is_result_id)
                            (text_of-Each is_result_id) (find _ fs))
                          λ result r.
                            let patch : TaskPatch = record {
                              done = done;
                              owner = owner;
                              text = words;
                              state = state;
                              note = note;
                              result = result;
                            } in
                            Each-guard Good (changes patch) (some (task_set id patch)) λ changing. (
                              named,
                              record {
                                owned = o;
                                worded = w;
                                named = s;
                                noted = n;
                                resulted = r;
                                changing = changing;
                              },
                            )

  pub about_task-IsMessage :
      (make : Text → WallMessage)
      → ((id : Text) → IsTaskId id → Good (make id))
      → Each Good (about_task make fs)
  unfolding about_task
  about_task-IsMessage make h = Each-text Good is_task_id (find _ fs) _ λ id e. h id e

  pub board_op_of-IsMessage : Each Good (board_op_of fs)
  unfolding board_op_of IsMessage
  board_op_of-IsMessage =
      Each-bind Good (as_array (find _ fs)) _
        λ vs _. Each-guard Good (leb (length vs) 500) _ λ h. leb→le (length vs) 500 h
