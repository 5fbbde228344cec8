-- ===== src/Wall/Messages.antt =====
-- ui/src/wall/model.ts: `WallMessage`, the control messages between a peer and the host. A property
-- that may be left out is an option.
pub mod Shape
use filenymous.Prelude.{ℕ, Bool, Option, List, Text}
use filenymous.Prelude.Json.{Json}
use filenymous.Wall.Model.{ItemKind, ItemMeta}
use filenymous.Wall.Feed.{Post}
use filenymous.Wall.FeedWire.{Member, LiveKind, LiveInfo}
use filenymous.Wall.NotesWire.{ReceivedNote}
use filenymous.Wall.Tasks.{TaskKind, AgentTaskState, TaskPatch, Task}
use filenymous.Wall.Board.{BoardElement}
use filenymous.Wall.RtcWire.{RtcMessage}
use filenymous.Wall.SearchWire.{SearchMessage}
use filenymous.Wall.ThreadWire.{ThreadMessage}

pub data BurstKind : Type 0 where
  applause party heart : BurstKind

pub data DestroyReason : Type 0 where
  destroyed expired host_left : DestroyReason

pub data KickReason : Type 0 where
  kicked agents_off : KickReason

pub data GetFailure : Type 0 where
  gone busy denied : GetFailure

-- An upload that a peer announces.
pub record Upload : Type 0 where
  pub uid : ℕ
  pub kind : ItemKind
  pub name : Text
  pub size : ℕ
  pub mime : Text
  pub reply_to : Option Text

pub record Welcome : Type 0 where
  pub label : Text
  pub expires_at : ℕ
  pub burn : Bool
  pub host_leave : Bool
  pub agents : Bool
  pub media : Bool
  pub title : Text
  pub pending : Bool
  pub feat : Option ℕ

pub data WallMessage : Type 0 where
  -- from a peer to the host
  profile : Text → Bool → Bool → Option ℕ → WallMessage
  say : Text → Option Text → WallMessage
  put : Upload → WallMessage
  put_end : ℕ → ℕ → WallMessage
  get : ℕ → Text → WallMessage
  react : Text → Text → WallMessage
  poll : Text → List Text → WallMessage
  vote : Text → ℕ → WallMessage
  poll_close remove : Text → WallMessage
  typing : WallMessage
  burst : BurstKind → WallMessage
  hand : Bool → WallMessage
  rename : Text → WallMessage
  live_start : LiveKind → ℕ → WallMessage
  live_stop : Text → WallMessage
  bye : WallMessage
  snote_new : Text → Text → WallMessage
  snote_edit : Text → ℕ → Option Text → Option Text → WallMessage
  snote_del : Text → WallMessage
  snote_lock : Text → Bool → WallMessage
  task_new : TaskKind → Text → Option Text → Option AgentTaskState → WallMessage
  task_set : Text → TaskPatch → WallMessage
  task_del : Text → WallMessage
  board_op : List Json → WallMessage
  -- both ways
  rtc : RtcMessage → WallMessage
  search_msg : SearchMessage → WallMessage
  thread_msg : ThreadMessage → WallMessage
  -- from the host to a peer
  welcome : Welcome → WallMessage
  members : List Member → WallMessage
  post : Post → WallMessage
  unpost : Text → WallMessage
  pin : Option Text → WallMessage
  live : List LiveInfo → Option Bool → WallMessage
  live_ok live_fail typing_by : Text → WallMessage
  burst_by : Text → BurstKind → WallMessage
  settings : Bool → WallMessage
  notice : Text → Option ℕ → WallMessage
  kick : KickReason → WallMessage
  put_ok put_fail : ℕ → Text → WallMessage
  get_begin : ℕ → ItemMeta → WallMessage
  get_end : ℕ → ℕ → WallMessage
  get_fail : ℕ → GetFailure → WallMessage
  destroy : DestroyReason → WallMessage
  snote : ReceivedNote → Option Text → WallMessage
  snote_gone : Text → WallMessage
  snote_lock_by : Text → Option Text → ℕ → WallMessage
  task_msg : Task → WallMessage
  task_gone : Text → WallMessage
  board : List BoardElement → WallMessage
