-- ===== src/Wall/RtcWire.antt =====
-- ui/src/wall/model.ts: the messages that set up a live stream.
pub mod Accepted
use filenymous.Prelude.{
  ℕ, ◌*◌, Bool, true, false, ◌&&◌, ◌||◌, Option, none, some, List, [], ◌∷◌, leb, if◌then◌else◌,
  Text, codes, text_eq, length,
}
use filenymous.Prelude.Json.{Json, string, Fields, find, int, as_string, as_object}
use filenymous.Prelude.Items.{text_of, fits, missing}
use filenymous.Prelude.Options.{◌>>=◌, ◌>>◌, guard}
use filenymous.Wall.Collab.{after_prefix}
use filenymous.Wall.FeedWire.{is_post_id}

-- `RTCIceCandidateInit`; none is null, and for the last one undefined.
pub record Candidate : Type 0 where
  pub candidate : Text
  pub sdp_mid : Option Text
  pub sdp_m_line_index : Option ℕ
  pub username_fragment : Option Text

pub data Signal : Type 0 where
  offer answer : Text → Signal
  ice : Candidate → Signal

pub record RtcMessage : Type 0 where
  pub link : Text
  pub signal : Signal

after : Text → Text → Bool
unfolding after_prefix is_post_id
after prefix s = elim (after_prefix prefix s) [ none ↦ false | some id ↦ is_post_id id ]

-- `/^(up|down):[a-z0-9-]{1,64}$/`
pub is_link : Text → Bool
unfolding after
is_link s = after (codes "up:") s || after (codes "down:") s

pub candidate_of : Fields → Option Candidate
candidate_of fs = do
  line ← text_of (fits 2048) (find (codes "candidate") fs)
  mid ← missing (text_of (fits 64)) (find (codes "sdpMid") fs)
  index ← missing (int 0) (find (codes "sdpMLineIndex") fs)
  fragment ← missing (text_of (fits 256)) (find (codes "usernameFragment") fs)
  some (record {
    candidate = line;
    sdp_mid = mid;
    sdp_m_line_index = index;
    username_fragment = fragment;
  })

pub clean_candidate : Json → Option Candidate
clean_candidate c = as_object c >>= candidate_of

pub sdp_of : Fields → Option Text
sdp_of fs = do
  s ← text_of (fits (64 * 1024)) (find (codes "sdp") fs)
  guard (leb 1 (length s))
  some s

pub signal_of : Text → Fields → Option Signal
signal_of kind fs =
    if text_eq kind (codes "offer")
    then (do s ← sdp_of fs; some (offer s))
    else if text_eq kind (codes "answer")
    then (do s ← sdp_of fs; some (answer s))
    else if text_eq kind (codes "ice")
    then (do c ← clean_candidate (find (codes "candidate") fs); some (ice c))
    else none

pub rtc_of : Fields → Option RtcMessage
rtc_of fs = do
  link ← text_of is_link (find (codes "link") fs)
  kind ← as_string (find (codes "kind") fs)
  signal ← signal_of kind fs
  some (record { link = link; signal = signal })
