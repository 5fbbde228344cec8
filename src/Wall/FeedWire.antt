-- ===== src/Wall/FeedWire.antt =====
-- ui/src/wall/feed.ts: the texts of the feed, and what a peer accepts as a poll, a member or a live
-- stream of the host. The `toLowerCase` by which the options of a poll are compared is an argument.
pub mod Accepted
use filenymous.Prelude.{
  ℕ, suc, Bool, true, false, ◌&&◌, ◌||◌, not, Option, none, some, List, [], ◌∷◌, map, leb, ltb,
  ◌==◌, if◌then◌else◌, is_some, Text, codes, text_eq, length, take, all, trim, unify_newlines,
  strip, collapse_spaces,
}
use filenymous.Prelude.Json.{
  Json, undefined, null, boolean, number, string, array, object, Fields, end, find, int, as_string,
  as_object, or_else,
}
use filenymous.Prelude.Items.{as_array, entries, is_true, text_of, those_of}
use filenymous.Prelude.Options.{◌>>=◌, ◌>>◌, guard}
use filenymous.Wall.Collab.{is_digit, is_label}
use filenymous.Wall.Scope.{AgentScope, clean_scope}
use filenymous.Wall.Feed.{Poll, includes}

abbrev pub max_msg_chars : ℕ
max_msg_chars = 4000

abbrev pub max_name : ℕ
max_name = 32

abbrev pub poll_min : ℕ
poll_min = 2

abbrev pub poll_max : ℕ
poll_max = 6

-- CTRL: control characters but tab, line feed and carriage return, and those that turn the
-- direction of writing.
unfoldable pub is_ctrl : ℕ → Bool
is_ctrl c =
    leb c 8
    || c == 0xb
    || c == 0xc
    || (leb 0xe c && leb c 0x1f)
    || c == 0x7f
    || (leb 0x202a c && leb c 0x202e)
    || (leb 0x2066 c && leb c 0x2069)

unfoldable pub clean : Text → ℕ → Text
unfolding is_ctrl strip
clean v max = take max (strip is_ctrl v)

is_break : ℕ → Bool
is_break c = c == 13 || c == 10 || c == 9

-- `s.replace(/[\r\n\t]+/g, " ")`
breaks_from : Bool → Text → Text
unfolding is_break
breaks_from after_break [] = []
breaks_from after_break (c ∷ s) =
    let rest = breaks_from (is_break c) s in
    if is_break c then if after_break then rest else 32 ∷ rest else c ∷ rest

unfoldable pub tidy_name : Text → Text
unfolding is_ctrl strip breaks_from collapse_spaces trim
tidy_name s = trim (take max_name (trim (collapse_spaces (breaks_from false (strip is_ctrl s)))))

unfoldable pub clean_name : Json → Text
clean_name (string s) = tidy_name s
clean_name _ = []

-- `s.replace(/\n{4,}/g, "\n\n\n")`, with the number of line feeds just before.
unfoldable pub squeeze_from : ℕ → Text → Text
squeeze_from n [] = []
squeeze_from n (c ∷ s) =
    let rest = squeeze_from 0 s in
    let more = squeeze_from (suc n) s in
    if c == 10 then if ltb n 3 then 10 ∷ more else more else c ∷ rest

unfoldable pub tidy_message : Text → Text
unfolding clean unify_newlines squeeze_from trim
tidy_message s = trim (squeeze_from 0 (clean (unify_newlines s) max_msg_chars))

unfoldable pub clean_message : Json → Text
clean_message (string s) = tidy_message s
clean_message _ = []

is_id_unit : ℕ → Bool
unfolding is_digit
is_id_unit c = (leb b'a' c && leb c b'z') || is_digit c || c == b'-'

-- `/^[a-z0-9-]{1,64}$/`
unfoldable pub is_post_id : Text → Bool
unfolding is_id_unit
is_post_id s = leb 1 (length s) && leb (length s) 64 && all is_id_unit s

-- `clean(v, max).replace(/\s+/g, " ").trim()`
pub tidy : ℕ → Text → Text
unfolding clean collapse_spaces trim
tidy max v = trim (collapse_spaces (clean v max))

full_text : Text → Option Text
full_text [] = none
full_text (c ∷ s) = some (c ∷ s)

tidy_text : ℕ → Json → Option Text
tidy_text max (string v) = full_text (tidy max v)
tidy_text max _ = none

-- Those options that are not empty.
poll_options : List Json → List Text
poll_options vs = those_of (tidy_text 80) vs

-- `new Set(xs).size === xs.length`
pub distinct : List Text → Bool
unfolding includes
distinct [] = true
distinct (x ∷ xs) = not (includes x xs) && distinct xs

no_votes : List Text → List (List Text)
no_votes options = map (λ o. []) options

pub make_poll : (Text → Text) → Json → Json → Option Poll
make_poll lower question options = do
  q ← tidy_text 200 question
  given ← as_array options
  let opts = poll_options given in
      do
        guard (leb poll_min (length opts) && leb (length opts) poll_max)
        guard (distinct (map lower opts))
        some (record { question = q; options = opts; votes = no_votes opts; closed = false })

pub record Member : Type 0 where
  pub label : Text
  pub name : Text
  pub agent : Bool
  pub host : Bool
  pub hand : Bool
  pub media : Bool
  pub scope : Option AgentScope

-- `cleanName(name) || label`
name_or : Text → Text → Text
name_or [] label = label
name_or (c ∷ s) label = c ∷ s

scope_of : Bool → Json → Option AgentScope
scope_of agent v = if agent then clean_scope v else none

pub member_of : Fields → Option Member
member_of fs = do
  label ← text_of is_label (find (codes "label") fs)
  let agent = is_true (find (codes "agent") fs) in
      some (record {
        label = label;
        name = name_or (clean_name (find (codes "name") fs)) label;
        agent = agent;
        host = text_eq label (codes "host");
        hand = is_true (find (codes "hand") fs);
        media = is_true (find (codes "media") fs);
        scope = scope_of agent (find (codes "scope") fs);
      })

pub clean_member : Json → Option Member
clean_member v = as_object v >>= member_of

pub data LiveKind : Type 0 where
  screen camera : LiveKind

pub record LiveInfo : Type 0 where
  pub sid : Text
  pub by : Text
  pub kind : LiveKind

pub live_kind : Text → Option LiveKind
live_kind s =
    if text_eq s (codes "screen")
    then some screen
    else if text_eq s (codes "camera")
    then some camera
    else none

pub live_of : Fields → Option LiveInfo
live_of fs = do
  sid ← text_of is_post_id (find (codes "sid") fs)
  by ← text_of is_label (find (codes "by") fs)
  name ← as_string (find (codes "kind") fs)
  kind ← live_kind name
  some (record { sid = sid; by = by; kind = kind })

pub clean_live : Json → Option LiveInfo
clean_live v = as_object v >>= live_of
