-- ===== src/Wall/FeedWire/Accepted.antt =====
-- The texts of the feed once cleaned, and the polls, members and live streams that a peer accepts.
use filenymous.Prelude.{
  ℕ, suc, ◌≤◌, ◌≡◌, refl, Bool, true, false, ◌&&◌, none, List, [], ◌∷◌, map, leb, arith, Text,
  codes, text_eq, length, take, trim, strip, strip-All, All, All-take, All-trim, length-take-le,
  length-trim-le, collapse_spaces, All-collapse_spaces, length-collapse_spaces-le, unify_newlines,
}
use filenymous.Prelude.Json.{
  Json, undefined, null, boolean, number, string, array, object, Fields, find, as_string, as_object,
}
use filenymous.Prelude.Items.{as_array, is_true, those_of-All, Each-text, Each-then}
use filenymous.Prelude.Options.{Each, Each-bind, Each-guard}
use filenymous.Wall.Collab.{is_digit, is_label, is_label-All, is_label-bounds}
use filenymous.Wall.Feed.{Poll}
use filenymous.Wall.FeedWire.{
  max_msg_chars, max_name, poll_min, poll_max, is_ctrl, clean, is_break, breaks_from, tidy_name,
  clean_name, squeeze_from, tidy_message, clean_message, is_post_id, tidy, full_text, tidy_text,
  poll_options, distinct, make_poll, Member, name_or, scope_of, member_of, clean_member, LiveInfo,
  live_kind, live_of, clean_live,
}

-- Neither a control character other than tab, line feed and carriage return, nor one that turns the
-- direction of writing.
abbrev pub IsVisible : ℕ → Type 0
IsVisible c = is_ctrl c ≡ false

IsVisible-space : IsVisible 32
unfolding is_ctrl
IsVisible-space = refl

IsVisible-newline : IsVisible 10
unfolding is_ctrl
IsVisible-newline = refl

clean-All : (v : Text) (max : ℕ) → All IsVisible (clean v max)
unfolding clean
clean-All v max = All-take IsVisible max (strip is_ctrl v) (strip-All is_ctrl v)

length-clean-le : (v : Text) (max : ℕ) → length (clean v max) ≤ max
unfolding clean
length-clean-le v max = length-take-le max (strip is_ctrl v)

breaks_from-All : (b : Bool) (s : Text) → All IsVisible s → All IsVisible (breaks_from b s)
unfolding breaks_from
breaks_from-All b [] h = tt
breaks_from-All b (c ∷ s) h = ground (arith, breaks_from-All (is_break c) s, IsVisible-space)

tidy_name-All : (s : Text) → All IsVisible (tidy_name s)
unfolding tidy_name
tidy_name-All s =
    let plain = breaks_from false (strip is_ctrl s) in
    All-trim IsVisible (take max_name (trim (collapse_spaces plain))) (
      All-take IsVisible max_name (trim (collapse_spaces plain)) (
        All-trim IsVisible (collapse_spaces plain) (
          All-collapse_spaces IsVisible plain IsVisible-space
            (breaks_from-All false (strip is_ctrl s) (strip-All is_ctrl s)))))

length-tidy_name-le : (s : Text) → length (tidy_name s) ≤ max_name
unfolding tidy_name
length-tidy_name-le s =
    let name = trim (collapse_spaces (breaks_from false (strip is_ctrl s))) in
    omega (arith, length-trim-le (take max_name name), length-take-le max_name name)

-- A name as it is shown.
abbrev pub IsName : Text → Type 0
IsName s = All IsVisible s × (length s ≤ max_name)

-- Whatever is sent as a name, the name that is shown has at most 32 code units, and none is a
-- control character other than tab, line feed and carriage return, or one that turns the direction of
-- writing.
pub clean_name-IsName : (v : Json) → IsName (clean_name v)
unfolding clean_name
clean_name-IsName (string s) = (tidy_name-All s, length-tidy_name-le s)
clean_name-IsName undefined = (tt, omega arith)
clean_name-IsName null = (tt, omega arith)
clean_name-IsName (boolean b) = (tt, omega arith)
clean_name-IsName (number n) = (tt, omega arith)
clean_name-IsName (array vs) = (tt, omega arith)
clean_name-IsName (object fs) = (tt, omega arith)

squeeze_from-All : (n : ℕ) (s : Text) → All IsVisible s → All IsVisible (squeeze_from n s)
unfolding squeeze_from
squeeze_from-All n [] h = tt
squeeze_from-All n (c ∷ s) h =
    ground (arith, squeeze_from-All 0 s, squeeze_from-All (suc n) s, IsVisible-newline)

length-squeeze_from-le : (n : ℕ) (s : Text) → length (squeeze_from n s) ≤ length s
unfolding squeeze_from
length-squeeze_from-le n [] = omega arith
length-squeeze_from-le n (c ∷ s) =
    ground (arith, length-squeeze_from-le 0 s, length-squeeze_from-le (suc n) s)

-- A text of a message as it is shown.
abbrev pub IsShown : Text → Type 0
IsShown s = All IsVisible s × (length s ≤ max_msg_chars)

tidy_message-IsShown : (s : Text) → IsShown (tidy_message s)
unfolding tidy_message
tidy_message-IsShown s =
    let cut = clean (unify_newlines s) max_msg_chars in
    (
      All-trim IsVisible (squeeze_from 0 cut)
          (squeeze_from-All 0 cut (clean-All (unify_newlines s) max_msg_chars)),
      omega (
        arith,
        length-trim-le (squeeze_from 0 cut),
        length-squeeze_from-le 0 cut,
        length-clean-le (unify_newlines s) max_msg_chars,
      ),
    )

pub clean_message-IsShown : (v : Json) → IsShown (clean_message v)
unfolding clean_message
clean_message-IsShown (string s) = tidy_message-IsShown s
clean_message-IsShown undefined = (tt, omega arith)
clean_message-IsShown null = (tt, omega arith)
clean_message-IsShown (boolean b) = (tt, omega arith)
clean_message-IsShown (number n) = (tt, omega arith)
clean_message-IsShown (array vs) = (tt, omega arith)
clean_message-IsShown (object fs) = (tt, omega arith)

-- A text with something in it, of a length, with nothing unseen.
abbrev pub IsLine : ℕ → Text → Type 0
IsLine max s = (1 ≤ length s) × (length s ≤ max) × All IsVisible s

length-tidy-le : (max : ℕ) (s : Text) → length (tidy max s) ≤ max
unfolding tidy
length-tidy-le max s = omega (
  arith,
  length-trim-le (collapse_spaces (clean s max)),
  length-collapse_spaces-le (clean s max),
  length-clean-le s max,
)

tidy-All : (max : ℕ) (s : Text) → All IsVisible (tidy max s)
unfolding tidy
tidy-All max s =
    All-trim IsVisible (collapse_spaces (clean s max))
      (All-collapse_spaces IsVisible (clean s max) IsVisible-space (clean-All s max))

full_text-IsLine :
    (max : ℕ) (s : Text) → length s ≤ max → All IsVisible s → Each (IsLine max) (full_text s)
unfolding full_text
full_text-IsLine max [] l h = tt
full_text-IsLine max (c ∷ s) l h = (omega arith, l, h)

tidy_text-IsLine : (max : ℕ) (v : Json) → Each (IsLine max) (tidy_text max v)
unfolding tidy_text
tidy_text-IsLine max (string s) =
    full_text-IsLine max (tidy max s) (length-tidy-le max s) (tidy-All max s)
tidy_text-IsLine max undefined = tt
tidy_text-IsLine max null = tt
tidy_text-IsLine max (boolean b) = tt
tidy_text-IsLine max (number n) = tt
tidy_text-IsLine max (array vs) = tt
tidy_text-IsLine max (object fs) = tt

poll_options-All : (vs : List Json) → All (IsLine 80) (poll_options vs)
unfolding poll_options
poll_options-All vs = those_of-All (IsLine 80) (tidy_text 80) (tidy_text-IsLine 80) vs

-- A poll as `makePoll` makes it, whose options are told apart by `lower`.
pub record IsPoll (lower : Text → Text) (p : Poll) : Type 0 where
  pub asked : IsLine 200 p.question
  pub offered : All (IsLine 80) p.options
  pub enough : poll_min ≤ length p.options
  pub few : length p.options ≤ poll_max
  pub apart : distinct (map lower p.options) ≡ true

pub make_poll-IsPoll :
    (lower : Text → Text) (question options : Json)
    → Each (IsPoll lower) (make_poll lower question options)
unfolding make_poll
make_poll-IsPoll lower question options =
    let Good : Poll → Type 0 = IsPoll lower in
    Each-then Good (IsLine 200) (tidy_text 200 question) _ (tidy_text-IsLine 200 question)
      λ q asked. Each-bind Good (as_array options) _ λ given _.
        let opts = poll_options given in
        Each-guard Good (leb poll_min (length opts) && leb (length opts) poll_max) _ λ sized.
          Each-guard Good (distinct (map lower opts)) _ λ apart. record {
            asked = asked;
            offered = poll_options-All given;
            enough = ground arith;
            few = ground arith;
            apart = apart;
          }

pub record IsMember (m : Member) : Type 0 where
  pub labelled : is_label m.label ≡ true
  pub shown : (1 ≤ length m.name) × IsName m.name
  pub hosting : m.host ≡ text_eq m.label (codes "host")
  -- Only an agent has a scope.
  pub scoped : m.agent ≡ false → m.scope ≡ none

label-IsVisible : (label : Text) → is_label label ≡ true → All IsVisible label
unfolding is_ctrl
label-IsVisible label h =
    is_label-All IsVisible (refl, (refl, (refl, (refl, tt))))
      (refl, (refl, (refl, (refl, (refl, tt))))) (λ c d. unfold is_digit in ground (arith, d)) label
      h

name_or-bounds :
    (s label : Text)
    → IsName s
    → is_label label ≡ true
    → (1 ≤ length (name_or s label)) × IsName (name_or s label)
unfolding name_or
name_or-bounds [] label l h = (
  (is_label-bounds label h).0,
  (label-IsVisible label h, omega (arith, (is_label-bounds label h).1)),
)
name_or-bounds (c ∷ s) label l h = (omega arith, l)

scope_of-none : (agent : Bool) (v : Json) → agent ≡ false → scope_of agent v ≡ none
unfolding scope_of
scope_of-none true v h = ground arith
scope_of-none false v h = refl

member_of-IsMember : (fs : Fields) → Each IsMember (member_of fs)
unfolding member_of
member_of-IsMember fs = Each-text IsMember is_label (find _ fs) _ λ label labelled. record {
  labelled = labelled;
  shown =
      name_or-bounds (clean_name (find (codes "name") fs)) label
        (clean_name-IsName (find (codes "name") fs)) labelled;
  hosting = refl;
  scoped = scope_of-none (is_true (find (codes "agent") fs)) (find (codes "scope") fs);
}

pub clean_member-IsMember : (v : Json) → Each IsMember (clean_member v)
unfolding clean_member
clean_member-IsMember v = Each-bind IsMember (as_object v) _ λ fs _. member_of-IsMember fs

abbrev pub IsLive : LiveInfo → Type 0
IsLive l = (is_post_id l.sid ≡ true) × (is_label l.by ≡ true)

pub clean_live-IsLive : (v : Json) → Each IsLive (clean_live v)
unfolding clean_live live_of
clean_live-IsLive v = Each-bind IsLive (as_object v) _ λ fs _.
    Each-text IsLive is_post_id (find _ fs) _ λ sid named.
      Each-text IsLive is_label (find _ fs) _ λ by labelled.
        Each-bind IsLive (as_string (find _ fs)) _
          λ word _. Each-bind IsLive (live_kind word) _ λ kind _. (named, labelled)
