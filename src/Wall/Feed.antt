-- ===== src/Wall/Feed.antt =====
-- ui/src/wall/feed.ts: the votes and the reactions on the posts of the feed. `isEmoji` is an
-- argument: it tests a text against the tables of Unicode.
pub mod Votes
pub mod Reactions
mod Tests
use filenymous.Prelude.{
  ℕ, zero, suc, ◌+◌, Bool, true, false, not, Option, none, some, List, [], ◌∷◌, ◌++◌, map, ltb, leb,
  if◌then◌else◌, Text, text_eq, length, get_elem?, filter, any,
}
use filenymous.Prelude.Json.{Number, integer, decimal, nonfinite, pos, negsuc}
use filenymous.JsMap
use filenymous.JsMap.{JsMap}
use filenymous.Wall.Model.{ItemMeta}

pub data PostKind : Type 0 where
  msg file note poll : PostKind

pub record Poll : Type 0 where
  pub question : Text
  pub options : List Text
  pub votes : List (List Text)
  pub closed : Bool

pub data SystemNotice : Type 0 where
  exported : SystemNotice

pub record Caption : Type 0 where
  pub sid : Text
  pub en : Bool

pub record Post : Type 0 where
  pub id : Text
  pub kind : PostKind
  pub by : Text
  pub at : ℕ
  pub text : Option Text
  pub reply_to : Option Text
  pub mentions : Option (List Text)
  pub item : Option ItemMeta
  pub poll : Option Poll
  pub reactions : JsMap (List Text)
  pub system : Option SystemNotice
  pub caption : Option Caption

abbrev pub max_reaction_kinds : ℕ
max_reaction_kinds = 20

-- `who.includes(label)` and `who.filter((l) => l !== label)`
unfoldable pub includes : Text → List Text → Bool
includes label who = any (λ l. text_eq l label) who

unfoldable pub without : Text → List Text → List Text
without label who = filter (λ l. not (text_eq l label)) who

-- The reactions with one more, or one less; none when there are too many kinds.
unfoldable pub toggled : Text → Text → JsMap (List Text) → Option (JsMap (List Text))
toggled emoji label reactions = elim (JsMap.get emoji reactions) [
  | none ↦
      if leb max_reaction_kinds (JsMap.size reactions)
      then none
      else some (JsMap.set emoji (label ∷ []) reactions)
  | some who ↦
      if includes label who
      then elim (without label who) [
        | [] ↦ some (JsMap.delete emoji reactions)
        | l ∷ rest ↦ some (JsMap.set emoji (l ∷ rest) reactions)
      ]
      else some (JsMap.set emoji (who ++ label ∷ []) reactions)
]

unfoldable pub toggle_reaction : (Text → Bool) → Post → Text → Text → Post
toggle_reaction is_emoji post emoji label =
    if is_emoji emoji
    then elim (toggled emoji label post.reactions) [
      | none ↦ post
      | some reactions ↦ record post { reactions = reactions }
    ]
    else post

-- `votes[i] = [...votes[i], label]`
unfoldable pub add_vote : ℕ → Text → List (List Text) → List (List Text)
add_vote i label [] = []
add_vote zero label (v ∷ votes) = (v ++ label ∷ []) ∷ votes
add_vote (suc i) label (v ∷ votes) = v ∷ add_vote i label votes

-- The votes after a click on an option, whose own votes are `chosen`.
unfoldable pub vote_on : ℕ → Text → List Text → List (List Text) → List (List Text)
vote_on i label chosen votes =
    let rest = map (without label) votes in
    if includes label chosen then rest else add_vote i label rest

-- `castVote`; none is the exception when the votes have no row for the option.
unfoldable pub vote_poll : Post → Poll → ℕ → Text → Option Post
vote_poll post p i label =
    if ltb i (length p.options)
    then elim (get_elem? p.votes i) [
      | none ↦ none
      | some chosen ↦
          some (record post { poll = some (record p { votes = vote_on i label chosen p.votes }) })
    ]
    else some post

unfoldable pub option_vote : Post → Poll → Number → Text → Option Post
option_vote post p (integer (pos i)) label = vote_poll post p i label
option_vote post p (integer (negsuc i)) label = some post
option_vote post p (decimal t) label = some post
option_vote post p nonfinite label = some post

unfoldable pub cast_vote : Post → Number → Text → Option Post
cast_vote post option label = elim post.poll [
  | none ↦ some post
  | some p ↦ if p.closed then some post else option_vote post p option label
]

-- `pollTotals`
unfoldable pub poll_counts : Poll → List ℕ
poll_counts p = map (λ v. length v) p.votes

unfoldable pub sum : List ℕ → ℕ
sum [] = 0
sum (n ∷ ns) = n + sum ns

unfoldable pub poll_total : Poll → ℕ
poll_total p = sum (poll_counts p)
