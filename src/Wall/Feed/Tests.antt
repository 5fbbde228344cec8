-- ===== src/Wall/Feed/Tests.antt =====
-- The feed on concrete posts.
use filenymous.Prelude.{
  ℕ, ◌≡◌, refl, subst, ◌⊎◌, true, false, not, ◌&&◌, none, some, List, [], ◌∷◌, ◌==◌, ◌≤◌, arith,
  if◌then◌else◌, Text, text_eq, text_eq_iff, codes,
}
use filenymous.Prelude.Json.{integer, pos}
use filenymous.JsMap
use filenymous.JsMap.{JsMap}
use filenymous.Wall.Feed.{
  Poll, Post, poll, cast_vote, option_vote, vote_poll, vote_on, add_vote, without, includes,
  toggle_reaction, toggled, poll_total, poll_counts, sum, max_reaction_kinds,
}
use filenymous.Wall.Feed.Votes.{IsPoll, has_vote, occurs, count_of, cast_vote-IsPoll}
use filenymous.Wall.Feed.Reactions.{IsReactions, Flips, toggle_reaction-Flips}

feed_functions : Unit {0}
unfolding cast_vote option_vote vote_poll vote_on add_vote without includes toggle_reaction toggled
    poll_total poll_counts sum JsMap.get JsMap.set JsMap.delete text_eq
feed_functions = tt

abbrev ann : Text
ann = codes "peer:1"

abbrev bob : Text
bob = codes "peer:2"

abbrev lunch : Poll
lunch = record {
  question = codes "Lunch?";
  options = codes "yes" ∷ codes "no" ∷ [];
  votes = (ann ∷ []) ∷ (bob ∷ []) ∷ [];
  closed = false;
}

abbrev moved : Poll
moved = record lunch { votes = [] ∷ (bob ∷ ann ∷ []) ∷ [] }

abbrev heart : Text
heart = codes "❤"

abbrev question : Post
question = record {
  id = codes "p1";
  kind = poll;
  by = codes "host";
  at = 1;
  text = none;
  reply_to = none;
  mentions = none;
  item = none;
  poll = some lunch;
  reactions = (heart, ann ∷ []) ∷ [];
  system = none;
  caption = none;
}

ann_moves : cast_vote question (integer (pos 1)) ann ≡ some (record question { poll = some moved })
unfolding feed_functions
ann_moves = refl

no_such_option : cast_vote question (integer (pos 2)) ann ≡ some question
unfolding feed_functions
no_such_option = refl

both_counted : poll_total moved ≡ 2
unfolding feed_functions
both_counted = refl

lunch-IsPoll : IsPoll lunch
unfolding occurs count_of
lunch-IsPoll = record {
  rows = refl;
  single = λ l.
      let apart : text_eq ann l ≡ true → text_eq bob l ≡ false = λ e.
        subst (λ k. text_eq bob k ≡ false) ((text_eq_iff ann l).0 e) (unfold text_eq in refl) in
      ground arith;
}

cast_vote-IsPoll_example :
    (q : Poll) × (cast_vote question (integer (pos 1)) ann
      ≡ some (record question { poll = some q }))
    × IsPoll q
    × ((l : Text) (j : ℕ)
        → has_vote l q.votes j ≡ (
            if text_eq ann l
            then 1 == j && not (has_vote ann lunch.votes 1)
            else has_vote l lunch.votes j))
cast_vote-IsPoll_example =
    cast_vote-IsPoll question lunch 1 ann refl refl lunch-IsPoll (omega arith)

heart_is_taken_back :
    toggle_reaction (λ t. true) question heart ann ≡ record question { reactions = [] }
unfolding feed_functions
heart_is_taken_back = refl

question-IsReactions : IsReactions question.reactions
unfolding JsMap.get
question-IsReactions = record { few = omega arith; someone = λ e k. ground arith }

toggle_reaction-Flips_example :
    (q : JsMap (List Text)) × (toggle_reaction (λ t. true) question heart bob
      ≡ record question { reactions = q })
    × IsReactions q
    × (((q ≡ question.reactions)
          × ((true ≡ false)
              ⊎ ((JsMap.get heart question.reactions ≡ none)
                  × (max_reaction_kinds ≤ JsMap.size question.reactions))))
        ⊎ Flips heart bob question.reactions q)
toggle_reaction-Flips_example =
    toggle_reaction-Flips (λ t. true) question heart bob question-IsReactions
