-- ===== src/Wall/Feed/Votes.antt =====
-- A member has at most one vote in a poll, and a vote moves no other member's.
use filenymous.Prelude.{
  ℕ, zero, suc, ◌+◌, ◌≤◌, ◌<◌, ◌≡◌, refl, ap, Option, ◌∙◌, Bool, false, ◌&&◌, ◌||◌, not, none, some,
  List, [], ◌∷◌, ◌++◌, map, arith, ◌==◌, lt→ltb, if◌then◌else◌, Text, text_eq, text_eq_iff, length,
  get_elem?, filter,
}
use filenymous.Prelude.Json.{Number, integer, pos}
use filenymous.Wall.Feed.{
  Poll, Post, includes, without, add_vote, vote_on, vote_poll, option_vote, cast_vote,
}

-- The member's label is among the votes for option j.
abbrev pub has_vote : Text → List (List Text) → ℕ → Bool
has_vote label votes j = elim (get_elem? votes j) [ none ↦ false | some v ↦ includes label v ]

-- How often a label stands in a list, and in all the lists.
unfoldable pub count_of : Text → List Text → ℕ
count_of label v = length (filter (λ l. text_eq l label) v)

unfoldable pub occurs : Text → List (List Text) → ℕ
unfolding count_of
occurs label [] = 0
occurs label (v ∷ votes) = count_of label v + occurs label votes

pub record IsPoll (p : Poll) : Type 0 where
  pub rows : length p.votes ≡ length p.options
  pub single : (label : Text) → occurs label p.votes ≤ 1

pub includes-without :
    (l label : Text) (v : List Text)
    → includes l (without label v) ≡ (if text_eq label l then false else includes l v)
unfolding includes without
includes-without l label [] = ground arith
includes-without l label (x ∷ v) =
    ground
      (arith, includes-without l label v, text_eq_iff x label, text_eq_iff x l, text_eq_iff label l)

count_of-without :
    (l label : Text) (v : List Text)
    → count_of l (without label v) ≡ (if text_eq label l then 0 else count_of l v)
unfolding count_of without
count_of-without l label [] = ground arith
count_of-without l label (x ∷ v) =
    ground
      (arith, count_of-without l label v, text_eq_iff x label, text_eq_iff x l, text_eq_iff label l)

has_vote-without :
    (l label : Text) (votes : List (List Text)) (j : ℕ)
    → has_vote l (map (without label) votes) j
      ≡ (if text_eq label l then false else has_vote l votes j)
has_vote-without l label [] j = ground arith
has_vote-without l label (v ∷ votes) zero = includes-without l label v
has_vote-without l label (v ∷ votes) (suc j) = has_vote-without l label votes j

occurs-without :
    (l label : Text) (votes : List (List Text))
    → occurs l (map (without label) votes) ≡ (if text_eq label l then 0 else occurs l votes)
unfolding occurs
occurs-without l label [] = ground arith
occurs-without l label (v ∷ votes) =
    ground (arith, count_of-without l label v, occurs-without l label votes)

pub includes-append :
    (l label : Text) (v : List Text)
    → includes l (v ++ label ∷ []) ≡ (includes l v || text_eq label l)
unfolding includes
includes-append l label [] = ground arith
includes-append l label (x ∷ v) = ground (arith, includes-append l label v)

count_of-append :
    (l label : Text) (v : List Text)
    → count_of l (v ++ label ∷ []) ≡ count_of l v + (if text_eq label l then 1 else 0)
unfolding count_of
count_of-append l label [] = ground arith
count_of-append l label (x ∷ v) = ground (arith, count_of-append l label v)

has_vote-add_vote :
    (l label : Text) (i : ℕ) (votes : List (List Text)) (j : ℕ)
    → i < length votes
    → has_vote l (add_vote i label votes) j ≡ (has_vote l votes j || (i == j && text_eq label l))
unfolding add_vote
has_vote-add_vote l label i [] j h = ground arith
has_vote-add_vote l label zero (v ∷ votes) zero h = includes-append l label v
has_vote-add_vote l label zero (v ∷ votes) (suc j) h = ground arith
has_vote-add_vote l label (suc i) (v ∷ votes) zero h = ground arith
has_vote-add_vote l label (suc i) (v ∷ votes) (suc j) h =
    ground (arith, has_vote-add_vote l label i votes j)

occurs-add_vote :
    (l label : Text) (i : ℕ) (votes : List (List Text))
    → i < length votes
    → occurs l (add_vote i label votes) ≡ occurs l votes + (if text_eq label l then 1 else 0)
unfolding add_vote occurs
occurs-add_vote l label i [] h = ground arith
occurs-add_vote l label zero (v ∷ votes) h = omega (arith, count_of-append l label v)
occurs-add_vote l label (suc i) (v ∷ votes) h =
    omega (arith, occurs-add_vote l label i votes (omega arith))

length-map-without :
    (label : Text) (votes : List (List Text)) → length (map (without label) votes) ≡ length votes
length-map-without label [] = refl
length-map-without label (v ∷ votes) = omega (arith, length-map-without label votes)

length-add_vote :
    (i : ℕ) (label : Text) (votes : List (List Text))
    → length (add_vote i label votes) ≡ length votes
unfolding add_vote
length-add_vote i label [] = refl
length-add_vote zero label (v ∷ votes) = refl
length-add_vote (suc i) label (v ∷ votes) = omega (arith, length-add_vote i label votes)

get_elem?-lt :
    {A : Type 0} (xs : List A) (i : ℕ) → i < length xs → (x : A) × (get_elem? xs i ≡ some x)
get_elem?-lt [] i h = ground arith
get_elem?-lt (x ∷ xs) zero h = (x, refl)
get_elem?-lt (x ∷ xs) (suc i) h = get_elem?-lt xs i (omega arith)

module _ (label : Text) (i : ℕ) (chosen : List Text) (votes : List (List Text)) where
  vote_on-moves :
      get_elem? votes i ≡ some chosen
      → i < length votes
      → (l : Text) (j : ℕ)
      → has_vote l (vote_on i label chosen votes) j
        ≡ (if text_eq label l then i == j && not (has_vote label votes i) else has_vote l votes j)
  unfolding vote_on
  vote_on-moves at inside l j =
      let rest = map (without label) votes in
      let gone = has_vote-without l label votes j in
      let back =
        has_vote-add_vote l label i rest j (omega (arith, length-map-without label votes)) in
      ground arith

  vote_on-single :
      i < length votes
      → ((l : Text) → occurs l votes ≤ 1)
      → (l : Text) → occurs l (vote_on i label chosen votes) ≤ 1
  unfolding vote_on
  vote_on-single inside once l =
      let rest = map (without label) votes in
      let gone = occurs-without l label votes in
      let back = occurs-add_vote l label i rest (omega (arith, length-map-without label votes)) in
      let most = once l in ground arith

  vote_on-rows : length (vote_on i label chosen votes) ≡ length votes
  unfolding vote_on
  vote_on-rows =
      let rest = map (without label) votes in
      let same = length-map-without label votes in
      let back = length-add_vote i label rest in ground arith

cast_vote_open :
    (post : Post) (p : Poll) (option : Number) (label : Text)
    → post.poll ≡ some p
    → p.closed ≡ false
    → cast_vote post option label ≡ option_vote post p option label
unfolding cast_vote
cast_vote_open post p option label here still =
    ap (λ o. vote_in o) here
    ∙ ap (λ c. if c then some post else option_vote post p option label) still
  where
    vote_in : Option Poll → Option Post
    vote_in none = some post
    vote_in (some p) = if p.closed then some post else option_vote post p option label

-- A vote in an open poll that has a row of votes for each option and no label twice: `castVote`
-- does not throw, the poll is still so, the member has a vote for the option exactly if the member
-- had none for it, and for no other option, and no other member's votes change.
pub cast_vote-IsPoll :
    (post : Post) (p : Poll) (i : ℕ) (label : Text)
    → post.poll ≡ some p
    → p.closed ≡ false
    → IsPoll p
    → i < length p.options
    → (q : Poll) × (cast_vote post (integer (pos i)) label ≡ some (record post { poll = some q }))
      × IsPoll q
      × ((l : Text) (j : ℕ)
          → has_vote l q.votes j ≡ (
              if text_eq label l
              then i == j && not (has_vote label p.votes i)
              else has_vote l p.votes j))
unfolding option_vote vote_poll
cast_vote-IsPoll post p i label here still valid inside =
    let at = get_elem?-lt p.votes i (omega (arith, valid.rows)) in
    let chosen = at.0 in
    let few : i < length p.votes = omega (arith, valid.rows) in
    let open_poll : cast_vote post (integer (pos i)) label ≡ vote_poll post p i label =
      cast_vote_open post p (integer (pos i)) label here still in
    (
      record p { votes = vote_on i label chosen p.votes },
      open_poll ∙ rw (lt→ltb i (length p.options) inside, at.1) refl,
      record {
        rows = vote_on-rows label i chosen p.votes ∙ valid.rows;
        single = vote_on-single label i chosen p.votes few valid.single;
      },
      vote_on-moves label i chosen p.votes at.1 few,
    )
