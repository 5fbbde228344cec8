-- ===== src/Wall/SearchWire/Accepted.antt =====
-- A message of the search that is accepted is well formed.
use filenymous.Prelude.{
  ℕ, ◌+◌, ◌≤◌, ◌≡◌, true, none, List, arith, leb, leb→le, Text, codes, text_eq, length, trim, blank,
  All, length-take-le,
}
use filenymous.Prelude.Json.{Json, Number, Fields, find, as_string, as_object, max_safe_integer}
use filenymous.Prelude.Items.{
  as_array, optional, optional-Each, all_of, all_of-All, Each-text, Each-fits, Each-int, Each-then,
}
use filenymous.Prelude.Options.{Each, Each-bind, Each-guard, Each-if}
use filenymous.Wall.Collab.{is_label, is_result_id}
use filenymous.Wall.ItemWire.{is_control}
use filenymous.Wall.SearchWire.{
  search_q_max, search_k_max, snippet_max, SearchHit, SearchMessage, search, search_res,
  search_fail, search_kind, search_mode, search_failure, query_of, hits_wanted, search_of, finite,
  hit_of, result_of, failure_of, parse_search_message,
}

pub record IsHit (h : SearchHit) : Type 0 where
  pub named : is_result_id h.id ≡ true
  pub labelled : is_label h.by ≡ true
  pub dated : h.at ≤ max_safe_integer
  pub short : length h.snippet ≤ snippet_max + 2

abbrev pub IsRequest : ℕ → Type 0
IsRequest n = (1 ≤ n) × (n ≤ max_safe_integer)

abbrev pub IsWanted : ℕ → Type 0
IsWanted k = (1 ≤ k) × (k ≤ search_k_max)

pub IsSearch : SearchMessage → Type 0
IsSearch (search rid q k) =
    IsRequest rid × (1 ≤ length q) × (length q ≤ search_q_max) × Each IsWanted k
IsSearch (search_res rid mode hits) = IsRequest rid × All IsHit hits × (length hits ≤ search_k_max)
IsSearch (search_fail rid reason) = IsRequest rid

hits_wanted-IsWanted : (v : Json) → Each IsWanted (hits_wanted v)
unfolding hits_wanted
hits_wanted-IsWanted v =
    Each-int IsWanted 1 v _
      λ k l _. Each-guard IsWanted (leb k search_k_max) _ λ h. (l, leb→le k search_k_max h)

length-query_of-le : (s : Text) → length (query_of s) ≤ search_q_max
unfolding query_of
length-query_of-le s = length-take-le search_q_max (trim (blank is_control s))

search_of-IsSearch : (fs : Fields) → Each IsSearch (search_of fs)
unfolding search_of IsSearch
search_of-IsSearch fs = Each-int IsSearch 1 (find _ fs) _ λ rid l m.
    Each-bind IsSearch (as_string (find _ fs)) _ λ raw _.
      Each-guard IsSearch (leb 1 (length (query_of raw))) _ λ full.
        Each-then IsSearch (Each IsWanted) (optional hits_wanted (find _ fs)) _
          (optional-Each IsWanted hits_wanted hits_wanted-IsWanted (find _ fs))
          λ k wanted.
            ((l, m), leb→le 1 (length (query_of raw)) full, length-query_of-le raw, wanted)

module _ (thousandths : Number → Number) where
  hit_of-IsHit : (v : Json) → Each IsHit (hit_of thousandths v)
  unfolding hit_of
  hit_of-IsHit v = Each-bind IsHit (as_object v) _ λ h _.
      Each-text IsHit is_result_id (find _ h) _ λ id named.
        Each-bind IsHit (as_string (find _ h)) _ λ word _.
          Each-bind IsHit (search_kind word) _ λ kind _.
            Each-text IsHit is_label (find _ h) _ λ by labelled.
              Each-int IsHit 0 (find _ h) _ λ at _ dated.
                Each-fits IsHit (snippet_max + 2) (find _ h) _ λ snippet short.
                  Each-bind IsHit (finite (find _ h)) _ λ score _. record {
                    named = named;
                    labelled = labelled;
                    dated = dated;
                    short = short;
                  }

  result_of-IsSearch : (fs : Fields) → Each IsSearch (result_of thousandths fs)
  unfolding result_of IsSearch
  result_of-IsSearch fs = Each-int IsSearch 1 (find _ fs) _ λ rid l m.
      Each-bind IsSearch (as_string (find _ fs)) _ λ word _.
        Each-bind IsSearch (search_mode word) _ λ mode _.
          Each-bind IsSearch (as_array (find _ fs)) _ λ vs _.
            Each-guard IsSearch (leb (length vs) search_k_max) _ λ few.
              Each-then IsSearch (λ (hs : List SearchHit). All IsHit hs × (length hs ≡ length vs))
                (all_of (hit_of thousandths) vs) _
                (all_of-All IsHit (hit_of thousandths) hit_of-IsHit vs)
                λ hs h. ((l, m), h.0, omega (arith, h.1, leb→le (length vs) search_k_max few))

  failure_of-IsSearch : (fs : Fields) → Each IsSearch (failure_of thousandths fs)
  unfolding failure_of IsSearch
  failure_of-IsSearch fs = Each-int IsSearch 1 (find _ fs) _ λ rid l m.
      Each-bind IsSearch (as_string (find _ fs)) _
        λ word _. Each-bind IsSearch (search_failure word) _ λ reason _. (l, m)

  pub parse_search_message-IsSearch :
      (t : Text) (fs : Fields) → Each IsSearch (parse_search_message thousandths t fs)
  unfolding parse_search_message
  parse_search_message-IsSearch t fs =
      Each-if IsSearch (text_eq t (codes "search")) (search_of fs) _ (search_of-IsSearch fs) (
        Each-if IsSearch (text_eq t (codes "search-res")) (result_of thousandths fs) _
          (result_of-IsSearch fs)
          (Each-if IsSearch (text_eq t (codes "search-fail")) (failure_of thousandths fs) none
            (failure_of-IsSearch fs) tt))
