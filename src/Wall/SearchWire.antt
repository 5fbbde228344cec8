-- ===== src/Wall/SearchWire.antt =====
-- ui/src/wall/wallsearch.ts: the messages of the search. Rounding a score to thousandths, which is
-- arithmetic of floating point, is an argument.
pub mod Accepted
use filenymous.Prelude.{
  ℕ, ◌+◌, Option, none, some, List, leb, if◌then◌else◌, Text, codes, text_eq, length, take, trim,
  blank,
}
use filenymous.Prelude.Json.{
  Json, undefined, null, boolean, number, string, array, object, Number, integer, decimal,
  nonfinite, Fields, find, int, as_string, as_object,
}
use filenymous.Prelude.Items.{as_array, text_of, fits, optional, all_of}
use filenymous.Prelude.Options.{◌>>=◌, ◌>>◌, guard}
use filenymous.Wall.Collab.{is_label, is_result_id}
use filenymous.Wall.ItemWire.{is_control}

abbrev pub search_q_max : ℕ
search_q_max = 200

abbrev pub search_k_max : ℕ
search_k_max = 8

abbrev pub snippet_max : ℕ
snippet_max = 280

pub data SearchKind : Type 0 where
  msg file poll note task decision caption : SearchKind

pub data SearchMode : Type 0 where
  semantic keyword : SearchMode

pub data SearchFailure : Type 0 where
  denied rate_limited bad_query : SearchFailure

pub record SearchHit : Type 0 where
  pub id : Text
  pub kind : SearchKind
  pub by : Text
  pub at : ℕ
  pub snippet : Text
  pub score : Number

pub data SearchMessage : Type 0 where
  search : ℕ → Text → Option ℕ → SearchMessage
  search_res : ℕ → SearchMode → List SearchHit → SearchMessage
  search_fail : ℕ → SearchFailure → SearchMessage

search_kind : Text → Option SearchKind
search_kind s =
    if text_eq s (codes "msg")
    then some msg
    else if text_eq s (codes "file")
    then some file
    else if text_eq s (codes "poll")
    then some poll
    else if text_eq s (codes "note")
    then some note
    else if text_eq s (codes "task")
    then some task
    else if text_eq s (codes "decision")
    then some decision
    else if text_eq s (codes "caption")
    then some caption
    else none

search_mode : Text → Option SearchMode
search_mode s =
    if text_eq s (codes "semantic")
    then some semantic
    else if text_eq s (codes "keyword")
    then some keyword
    else none

search_failure : Text → Option SearchFailure
search_failure s =
    if text_eq s (codes "denied")
    then some denied
    else if text_eq s (codes "rate-limited")
    then some rate_limited
    else if text_eq s (codes "bad-query")
    then some bad_query
    else none

pub query_of : Text → Text
query_of s = take search_q_max (trim (blank is_control s))

hits_wanted : Json → Option ℕ
hits_wanted v = do k ← int 1 v; guard (leb k search_k_max); some k

pub search_of : Fields → Option SearchMessage
search_of fs = do
  rid ← int 1 (find (codes "rid") fs)
  raw ← as_string (find (codes "q") fs)
  guard (leb 1 (length (query_of raw)))
  k ← optional hits_wanted (find (codes "k") fs)
  some (search rid (query_of raw) k)

-- `typeof v === "number" && Number.isFinite(v)`
finite : Json → Option Number
finite (number (integer n)) = some (integer n)
finite (number (decimal t)) = some (decimal t)
finite _ = none

module _ (thousandths : Number → Number) where
  pub hit_of : Json → Option SearchHit
  hit_of v = do
    h ← as_object v
    id ← text_of is_result_id (find (codes "id") h)
    word ← as_string (find (codes "kind") h)
    kind ← search_kind word
    by ← text_of is_label (find (codes "by") h)
    at ← int 0 (find (codes "at") h)
    snippet ← text_of (fits (snippet_max + 2)) (find (codes "snippet") h)
    score ← finite (find (codes "score") h)
    some (record {
      id = id;
      kind = kind;
      by = by;
      at = at;
      snippet = snippet;
      score = thousandths score;
    })

  pub result_of : Fields → Option SearchMessage
  result_of fs = do
    rid ← int 1 (find (codes "rid") fs)
    word ← as_string (find (codes "mode") fs)
    mode ← search_mode word
    vs ← as_array (find (codes "hits") fs)
    guard (leb (length vs) search_k_max)
    hits ← all_of hit_of vs
    some (search_res rid mode hits)

  pub failure_of : Fields → Option SearchMessage
  failure_of fs = do
    rid ← int 1 (find (codes "rid") fs)
    word ← as_string (find (codes "reason") fs)
    reason ← search_failure word
    some (search_fail rid reason)

  -- `parseSearchMessage`, of a message whose `t` is the text
  pub parse_search_message : Text → Fields → Option SearchMessage
  parse_search_message t fs =
      if text_eq t (codes "search")
      then search_of fs
      else if text_eq t (codes "search-res")
      then result_of fs
      else if text_eq t (codes "search-fail")
      then failure_of fs
      else none
