-- ===== src/Wall/Board.antt =====
-- ui/src/wall/collab.ts: the whiteboard, `BoardStore` on the host and `mergeScene` in every client.
pub mod Versions
pub mod Capacity
pub mod Progress
pub mod Batches
pub mod Convergence
mod Tests
use filenymous.Prelude.{
  ℕ, zero, suc, ◌+◌, ◌-◌, ◌*◌, ◌≡◌, Bool, true, false, ◌&&◌, ◌||◌, not, Option, none, some, List,
  [], ◌∷◌, ◌++◌, ltb, leb, ◌==◌, if◌then◌else◌, Text, codes, text_eq, length, take, any, is_space,
}
use filenymous.Prelude.Json.{
  ℤ, lt_ℤ, Json, undefined, null, boolean, number, string, array, object, integer, decimal,
  nonfinite, Items, nil, cons, Fields, end, with_field, Number, find, int, safe_integer, as_string,
  as_boolean, json_length,
}
use filenymous.Prelude.Options.{◌>>=◌, ◌>>◌, guard}
use filenymous.Prelude.Sort.{sort}
use filenymous.JsMap
use filenymous.JsMap.{JsMap}
use filenymous.Wall.Collab.{is_result_id}

abbrev pub max_board_elements : ℕ
max_board_elements = 3000

abbrev pub max_element_chars : ℕ
max_element_chars = 48 * 1024

abbrev pub max_board_chars : ℕ
max_board_chars = 6 * 1024 * 1024

abbrev pub board_batch_chars : ℕ
board_batch_chars = 56 * 1024

-- The properties that the code reads by name beside the whole object.
pub record BoardElement : Type 0 where
  pub id : Text
  pub version : ℕ
  pub version_nonce : ℤ
  pub fields : Fields

abbrev board_types : List Text
board_types =
    codes "rectangle"
    ∷ codes "ellipse"
    ∷ codes "diamond"
    ∷ codes "arrow"
    ∷ codes "line"
    ∷ codes "freedraw"
    ∷ codes "text"
    ∷ codes "frame"
    ∷ codes "selection"
    ∷ []

-- `DROP_KEYS` and the names of the prototype
abbrev dropped_keys : List Text
dropped_keys =
    codes "fileId"
    ∷ codes "customData"
    ∷ codes "status"
    ∷ codes "scale"
    ∷ codes "crop"
    ∷ codes "__proto__"
    ∷ codes "constructor"
    ∷ codes "prototype"
    ∷ []

unfoldable pub is_one_of : List Text → Text → Bool
unfolding text_eq
is_one_of keys k = any (λ j. text_eq j k) keys

items_count : Items → ℕ
items_count nil = 0
items_count (cons v xs) = suc (items_count xs)

fields_count : Fields → ℕ
fields_count end = 0
fields_count (with_field k v fs) = suc (fields_count fs)

is_finite : Number → Bool
is_finite (integer n) = true
is_finite (decimal t) = true
is_finite nonfinite = false

-- `plainJson(v, depth)`
unfoldable mutual
  unfolding items_count fields_count is_finite

  pub plain_json : ℕ → Json → Bool
  plain_json depth undefined = false
  plain_json depth null = true
  plain_json depth (boolean b) = true
  plain_json depth (string s) = true
  plain_json depth (number n) = is_finite n
  plain_json depth (array xs) =
      leb depth 6 && leb (items_count xs) 20000 && plain_items (suc depth) xs
  plain_json depth (object fs) =
      leb depth 6 && leb (fields_count fs) 64 && plain_fields (suc depth) fs

  pub plain_items : ℕ → Items → Bool
  plain_items depth nil = true
  plain_items depth (cons v xs) = plain_json depth v && plain_items depth xs

  pub plain_fields : ℕ → Fields → Bool
  plain_fields depth end = true
  plain_fields depth (with_field k v fs) = plain_json depth v && plain_fields depth fs

lower_case : ℕ → ℕ
lower_case c = if leb b'A' c && leb c b'Z' then c + 32 else c

drop_prefix : Text → Text → Option Text
unfolding lower_case
drop_prefix [] s = some s
drop_prefix (c ∷ p) [] = none
drop_prefix (c ∷ p) (d ∷ s) = let rest = drop_prefix p s in if lower_case d == c then rest else none

has_no_space : Text → Bool
unfolding is_space
has_no_space s = not (any is_space s)

link_rest : Option Text → Bool
unfolding has_no_space
link_rest none = false
link_rest (some s) = leb 1 (length s) && leb (length s) 2000 && has_no_space s

-- `/^https?:\/\/[^\s]{1,2000}$/i`
unfoldable pub is_http_link : Text → Bool
unfolding drop_prefix link_rest
is_http_link s =
    link_rest (drop_prefix (codes "http://") s) || link_rest (drop_prefix (codes "https://") s)

clean_link : Json → Json
unfolding is_http_link
clean_link (string s) = if is_http_link s then string s else null
clean_link _ = null

-- The loop over the properties: some are dropped, and a link is kept if it is one of the web.
unfoldable pub clean_fields : Fields → Fields
unfolding is_one_of text_eq clean_link
clean_fields end = end
clean_fields (with_field k v fs) =
    let rest = clean_fields fs in
    if is_one_of dropped_keys k
    then rest
    else if text_eq k (codes "link")
    then with_field k (clean_link v) rest
    else with_field k v rest

element_of : Fields → Option BoardElement
unfolding is_one_of is_result_id plain_json clean_fields json_length
element_of fs = do
  id ← as_string (find (codes "id") fs)
  guard (is_result_id id)
  type ← as_string (find (codes "type") fs)
  guard (is_one_of board_types type)
  version ← int 1 (find (codes "version") fs)
  version_nonce ← safe_integer (find (codes "versionNonce") fs)
  is_deleted ← as_boolean (find (codes "isDeleted") fs)
  guard (plain_json 0 (object fs))
  guard (leb (json_length (object (clean_fields fs))) max_element_chars)
  some (record {
    id = id;
    version = version;
    version_nonce = version_nonce;
    fields = clean_fields fs;
  })

unfoldable pub clean_board_element : Json → Option BoardElement
unfolding element_of
clean_board_element (object fs) = element_of fs
clean_board_element _ = none

-- `JSON.stringify(el).length`
pub chars_of : BoardElement → ℕ
chars_of el = json_length (object el.fields)

pub newer_than : BoardElement → BoardElement → Bool
unfolding lt_ℤ
newer_than a b =
    ltb b.version a.version || (a.version == b.version && lt_ℤ a.version_nonce b.version_nonce)

-- `newerElement(a, b)`, where `b` may be undefined
pub newer_element : BoardElement → Option BoardElement → Bool
unfolding newer_than
newer_element a none = true
newer_element a (some b) = newer_than a b

pub record BoardStore : Type 0 where
  pub els : JsMap BoardElement
  pub chars : ℕ

abbrev pub init : BoardStore
init = record { els = []; chars = 0 }

pub chars_before : Option BoardElement → ℕ
unfolding chars_of
chars_before none = 0
chars_before (some cur) = chars_of cur

pub is_absent : Option BoardElement → Bool
is_absent none = true
is_absent (some cur) = false

-- One round of the loop of `merge` for a clean element. `chars - prev + len` is computed without a
-- negative value in between.
pub accept : BoardStore → BoardElement → Option BoardElement → BoardStore × List BoardElement
accept b el cur =
    if not (newer_element el cur)
    then (b, [])
    else if is_absent cur && leb max_board_elements (JsMap.size b.els)
    then (b, [])
    else if ltb (max_board_chars + chars_before cur) (b.chars + chars_of el)
    then (b, [])
    else (
      record { els = JsMap.set el.id el b.els; chars = b.chars + chars_of el - chars_before cur },
      el ∷ [],
    )

merge_one : BoardStore → Option BoardElement → BoardStore × List BoardElement
unfolding accept
merge_one b none = (b, [])
merge_one b (some el) = accept b el (JsMap.get el.id b.els)

merge_all : BoardStore → List Json → BoardStore × List BoardElement
unfolding merge_one clean_board_element
merge_all b [] = (b, [])
merge_all b (raw ∷ rest) =
    let (b', accepted) = merge_one b (clean_board_element raw) in
    let (c, more) = merge_all b' rest in (c, accepted ++ more)

pub merge : BoardStore → List Json → BoardStore × List BoardElement
unfolding merge_all
merge b incoming = merge_all b (take 500 incoming)

pub clear : BoardStore → BoardStore
clear b = record { els = []; chars = 0 }

-- The loop of `boardBatches`, with the batch in hand and its size.
batch_from : ℕ → List BoardElement → ℕ → List BoardElement → List (List BoardElement)
unfolding chars_of
batch_from max [] size [] = []
batch_from max (c ∷ cur) size [] = (c ∷ cur) ∷ []
batch_from max [] size (el ∷ els) = batch_from max (el ∷ []) (size + (chars_of el + 1)) els
batch_from max (c ∷ cur) size (el ∷ els) =
    let full = ltb max (size + (chars_of el + 1)) || leb 200 (length (c ∷ cur)) in
    let rest =
      batch_from max (if full then el ∷ [] else (c ∷ cur) ++ el ∷ [])
        (if full then 0 + (chars_of el + 1) else size + (chars_of el + 1)) els in
    if full then (c ∷ cur) ∷ rest else rest

pub board_batches : List BoardElement → ℕ → List (List BoardElement)
unfolding batch_from
board_batches els max = batch_from max [] 0 els

-- `byId.set(r.id, r)` for the remote elements that are newer, with `changed`
absorb : JsMap BoardElement × Bool → List BoardElement → JsMap BoardElement × Bool
unfolding newer_element
absorb (m, changed) [] = (m, changed)
absorb (m, changed) (r ∷ rs) =
    let newer = newer_element r (JsMap.get r.id m) in
    absorb (if newer then JsMap.set r.id r m else m, newer || changed) rs

by_id : JsMap BoardElement → List BoardElement → JsMap BoardElement
by_id m [] = m
by_id m (e ∷ es) = by_id (JsMap.set e.id e m) es

index_text : Json → Text
index_text (string s) = s
index_text _ = []

index_of : BoardElement → Text
unfolding index_text
index_of e = index_text (find (codes "index") e.fields)

-- `a < b` of strings: by code units
unfoldable pub text_lt : Text → Text → Bool
text_lt [] [] = false
text_lt [] (_ ∷ _) = true
text_lt (_ ∷ _) [] = false
text_lt (x ∷ xs) (y ∷ ys) = ltb x y || (x == y && text_lt xs ys)

pub index_after : BoardElement → BoardElement → Bool
unfolding index_of text_lt
index_after a b = text_lt (index_of b) (index_of a)

-- The scene as a map: the local elements, and the remote ones that are newer.
pub merged : List BoardElement → List BoardElement → JsMap BoardElement × Bool
unfolding absorb by_id
merged local remote = absorb (by_id [] local, false) remote

pub merge_scene : List BoardElement → List BoardElement → List BoardElement
unfolding merged sort index_after
merge_scene local remote =
    let (m, changed) = merged local remote in
    if changed then sort index_after (JsMap.values m) else local
