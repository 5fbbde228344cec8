-- ===== src/Wall/Store.antt =====
-- ui/src/wall/model.ts: the items that the host keeps in memory, `WallStore`, and
-- ui/src/p2p/protocol.ts: `safeFileName`. A Blob is the list of its bytes; the random part of an id
-- and `Date.now()` are arguments.
pub mod Names
pub mod Limits
pub mod Burn
mod Tests
use filenymous.Prelude.{
  ℕ, zero, suc, ◌+◌, ◌*◌, ◌/◌, ◌%◌, Bool, true, false, ◌&&◌, ◌||◌, not, Option, none, some, List,
  [], ◌∷◌, ◌++◌, map, ltb, leb, ◌==◌, if◌then◌else◌, Text, codes, text_eq, length, take, trim,
  strip, any,
}
use filenymous.JsMap
use filenymous.JsMap.{JsMap}
use filenymous.Wall.Model.{ItemKind, file, text, ItemMeta}

abbrev pub max_item_bytes : ℕ
max_item_bytes = 256 * 1024 * 1024

abbrev pub max_wall_bytes : ℕ
max_wall_bytes = 1024 * 1024 * 1024

abbrev pub max_items : ℕ
max_items = 200

abbrev pub max_text_bytes : ℕ
max_text_bytes = 64 * 1024

pub data Refusal : Type 0 where
  too_many_items text_too_large item_too_large wall_full : Refusal

pub is_text : ItemKind → Bool
is_text file = false
is_text text = true

-- `admitItem`, where none stands for null
pub admit_item : ItemKind → ℕ → ℕ → ℕ → Option Refusal
admit_item kind size used_bytes count =
    if leb max_items count
    then some too_many_items
    else if is_text kind && (size == 0 || ltb max_text_bytes size)
    then some text_too_large
    else if ltb max_item_bytes size
    then some item_too_large
    else if ltb max_wall_bytes (used_bytes + size)
    then some wall_full
    else none

pub record Stored : Type 0 where
  pub meta : ItemMeta
  pub owner : Text
  pub bytes : List ℕ

pub record WallStore : Type 0 where
  pub burn : Bool
  pub items : JsMap Stored
  pub seq : ℕ

-- `used`
pub used_in : JsMap Stored → ℕ
used_in [] = 0
used_in ((k, s) ∷ items) = s.meta.size + used_in items

pub used : WallStore → ℕ
used w = used_in w.items

pub list : WallStore → List ItemMeta
list w = map (λ s. s.meta) (JsMap.values w.items)

pub admit : WallStore → ItemKind → ℕ → Option Refusal
admit w kind size = admit_item kind size (used w) (JsMap.size w.items)

-- A control character.
unfoldable pub is_control : ℕ → Bool
is_control c = leb c 0x1f || c == 0x7f

-- A character of /[\\/:*?"<>|]/.
unfoldable pub is_reserved : ℕ → Bool
is_reserved c =
    c == b'\\'
    || c == b'/'
    || c == b':'
    || c == b'*'
    || c == b'?'
    || c == b'"'
    || c == b'<'
    || c == b'>'
    || c == b'|'

unfoldable pub without_reserved : Text → Text
unfolding is_reserved
without_reserved s = map (λ c. if is_reserved c then b'_' else c) s

unfoldable pub drop_dots : Text → Text
drop_dots [] = []
drop_dots (c ∷ s) = let rest = drop_dots s in if c == b'.' then rest else c ∷ s

-- `s || other`
unfoldable pub or_text : Text → Text → Text
or_text [] other = other
or_text (c ∷ s) other = c ∷ s

unfoldable pub safe_file_name : Text → Text
unfolding is_control without_reserved drop_dots or_text strip trim
safe_file_name name =
    or_text (take 200 (trim (drop_dots (without_reserved (strip is_control name))))) (codes "file")

unfoldable pub clean_text : Text → ℕ → Text
unfolding is_control strip
clean_text v max = take max (strip is_control v)

-- `String(n)` of a number, digit by digit; n + 1 rounds are enough.
unfoldable pub digits : ℕ → ℕ → Text
digits zero n = []
digits (suc fuel) n =
    let rest = digits fuel (n / 10) in
    if ltb n 10 then (n + b'0') ∷ [] else rest ++ (n % 10 + b'0') ∷ []

unfoldable pub item_id : ℕ → Text → Text
unfolding digits
item_id seq random = codes "i" ++ digits (seq + 1) seq ++ codes "-" ++ random

pub record Input : Type 0 where
  pub kind : ItemKind
  pub name : Text
  pub mime : Text
  pub by : Text
  pub owner : Text
  pub bytes : List ℕ
  pub at : Option ℕ

item_name : ItemKind → Text → Text
unfolding safe_file_name clean_text or_text
item_name file name = safe_file_name name
item_name text name = or_text (clean_text name 120) (codes "note")

at_or : Option ℕ → ℕ → ℕ
at_or none now = now
at_or (some at) now = at

new_meta : Text → Input → ℕ → ItemMeta
unfolding item_name at_or or_text
new_meta id input now = record {
  id = id;
  kind = input.kind;
  name = item_name input.kind input.name;
  size = length input.bytes;
  mime = or_text input.mime (codes "application/octet-stream");
  by = input.by;
  at = at_or input.at now;
}

pub add : WallStore → Input → ℕ → Text → WallStore × ItemMeta
unfolding item_id new_meta
add w input now random =
    let id = item_id (w.seq + 1) random in
    let meta = new_meta id input now in
    let stored : Stored = record { meta = meta; owner = input.owner; bytes = input.bytes } in
    (record w { items = JsMap.set id stored w.items; seq = w.seq + 1 }, meta)

pub record Taken : Type 0 where
  pub meta : ItemMeta
  pub bytes : List ℕ
  pub burned : Bool

pub take_item : WallStore → Text → Text → WallStore × Option Taken
take_item w id requester = elim (JsMap.get id w.items) [
  | none ↦ (w, none)
  | some s ↦
      let burned = w.burn && not (text_eq s.owner requester) in
      (
        if burned then record w { items = JsMap.delete id w.items } else w,
        some (record { meta = s.meta; bytes = s.bytes; burned = burned }),
      )
]

pub remove : WallStore → Text → WallStore × Bool
remove w id = (record w { items = JsMap.delete id w.items }, JsMap.has id w.items)

pub peek : WallStore → Text → Option (ItemMeta × List ℕ)
peek w id =
    if w.burn
    then none
    else elim (JsMap.get id w.items) [ none ↦ none | some s ↦ some (s.meta, s.bytes) ]

pub wipe : WallStore → WallStore
wipe w = record w { items = [] }

abbrev pub empty : Bool → WallStore
empty burn = record { burn = burn; items = []; seq = 0 }

-- One use of the store by the host, which adds an item only when `admit` has no objection.
pub data Call : Type 0 where
  adds : Input → ℕ → Text → Call
  takes : Text → Text → Call
  removes : Text → Call
  wipes : Call

add_admitted : WallStore → Input → ℕ → Text → Option Refusal → WallStore
add_admitted w input now random none = (add w input now random).0
add_admitted w input now random (some r) = w

pub step : WallStore → Call → WallStore
unfolding add_admitted
step w (adds input now random) =
    add_admitted w input now random (admit w input.kind (length input.bytes))
step w (takes id requester) = (take_item w id requester).0
step w (removes id) = (remove w id).0
step w wipes = wipe w

pub run : WallStore → List Call → WallStore
run w [] = w
run w (c ∷ cs) = run (step w c) cs
