-- ===== src/Wall/ItemWire.antt =====
-- ui/src/wall/model.ts: what is accepted as the description of an item.
pub mod Accepted
use filenymous.Prelude.{
  ℕ, Option, none, some, [], ◌∷◌, ◌&&◌, ◌||◌, Bool, leb, ◌==◌, if◌then◌else◌, Text, codes, text_eq,
  length, take, strip,
}
use filenymous.Prelude.Json.{Json, Fields, find, int, as_string, as_object}
use filenymous.Prelude.Items.{text_of, fits}
use filenymous.Prelude.Options.{◌>>=◌, ◌>>◌}
use filenymous.Wall.Model.{ItemKind, ItemMeta}
use filenymous.Wall.Store.{safe_file_name}
use filenymous.Wall.FeedWire.{is_post_id}

pub item_kind : Text → Option ItemKind
item_kind s =
    if text_eq s (codes "file")
    then some ItemKind.file
    else if text_eq s (codes "text")
    then some ItemKind.text
    else none

unfoldable pub is_control : ℕ → Bool
is_control c = leb c 0x1f || c == 0x7f

-- `cleanText`
unfoldable pub clean_text : Text → ℕ → Text
unfolding is_control strip
clean_text s max = take max (strip is_control s)

pub item_name : ItemKind → Text → Text
item_name ItemKind.file s = safe_file_name s
item_name ItemKind.text s = clean_text s 120

-- `mime || "application/octet-stream"`
pub mime_or : Text → Text
mime_or [] = codes "application/octet-stream"
mime_or (c ∷ s) = c ∷ s

pub meta_of : Fields → Option ItemMeta
meta_of fs = do
  id ← text_of is_post_id (find (codes "id") fs)
  word ← as_string (find (codes "kind") fs)
  kind ← item_kind word
  name ← text_of (fits 400) (find (codes "name") fs)
  size ← int 0 (find (codes "size") fs)
  mime ← text_of (fits 200) (find (codes "mime") fs)
  by ← text_of (fits 80) (find (codes "by") fs)
  at ← int 0 (find (codes "at") fs)
  some (record {
    id = id;
    kind = kind;
    name = item_name kind name;
    size = size;
    mime = clean_text (mime_or mime) 128;
    by = clean_text by 40;
    at = at;
  })

pub clean_meta : Json → Option ItemMeta
clean_meta v = as_object v >>= meta_of
