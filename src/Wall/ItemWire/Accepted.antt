-- ===== src/Wall/ItemWire/Accepted.antt =====
-- The description of an item that is accepted is well formed.
use filenymous.Prelude.{
  ℕ, ◌≤◌, ◌≡◌, true, false, Text, length, strip, strip-All, All, All-take, length-take-le,
}
use filenymous.Prelude.Json.{Json, Fields, find, as_string, as_object, max_safe_integer}
use filenymous.Prelude.Items.{Each-text, Each-fits, Each-int}
use filenymous.Prelude.Options.{Each, Each-bind}
use filenymous.Wall.Model.{ItemKind, ItemMeta}
use filenymous.Wall.Store.Names.{IsPlain, safe_file_name-IsPlain}
use filenymous.Wall.FeedWire.{is_post_id}
use filenymous.Wall.ItemWire.{
  item_kind, is_control, clean_text, item_name, mime_or, meta_of, clean_meta,
}

-- A text of at most so many units, with no control character.
abbrev pub IsText : ℕ → Text → Type 0
IsText max s = All (λ c. is_control c ≡ false) s × (length s ≤ max)

pub clean_text-IsText : (s : Text) (max : ℕ) → IsText max (clean_text s max)
unfolding clean_text
clean_text-IsText s max = (
  All-take (λ c. is_control c ≡ false) max (strip is_control s) (strip-All is_control s),
  length-take-le max (strip is_control s),
)

-- The name of a file is one that a file system takes.
pub IsItemName : ItemKind → Text → Type 0
IsItemName ItemKind.file s = All IsPlain s × (1 ≤ length s) × (length s ≤ 200)
IsItemName ItemKind.text s = IsText 120 s

item_name-IsItemName : (kind : ItemKind) (s : Text) → IsItemName kind (item_name kind s)
unfolding item_name IsItemName
item_name-IsItemName ItemKind.file s = safe_file_name-IsPlain s
item_name-IsItemName ItemKind.text s = clean_text-IsText s 120

pub record IsItem (i : ItemMeta) : Type 0 where
  pub named : is_post_id i.id ≡ true
  pub titled : IsItemName i.kind i.name
  pub sized : i.size ≤ max_safe_integer
  pub typed : IsText 128 i.mime
  pub written : IsText 40 i.by
  pub dated : i.at ≤ max_safe_integer

meta_of-IsItem : (fs : Fields) → Each IsItem (meta_of fs)
unfolding meta_of
meta_of-IsItem fs = Each-text IsItem is_post_id (find _ fs) _ λ id named.
    Each-bind IsItem (as_string (find _ fs)) _ λ word _.
      Each-bind IsItem (item_kind word) _ λ kind _. Each-fits IsItem 400 (find _ fs) _ λ name _.
        Each-int IsItem 0 (find _ fs) _ λ size _ sized. Each-fits IsItem 200 (find _ fs) _ λ mime _.
          Each-fits IsItem 80 (find _ fs) _ λ by _. Each-int IsItem 0 (find _ fs) _ λ at _ dated.
            record {
              named = named;
              titled = item_name-IsItemName kind name;
              sized = sized;
              typed = clean_text-IsText (mime_or mime) 128;
              written = clean_text-IsText by 40;
              dated = dated;
            }

pub clean_meta-IsItem : (v : Json) → Each IsItem (clean_meta v)
unfolding clean_meta
clean_meta-IsItem v = Each-bind IsItem (as_object v) _ λ fs _. meta_of-IsItem fs
