-- ===== src/Wall/Store/Tests.antt =====
-- The items of the wall on concrete inputs.
use filenymous.Prelude.{◌≡◌, refl, true, false, none, some, List, [], ◌∷◌, Text, codes, text_eq}
use filenymous.JsMap
use filenymous.Wall.Model.{file}
use filenymous.Wall.Store
use filenymous.Wall.Store.{
  Stored, WallStore, Input, Taken, Call, adds, takes, removes, empty, run, step, add, take_item,
  peek, admit_item, item_too_large, safe_file_name,
}
use filenymous.Wall.Store.Limits.{IsValid, run_store-IsValid}
use filenymous.Wall.Store.Burn.{take_once}

store_functions : Unit {0}
unfolding run step take_item peek admit_item safe_file_name text_eq JsMap.get JsMap.set JsMap.delete
    filenymous.Wall.Store.add filenymous.Wall.Store.admit filenymous.Wall.Store.used
    filenymous.Wall.Store.used_in filenymous.Wall.Store.add_admitted filenymous.Wall.Store.is_text
    filenymous.Wall.Store.new_meta filenymous.Wall.Store.item_name filenymous.Wall.Store.item_id
    filenymous.Wall.Store.at_or
store_functions = tt

abbrev ann : Text
ann = codes "peer:1"

abbrev bob : Text
bob = codes "peer:2"

abbrev photo : Input
photo = record {
  kind = file;
  name = codes "a/b.png";
  mime = [];
  by = ann;
  owner = codes "p1";
  bytes = 1 ∷ 2 ∷ 3 ∷ [];
  at = none;
}

abbrev script : List Call
script = adds photo 7 (codes "x") ∷ []

abbrev kept : Stored
kept = record {
  meta = record {
    id = codes "i1-x";
    kind = file;
    name = codes "a_b.png";
    size = 3;
    mime = codes "application/octet-stream";
    by = ann;
    at = 7;
  };
  owner = codes "p1";
  bytes = 1 ∷ 2 ∷ 3 ∷ [];
}

abbrev wall : WallStore
wall = record { burn = true; items = (codes "i1-x", kept) ∷ []; seq = 1 }

script_runs : run (empty true) script ≡ wall
unfolding store_functions
script_runs = refl

too_large : admit_item file 268435457 0 0 ≡ some item_too_large
unfolding store_functions
too_large = refl

-- A space before the dots keeps them.
dots_after_space : safe_file_name (codes " ..") ≡ codes ".."
unfolding store_functions
dots_after_space = refl

run_store-IsValid_example : IsValid (run (empty true) script)
run_store-IsValid_example = run_store-IsValid true script

photo_is_there : JsMap.get (codes "i1-x") wall.items ≡ some kept
unfolding store_functions
photo_is_there = refl

bob_is_another : text_eq kept.owner bob ≡ false
unfolding store_functions
bob_is_another = refl

take_once_example :
    ((take_item wall (codes "i1-x") bob).1
      ≡ some (record { meta = kept.meta; bytes = kept.bytes; burned = true }))
    × ((next : Text)
        → (take_item (take_item wall (codes "i1-x") bob).0 (codes "i1-x") next).1 ≡ none)
    × (peek (take_item wall (codes "i1-x") bob).0 (codes "i1-x") ≡ none)
    × ((j : Text)
        → text_eq (codes "i1-x") j ≡ false
        → JsMap.get j (take_item wall (codes "i1-x") bob).0.items ≡ JsMap.get j wall.items)
take_once_example = take_once wall (codes "i1-x") bob kept refl photo_is_there bob_is_another
