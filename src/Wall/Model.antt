-- ===== src/Wall/Model.antt =====
-- ui/src/wall/model.ts: the items of the wall.
use filenymous.Prelude.{ℕ, Text}

pub data ItemKind : Type 0 where
  file text : ItemKind

pub record ItemMeta : Type 0 where
  pub id : Text
  pub kind : ItemKind
  pub name : Text
  pub size : ℕ
  pub mime : Text
  pub by : Text
  pub at : ℕ
