-- ===== src/Wall/MessageWire/Accepted.antt =====
-- Whatever is sent, a control message that passes has the shape on which its handler relies.
use filenymous.Prelude.{Bool, Text}
use filenymous.Prelude.Json.{Json, Fields}
use filenymous.Prelude.Options.{Each}
use filenymous.Wall.Messages.{WallMessage}
use filenymous.Wall.Messages.Shape.{IsMessage}
use filenymous.Wall.ThreadWire.Accepted
use filenymous.Wall.MessageWire.{Case}

infixr 4 ◌also◌
abbrev ◌also◌ : {A B : Type 0} → A → B → A × B
a also b = (a, b)

module _ (is_emoji : Text → Bool) (lower : Text → Text) where
  abbrev Good : WallMessage → Type 0
  Good = IsMessage is_emoji lower

  -- Whatever the properties are, what the case reads is well formed.
  abbrev Reads : Case → Type 0
  Reads c = (fs : Fields) → Each Good (c.1 fs)
