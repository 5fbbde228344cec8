-- ===== src/Wall/Scope.antt =====
-- ui/src/wall/collab.ts: what the host lets an AI agent do and see.
pub mod Visibility
mod Tests
use filenymous.Prelude.{
  ℕ, ◌+◌, Bool, true, false, ◌&&◌, ◌||◌, not, Option, none, some, List, [], ◌∷◌, map, leb, ◌==◌,
  ◌++◌, if◌then◌else◌, Text, codes, text_eq, length, trim, filter, any, all,
}
use filenymous.Prelude.Json.{
  Json, undefined, null, boolean, number, string, array, object, Fields, find, as_boolean,
  as_object,
}
use filenymous.Prelude.Options.{◌>>=◌}

-- `search` is there on the wire only as true.
pub record AgentScope : Type 0 where
  pub post : Bool
  pub files : Bool
  pub secrets : Bool
  pub limited : Bool
  pub search : Bool

abbrev pub scope_read_only : AgentScope
scope_read_only = record {
  post = false;
  files = false;
  secrets = false;
  limited = false;
  search = false;
}

abbrev pub scope_default : AgentScope
scope_default = record {
  post = true;
  files = false;
  secrets = false;
  limited = false;
  search = false;
}

abbrev pub scope_full : AgentScope
scope_full = record { post = true; files = true; secrets = true; limited = false; search = false }

optional_flag : Json → Option Bool
optional_flag undefined = some false
optional_flag (boolean b) = some b
optional_flag _ = none

unfoldable pub clean_scope : Json → Option AgentScope
unfolding optional_flag as_object as_boolean find text_eq
clean_scope v = do
  fs ← as_object v
  post ← as_boolean (find (codes "post") fs)
  files ← as_boolean (find (codes "files") fs)
  secrets ← as_boolean (find (codes "secrets") fs)
  limited ← as_boolean (find (codes "limited") fs)
  search ← optional_flag (find (codes "search") fs)
  some
      (record { post = post; files = files; secrets = secrets; limited = limited; search = search })

pub data ScopeName : Type 0 where
  read_only post_only full custom : ScopeName

unfoldable pub scope_name : AgentScope → ScopeName
scope_name s =
    if not s.post && not s.files && not s.secrets
    then read_only
    else if s.post && not s.files && not s.secrets
    then post_only
    else if s.post && s.files && s.secrets
    then full
    else custom

-- `toLowerCase`, of the ASCII letters: no word that is looked for has a letter to which another
-- character is lowered.
lower : Text → Text
lower s = map (λ c. if leb b'A' c && leb c b'Z' then c + 32 else c) s

-- `v.split(",")`, with the part in hand.
split_from : Text → Text → List Text
split_from part [] = part ∷ []
split_from part (c ∷ s) =
    let rest = split_from [] s in
    let longer = split_from (part ++ c ∷ []) s in if c == b',' then part ∷ rest else longer

not_empty : Text → Bool
not_empty s = leb 1 (length s)

unfoldable pub names : List Text → Text → Bool
unfolding text_eq
names parts word = any (λ p. text_eq p word) parts

-- The words that a list may have.
is_scope_word : Text → Bool
unfolding names
is_scope_word p =
    names
      (codes "post"
        ∷ codes "files"
        ∷ codes "secrets"
        ∷ codes "limited"
        ∷ codes "search"
        ∷ codes "read-only"
        ∷ [])
      p

unfoldable pub scope_parts : Text → List Text
unfolding lower split_from not_empty trim
scope_parts raw = filter not_empty (map trim (split_from [] (lower (trim raw))))

scope_of : List Text → AgentScope
unfolding names
scope_of parts = record {
  post = names parts (codes "post");
  files = names parts (codes "files");
  secrets = names parts (codes "secrets");
  limited = names parts (codes "limited");
  search = names parts (codes "search");
}

parse_parts : List Text → Option AgentScope
unfolding scope_of is_scope_word
parse_parts [] = none
parse_parts (p ∷ ps) = if all is_scope_word (p ∷ ps) then some (scope_of (p ∷ ps)) else none

parse_word : Text → Text → Option AgentScope
unfolding parse_parts scope_parts text_eq
parse_word v raw =
    if text_eq v (codes "read-only") || text_eq v (codes "readonly")
    then some scope_read_only
    else if text_eq v (codes "post")
    then some scope_default
    else if text_eq v (codes "full")
    then some scope_full
    else parse_parts (scope_parts raw)

unfoldable pub parse_scope_arg : Option Text → Option AgentScope
unfolding parse_word lower trim
parse_scope_arg none = none
parse_scope_arg (some []) = none
parse_scope_arg (some (c ∷ s)) = parse_word (lower (trim (c ∷ s))) (c ∷ s)

pub data Need : Type 0 where
  need_post need_files need_secrets : Need

unfoldable pub scope_allows : Option AgentScope → Option Need → Bool
scope_allows none need = true
scope_allows (some s) none = true
scope_allows (some s) (some need_post) = s.post
scope_allows (some s) (some need_files) = s.files
scope_allows (some s) (some need_secrets) = s.secrets

pub record Visible : Type 0 where
  pub id : Text
  pub by : Text
  pub mentions : List Text
  pub reply_to : Option Text
  pub owner : Option Text

is_label_of : Text → Option Text → Bool
unfolding text_eq
is_label_of label none = false
is_label_of label (some l) = text_eq l label

-- `e.replyTo && byOf?.(e.replyTo) === label`
answers : Text → (Text → Option Text) → Option Text → Bool
unfolding is_label_of
answers label by_of none = false
answers label by_of (some []) = false
answers label by_of (some (c ∷ s)) = is_label_of label (by_of (c ∷ s))

pub is_limited : Option AgentScope → Bool
is_limited none = false
is_limited (some s) = s.limited

-- `visibleTo`; mentions that are not there are none, and without `byOf` no id has an author.
pub visible_to : Text → Option AgentScope → (Text → Bool) → Visible → (Text → Option Text) → Bool
visible_to label scope shared e by_of =
    if not (is_limited scope)
    then true
    else if text_eq e.by label || shared e.id
    then true
    else if any (λ m. text_eq m label) e.mentions
    then true
    else if is_label_of label e.owner
    then true
    else answers label by_of e.reply_to
