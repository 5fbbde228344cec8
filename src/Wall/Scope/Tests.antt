-- ===== src/Wall/Scope/Tests.antt =====
-- Scopes on concrete inputs.
use filenymous.Prelude.{◌≡◌, refl, ◌⊎◌, ◌↔◌, true, false, none, some, [], codes}
use filenymous.Prelude.Json.{boolean, object, end, with_field}
use filenymous.Wall.Scope.{
  AgentScope, Visible, scope_default, scope_full, scope_name, full, clean_scope, parse_scope_arg,
  scope_parts, names, scope_allows, need_files, is_limited, visible_to,
}
use filenymous.Wall.Scope.Visibility.{Concerns, visible_to-Concerns}

scope_functions : Unit {0}
unfolding parse_scope_arg scope_parts names scope_name clean_scope scope_allows
scope_functions = tt

abbrev searcher : AgentScope
searcher = record { post = true; files = false; secrets = false; limited = true; search = true }

asked : parse_scope_arg (some (codes " Post, limited,search")) ≡ some searcher
unfolding scope_functions
asked = refl

unknown_word : parse_scope_arg (some (codes "post,admin")) ≡ none
unfolding scope_functions
unknown_word = refl

cleaned :
    clean_scope (
      object (
        with_field (codes "post") (boolean true) (
          with_field (codes "files") (boolean true) (
            with_field
              (codes "secrets")
              (boolean true)
              (with_field (codes "limited") (boolean false) end)))))
    ≡ some scope_full
unfolding scope_functions
cleaned = refl

full_is_named : scope_name scope_full ≡ full
unfolding scope_functions
full_is_named = refl

no_files : scope_allows (some scope_default) (some need_files) ≡ false
unfolding scope_functions
no_files = refl

abbrev reply : Visible
reply = record {
  id = codes "m2";
  by = codes "peer:2";
  mentions = [];
  reply_to = some (codes "m1");
  owner = none;
}

visible_to-Concerns_example :
    (visible_to (codes "peer:1") (some searcher) (λ id. false) reply (λ id. some (codes "peer:1"))
      ≡ true)
    ↔ ((is_limited (some searcher) ≡ false)
        ⊎ Concerns (codes "peer:1") (λ id. false) reply (λ id. some (codes "peer:1")))
visible_to-Concerns_example =
    visible_to-Concerns (codes "peer:1") (some searcher) (λ id. false) reply
      (λ id. some (codes "peer:1"))
