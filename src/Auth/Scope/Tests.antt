-- ===== src/Auth/Scope/Tests.antt =====
-- Runs on lists of scopes, and instances of their theorems.
use regclient.Base.{◌≡◌, refl, true, false, ◌||◌, List, [], ◌∷◌, ◌++◌}
use regclient.Base.Text.{Chars, codes, split, join, chars_eq}
use regclient.Auth.Scope.{
  repository, add_to_scopes, try_extend_existing_scope, extend_first, extend, actions_for,
  parse_scope, parse_repo, parse_actions, cut, has_prefix, scope_exists, find_scope,
}
use regclient.Auth.Scope.Asked.{parts, parts_of_name, asks, asks-add_to_scopes}
use regclient.Auth.Scope.Added.{scope_exists-add_to_scopes}

abbrev held : List Chars
held = codes "registry:catalog:*" ∷ codes "repository:lib/a:pull" ∷ codes "repository:b:pull" ∷ []

extended :
    add_to_scopes held (codes "repository:lib/a:push,pull")
    ≡ codes "registry:catalog:*"
      ∷ codes "repository:lib/a:pull,push"
      ∷ codes "repository:b:pull"
      ∷ []
unfolding add_to_scopes try_extend_existing_scope extend_first extend actions_for parse_scope
    parse_repo parse_actions cut has_prefix chars_eq split join
extended = refl

appended : add_to_scopes held (codes "repository:b:mount") ≡ held ++ codes "repository:b:mount" ∷ []
unfolding add_to_scopes try_extend_existing_scope parse_scope parse_repo parse_actions cut chars_eq
    split
appended = refl

absent : scope_exists held (codes "repository:b:push") ≡ false
unfolding scope_exists find_scope actions_for parse_scope parse_repo parse_actions cut has_prefix
    chars_eq split
absent = refl

-- An action that is not known stands beside one that is; both are asked for afterwards.
abbrev mount : Chars
mount = codes "repository:b:pull,mount"

mount_asked :
    (asks held repository (codes "b") (codes "mount") ≡ false)
    × (asks (mount ∷ []) repository (codes "b") (codes "mount") ≡ true)
unfolding parts parts_of_name cut split chars_eq
mount_asked = (refl, refl)

asks-add_to_scopes_example :
    asks (add_to_scopes held mount) repository (codes "b") (codes "mount") ≡ (
      asks held repository (codes "b") (codes "mount")
      || asks (mount ∷ []) repository (codes "b") (codes "mount"))
asks-add_to_scopes_example = asks-add_to_scopes held mount repository (codes "b") (codes "mount")

scope_exists-add_to_scopes_example :
    scope_exists (add_to_scopes held (codes "repository:b:push")) (codes "repository:b:push") ≡ true
scope_exists-add_to_scopes_example = (scope_exists-add_to_scopes held (codes "repository:b:push")).0
