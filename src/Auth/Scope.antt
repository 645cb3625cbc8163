-- ===== src/Auth/Scope.antt =====
-- internal/auth/auth.go: the scopes that a `bearerHandler` holds.
pub mod Texts
pub mod Parse
pub mod Actions
pub mod Grants
pub mod Added
pub mod Asked
mod Tests
use regclient.Base.{
  ℕ, zero, suc, ◌+◌, ◌-◌, ◌*◌, ◌/◌, ◌%◌, ◌≤◌, ◌<◌, min, String, ◌≡◌, refl, sym, ap, ◌∙◌, ◌≢◌, ◌↔◌,
  ◌⊎◌, inl, inr, Bool, true, false, not, ◌&&◌, ◌||◌, Option, none, some, List, [], ◌∷◌, ◌++◌, map,
  arith, ltb, leb, ◌==◌, ==_iff, if◌then◌else◌, Bool-cases, Option-cases, some-injective, is_some,
  length, get_elem?, take, drop, length-append, length-take, All, All-append, In, Nowhere, any, all,
}
use regclient.Base.Text.{Chars, codes, split, join, chars_eq, chars_eq_inst}

abbrev pub is_empty {ℓ} : {A : Type ℓ} → List A → Bool
is_empty [] = true
is_empty (x ∷ xs) = false

-- `slices.Contains`.
abbrev pub contains : List Chars → Chars → Bool
contains xs s = any (λ x. chars_eq x s) xs

-- `strings.HasPrefix`.
unfoldable pub has_prefix : Chars → Chars → Bool
has_prefix [] s = true
has_prefix (p ∷ ps) [] = false
has_prefix (p ∷ ps) (c ∷ cs) = p == c && has_prefix ps cs

-- The text before the first separator, and the text behind it where there is one: a step of
-- `strings.SplitN`.
unfoldable pub cut : ℕ → Chars → Chars × Option Chars
cut sep [] = ([], none)
cut sep (c ∷ cs) =
    let (first, rest) = cut sep cs in if c == sep then ([], some cs) else (c ∷ first, rest)

abbrev pub repository : Chars
repository = codes "repository"

abbrev pub known_actions : List Chars
known_actions = codes "pull" ∷ codes "push" ∷ codes "delete" ∷ []

abbrev pub all_known : List Chars → Bool
all_known as' = all (contains known_actions) as'

-- `parseScope` behind the split at the first two colons.
unfoldable pub parse_actions : Chars → Chars → Option (Chars × List Chars)
parse_actions repo rest =
    let actions = split b',' rest in if all_known actions then some (repo, actions) else none

unfoldable pub parse_repo : Chars → Option (Chars × List Chars)
parse_repo s = elim (cut b':' s).1 [ none ↦ none | some rest ↦ parse_actions (cut b':' s).0 rest ]

-- `parseScope`: the repository and the actions.
unfoldable pub parse_scope : Chars → Option (Chars × List Chars)
parse_scope scope = elim (cut b':' scope).1 [
  | none ↦ none
  | some rest ↦ if chars_eq (cut b':' scope).0 repository then parse_repo rest else none
]

-- `scopePrefix`.
abbrev pub scope_prefix : Chars → Chars
scope_prefix repo = repository ++ (b':' ∷ (repo ++ b':' ∷ []))

-- The actions of a scope of the repository, with the two tests that skip a scope.
unfoldable pub actions_for : Chars → Chars → Option (List Chars)
actions_for repo scope =
    if has_prefix (scope_prefix repo) scope
    then elim (parse_scope scope) [ none ↦ none | some (r, as') ↦ some as' ]
    else none

-- The loop over the new actions.
unfoldable pub extend : List Chars → List Chars → List Chars
extend cur [] = cur
extend cur (a ∷ as') = extend (if contains cur a then cur else cur ++ a ∷ []) as'

-- `tryExtendExistingScope` behind its parse; `none` for the result false.
unfoldable pub extend_first : Chars → List Chars → List Chars → Option (List Chars)
extend_first repo actions [] = none
extend_first repo actions (cur ∷ rest) = elim (actions_for repo cur) [
  | none ↦ elim (extend_first repo actions rest) [ none ↦ none | some scopes ↦ some (cur ∷ scopes) ]
  | some as' ↦ some ((scope_prefix repo ++ join b',' (extend as' actions)) ∷ rest)
]

-- `tryExtendExistingScope`.
unfoldable pub try_extend_existing_scope : List Chars → Chars → Option (List Chars)
try_extend_existing_scope scopes scope = elim (parse_scope scope) [
  | none ↦ none
  | some (repo, actions) ↦ extend_first repo actions scopes
]

-- The list of scopes that `addScope` leaves.
unfoldable pub add_to_scopes : List Chars → Chars → List Chars
add_to_scopes scopes scope = elim (try_extend_existing_scope scopes scope) [
  | none ↦ scopes ++ scope ∷ []
  | some extended ↦ extended
]

-- The loop of `scopeExists`.
unfoldable pub find_scope : Chars → Chars → List Chars → List Chars → Bool
find_scope search repo actions [] = false
find_scope search repo actions (scope ∷ rest) =
    let later = find_scope search repo actions rest in
    if chars_eq scope search
    then true
    else elim (actions_for repo scope) [ none ↦ later | some as' ↦ all (contains as') actions ]

-- `scopeExists`.
unfoldable pub scope_exists : List Chars → Chars → Bool
scope_exists scopes search = if is_empty search then true else elim (parse_scope search) [
  | none ↦ contains scopes search
  | some (repo, actions) ↦ find_scope search repo actions scopes
]
