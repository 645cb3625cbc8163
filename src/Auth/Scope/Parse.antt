-- ===== src/Auth/Scope/Parse.antt =====
-- What `parseScope` reads, and the scopes that are written again.
use mathlib.Core.List.{append_assoc}
use regclient.Base.{
  ◌≡◌, refl, sym, ap, ◌∙◌, inl, inr, true, false, none, some, List, [], ◌∷◌, ◌++◌, arith,
  if◌then◌else◌, Bool-cases, Option-cases, some-injective, All,
}
use regclient.Base.Text.{Chars, codes, split, join, chars_eq, chars_eq_inst, chars_eq_iff}
use regclient.Auth.Scope.{
  is_empty, contains, has_prefix, cut, repository, known_actions, all_known, parse_actions,
  parse_repo, parse_scope, scope_prefix, actions_for,
}
use regclient.Auth.Scope.Texts.{
  Free, cut_at, cut-Free, cut-some, has_prefix-append, has_prefix_part, split-is_empty, split-join,
}

-- The text of a scope behind its prefix.
pub prefix-append :
    (repo rest : Chars) → scope_prefix repo ++ rest ≡ repository ++ (b':' ∷ (repo ++ (b':' ∷ rest)))
prefix-append repo rest = ap (λ s. repository ++ (b':' ∷ s)) (append_assoc repo (b':' ∷ []) rest)

parse_scope_repository : (s : Chars) → parse_scope (repository ++ (b':' ∷ s)) ≡ parse_repo s
unfolding parse_scope cut chars_eq
parse_scope_repository s = refl

parse_repo_at :
    (repo rest : Chars)
    → Free b':' repo
    → parse_repo (repo ++ (b':' ∷ rest)) ≡ parse_actions repo rest
unfolding parse_repo
parse_repo_at repo rest h =
    rw (cut_at b':' repo rest h, parse_repo)
      (ap (λ r. parse_actions r rest) (ap (λ p. p.0) (cut_at b':' repo rest h)))

pub parse_scope-prefix :
    (repo rest : Chars)
    → Free b':' repo
    → parse_scope (scope_prefix repo ++ rest) ≡ parse_actions repo rest
parse_scope-prefix repo rest h =
    ap parse_scope (prefix-append repo rest)
    ∙ parse_scope_repository (repo ++ (b':' ∷ rest))
    ∙ parse_repo_at repo rest h

-- What a scope that is parsed consists of.
pub record IsScope (scope repo : Chars) (actions : List Chars) : Type 0 where
  pub rest : Chars
  pub text : scope ≡ scope_prefix repo ++ rest
  pub no_colon : Free b':' repo
  pub known : all_known actions ≡ true
  pub not_empty : is_empty actions ≡ false

parse_actions-some :
    (r rest repo : Chars) (actions : List Chars)
    → parse_actions r rest ≡ some (repo, actions)
    → (r ≡ repo) × (split b',' rest ≡ actions) × (all_known (split b',' rest) ≡ true)
unfolding parse_actions
parse_actions-some r rest repo actions h = elim (Bool-cases (all_known (split b',' rest))) [
  | inl known ↦ let e = some-injective (rw known at h) in (ap (λ p. p.0) e, ap (λ p. p.1) e, known)
  | inr unknown ↦ cc
]

parse_repo-some :
    (s repo : Chars) (actions : List Chars)
    → parse_repo s ≡ some (repo, actions)
    → (rest : Chars) × (s ≡ repo ++ (b':' ∷ rest))
      × Free b':' repo
      × (all_known actions ≡ true)
      × (is_empty actions ≡ false)
unfolding parse_repo
parse_repo-some s repo actions h = elim (Option-cases (cut b':' s).1) [
  | inl none_left ↦ cc
  | inr (rest, e) ↦
      let (r, a, k) =
        parse_actions-some (cut b':' s).0 rest repo actions (rw (e, parse_repo) at h) in
      (
        rest,
        rw (sym r) (cut-some b':' s rest e),
        rw (sym r) (cut-Free b':' s),
        rw (sym a) k,
        rw (sym a) (split-is_empty b',' rest),
      )
]

pub parse_scope-IsScope :
    (scope repo : Chars) (actions : List Chars)
    → parse_scope scope ≡ some (repo, actions)
    → IsScope scope repo actions
unfolding parse_scope
parse_scope-IsScope scope repo actions h = elim (Option-cases (cut b':' scope).1) [
  | inl none_left ↦ cc
  | inr (after, e) ↦ elim (Bool-cases (chars_eq (cut b':' scope).0 repository)) [
    | inl is_repository ↦
        let (rest, t, f, k, n) =
          parse_repo-some after repo actions (rw (e, is_repository, parse_scope) at h) in
        let q = (chars_eq_iff (cut b':' scope).0 repository).0 is_repository in
        record {
          rest = rest;
          text = cut-some b':' scope after e ∙ rw (q, t, prefix-append repo rest) refl;
          no_colon = f;
          known = k;
          not_empty = n;
        }
    | inr other ↦ cc
  ]
]

-- The two tests that skip a scope keep the scopes of the repository.
pub actions_for-some :
    (repo scope r : Chars) (actions : List Chars)
    → Free b':' repo
    → parse_scope scope ≡ some (r, actions)
    → actions_for repo scope ≡ (if chars_eq repo r then some actions else none)
unfolding actions_for
actions_for-some repo scope r actions h e =
    let s = parse_scope-IsScope scope r actions e in
    let prefixed : has_prefix (scope_prefix repo) scope ≡ chars_eq repo r =
      rw (s.text, prefix-append r s.rest)
        (has_prefix-append repository (b':' ∷ (repo ++ b':' ∷ [])) (b':' ∷ (r ++ (b':' ∷ s.rest)))
          ∙ has_prefix-append (b':' ∷ []) (repo ++ b':' ∷ []) (r ++ (b':' ∷ s.rest))
          ∙ has_prefix_part b':' repo r s.rest h s.no_colon) in
    rw (prefixed, e) refl

pub actions_for-none :
    (repo scope : Chars) → parse_scope scope ≡ none → actions_for repo scope ≡ none
unfolding actions_for
actions_for-none repo scope e = ground (arith, e)

known-Free : (a : Chars) → contains known_actions a ≡ true → Free b',' a
known-Free a h = ground (
  arith,
  chars_eq_iff (codes "pull") a,
  chars_eq_iff (codes "push") a,
  chars_eq_iff (codes "delete") a,
)

all_known-Free : (as' : List Chars) → all_known as' ≡ true → All (Free b',') as'
all_known-Free [] h = tt
all_known-Free (a ∷ as') h = elim (Bool-cases (contains known_actions a)) [
  | inl known ↦ (known-Free a known, all_known-Free as' (ground arith))
  | inr unknown ↦ ground arith
]

-- A scope that is written from a repository and known actions is parsed into them.
pub parse_scope-join :
    (repo : Chars) (actions : List Chars)
    → Free b':' repo
    → all_known actions ≡ true
    → is_empty actions ≡ false
    → parse_scope (scope_prefix repo ++ join b',' actions) ≡ some (repo, actions)
unfolding parse_actions
parse_scope-join repo actions h k n =
    parse_scope-prefix repo (join b',' actions) h
    ∙ rw (split-join b',' actions n (all_known-Free actions k), k) refl
