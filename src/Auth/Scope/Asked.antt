-- ===== src/Auth/Scope/Asked.antt =====
-- What the scopes ask for, read from their texts without the tests of `parseScope`.
use regclient.Base.{
  ◌≡◌, sym, ap, ◌∙◌, inl, inr, Bool, true, false, ◌&&◌, ◌||◌, Option, none, some, List, [], ◌∷◌,
  ◌++◌, arith, Bool-cases, Option-cases, some-injective, any,
}
use regclient.Base.Text.{Chars, split, join, chars_eq, chars_eq_inst, chars_eq_iff}
use regclient.Auth.Scope.{
  contains, cut, repository, all_known, scope_prefix, parse_actions, parse_repo, parse_scope,
  actions_for, extend, extend_first, try_extend_existing_scope, add_to_scopes,
}
use regclient.Auth.Scope.Texts.{Free}
use regclient.Auth.Scope.Parse.{parse_scope-IsScope, parse_scope-join}
use regclient.Auth.Scope.Actions.{contains-extend, all_known-extend, is_empty-extend}
use regclient.Auth.Scope.Grants.{actions_for_inv}

-- The type of the resource, its name, and the actions, known or not.
unfoldable pub parts_of_name : Chars → Chars → Option (Chars × Chars × List Chars)
parts_of_name kind s = elim (cut b':' s).1 [
  | none ↦ none
  | some rest ↦ some (kind, (cut b':' s).0, split b',' rest)
]

unfoldable pub parts : Chars → Option (Chars × Chars × List Chars)
parts s = elim (cut b':' s).1 [ none ↦ none | some rest ↦ parts_of_name (cut b':' s).0 rest ]

-- The action on the resource is asked for by a scope of these parts.
abbrev pub asks_of : Option (Chars × Chars × List Chars) → Chars → Chars → Chars → Bool
asks_of none k r a = false
asks_of (some (kind, name, actions)) k r a =
    chars_eq k kind && (chars_eq r name && contains actions a)

abbrev pub asks : List Chars → Chars → Chars → Chars → Bool
asks scopes k r a = any (λ s. asks_of (parts s) k r a) scopes

parts_of_name-parse_repo :
    (kind s repo : Chars) (actions : List Chars)
    → parse_repo s ≡ some (repo, actions)
    → parts_of_name kind s ≡ some (kind, repo, actions)
unfolding parse_repo parts_of_name parse_actions
parts_of_name-parse_repo kind s repo actions h = elim (Option-cases (cut b':' s).1) [
  | inl none_left ↦ cc
  | inr (rest, e) ↦ elim (Bool-cases (all_known (split b',' rest))) [
    | inl known ↦
        let q = some-injective (rw (e, known, parse_repo, parse_actions) at h) in
        rw (e, parts_of_name) (ap (λ p. some (kind, p.0, p.1)) q)
    | inr unknown ↦ ground (arith, rw (e, unknown, parse_repo, parse_actions) at h)
  ]
]

-- What `parseScope` reads is what the text asks for.
parts-parse_scope :
    (s repo : Chars) (actions : List Chars)
    → parse_scope s ≡ some (repo, actions)
    → parts s ≡ some (repository, repo, actions)
unfolding parse_scope parts
parts-parse_scope s repo actions h = elim (Option-cases (cut b':' s).1) [
  | inl none_left ↦ cc
  | inr (rest, e) ↦ elim (Bool-cases (chars_eq (cut b':' s).0 repository)) [
    | inl same ↦
        let q = (chars_eq_iff (cut b':' s).0 repository).0 same in
        rw (e, parts)
          (ap (λ k. parts_of_name k rest) q
            ∙ parts_of_name-parse_repo repository rest repo actions
                (rw (e, same, parse_scope) at h))
    | inr differs ↦ ground (arith, rw (e, differs, parse_scope) at h)
  ]
]

-- The entry of the repository, and the one that is written in its place.
asks_rewritten :
    (s repo : Chars) (as' actions : List Chars) (k r a : Chars)
    → parse_scope s ≡ some (repo, as')
    → all_known actions ≡ true
    → asks_of (parts (scope_prefix repo ++ join b',' (extend as' actions))) k r a
      ≡ (asks_of (parts s) k r a || asks_of (some (repository, repo, actions)) k r a)
asks_rewritten s repo as' actions k r a p h =
    let i = parse_scope-IsScope s repo as' p in
    let new = scope_prefix repo ++ join b',' (extend as' actions) in
    let q : parse_scope new ≡ some (repo, extend as' actions) =
      parse_scope-join repo (extend as' actions) i.no_colon (all_known-extend as' actions i.known h)
        (is_empty-extend as' actions i.not_empty) in
    rw (parts-parse_scope new repo (extend as' actions) q, parts-parse_scope s repo as' p)
      (ground (arith, contains-extend as' actions a))

asks-extend_first :
    (repo : Chars) (actions scopes scopes' : List Chars) (k r a : Chars)
    → Free b':' repo
    → all_known actions ≡ true
    → extend_first repo actions scopes ≡ some scopes'
    → asks scopes' k r a ≡ (asks scopes k r a || asks_of (some (repository, repo, actions)) k r a)
unfolding extend_first
asks-extend_first repo actions [] scopes' k r a f n h = ground (arith, h)
asks-extend_first repo actions (s ∷ ss) scopes' k r a f n h =
    elim (Option-cases (actions_for repo s)) [
      | inl skipped ↦
          let h1 = rw (skipped, extend_first) at h in
          elim (Option-cases (extend_first repo actions ss)) [
            | inl stuck ↦ ground (arith, rw stuck at h1)
            | inr (rest, e) ↦
                rw (sym (some-injective (rw e at h1)))
                  (ground (arith, asks-extend_first repo actions ss rest k r a f n e))
          ]
      | inr (as', own) ↦ rw (sym (some-injective (rw (own, extend_first) at h))) (
          ground
            (arith, asks_rewritten s repo as' actions k r a (actions_for_inv repo s as' f own) n))
    ]

asks-append :
    (scopes : List Chars) (s k r a : Chars)
    → asks (scopes ++ s ∷ []) k r a ≡ (asks scopes k r a || asks_of (parts s) k r a)
asks-append [] s k r a = ground arith
asks-append (x ∷ xs) s k r a = ground (arith, asks-append xs s k r a)

-- Seen as a set of actions on resources, read from the texts at the first two colons and the
-- commas, `addScope` is the union: an action on a resource is asked for afterwards exactly if it was
-- before or the new scope asks for it, whether the new scope is joined to an entry of its
-- repository, is of another type, or has actions that are not known.
pub asks-add_to_scopes :
    (scopes : List Chars) (s k r a : Chars)
    → asks (add_to_scopes scopes s) k r a ≡ (asks scopes k r a || asks (s ∷ []) k r a)
unfolding add_to_scopes try_extend_existing_scope
asks-add_to_scopes scopes s k r a =
    let alone : asks (s ∷ []) k r a ≡ asks_of (parts s) k r a = ground arith in
    elim (Option-cases (parse_scope s)) [
      | inl unparsed ↦
          rw (unparsed, add_to_scopes, try_extend_existing_scope)
            (asks-append scopes s k r a ∙ ap (λ b. asks scopes k r a || b) (sym alone))
      | inr ((repo, actions), p) ↦
          let i = parse_scope-IsScope s repo actions p in
          let own = ap (λ o. asks_of o k r a) (parts-parse_scope s repo actions p) in
          elim (Option-cases (extend_first repo actions scopes)) [
            | inl stuck ↦
                rw (p, stuck, add_to_scopes, try_extend_existing_scope)
                  (asks-append scopes s k r a ∙ ap (λ b. asks scopes k r a || b) (sym alone))
            | inr (scopes', e) ↦
                rw (p, e, add_to_scopes, try_extend_existing_scope)
                  (asks-extend_first repo actions scopes scopes' k r a i.no_colon i.known e
                    ∙ ap (λ b. asks scopes k r a || b) (sym (alone ∙ own)))
          ]
    ]
