-- ===== src/Auth/Scope/Added.antt =====
-- The scopes after `addScope`.
use regclient.Base.{
  ℕ, ◌≡◌, refl, sym, ap, ◌∙◌, ◌↔◌, inl, inr, true, false, ◌&&◌, ◌||◌, none, some, List, [], ◌∷◌,
  ◌++◌, arith, Bool-cases, Option-cases, some-injective,
}
use regclient.Base.Text.{Chars, chars_eq, chars_eq_inst, chars_eq_iff}
use regclient.Auth.Scope.{
  is_empty, contains, cut, parse_scope, actions_for, extend_first, try_extend_existing_scope,
  add_to_scopes, find_scope, scope_exists,
}
use regclient.Auth.Scope.Texts.{Free}
use regclient.Auth.Scope.Parse.{parse_scope-IsScope, actions_for-some, actions_for-none}
use regclient.Auth.Scope.Actions.{contains-append, all-contains, contains-all}
use regclient.Auth.Scope.Grants.{
  granted, grants, covers, requests, find_scope-granted, actions_for_inv, grants-none, grants-some,
  grants-extend_first, granted-extend_first, grants-append,
}

grants-nothing : (r a : Chars) → grants [] r a ≡ false
unfolding grants granted
grants-nothing r a = refl

grants_one :
    (s repo r a : Chars) (actions : List Chars)
    → Free b':' r
    → parse_scope s ≡ some (repo, actions)
    → grants (s ∷ []) r a ≡ (chars_eq r repo && contains actions a)
grants_one s repo r a actions g p =
    let o = actions_for-some r s repo actions g p in
    elim (Bool-cases (chars_eq r repo)) [
      | inl same ↦ grants-some s [] r a actions (rw same at o) ∙ rw same refl
      | inr other ↦ grants-none s [] r a (rw other at o) ∙ rw (grants-nothing r a, other) refl
    ]

granted-false :
    (scopes : List Chars) (r a : Chars) → granted r scopes ≡ none → grants scopes r a ≡ false
unfolding grants
granted-false scopes r a h = rw (h, grants) refl

-- A scope that is added behind the others.
grants_appended :
    (scopes : List Chars) (s repo r a : Chars) (actions : List Chars)
    → Free b':' r
    → parse_scope s ≡ some (repo, actions)
    → granted repo scopes ≡ none
    → grants (scopes ++ s ∷ []) r a ≡ (grants scopes r a || (chars_eq r repo && contains actions a))
grants_appended scopes s repo r a actions g p n =
    grants-append scopes s r a ∙ elim (Bool-cases (chars_eq r repo)) [
      | inl same ↦
          let e = (chars_eq_iff r repo).0 same in
          let m : granted r scopes ≡ none = rw e n in
          rw (m, grants_one s repo r a actions g p, granted-false scopes r a m) refl
      | inr other ↦ elim (Option-cases (granted r scopes)) [
        | inl m ↦ rw (m, grants_one s repo r a actions g p, granted-false scopes r a m) refl
        | inr (as', m) ↦ rw (m, other) (ground arith)
      ]
    ]

-- The actions that are granted after `addScope` are those from before and those that the new scope
-- requests, none where it has an unknown action, in every repository whose name has no colon.
pub grants-add_to_scopes :
    (scopes : List Chars) (s r a : Chars)
    → Free b':' r
    → grants (add_to_scopes scopes s) r a ≡ (grants scopes r a || requests s r a)
unfolding add_to_scopes try_extend_existing_scope requests
grants-add_to_scopes scopes s r a g = elim (Option-cases (parse_scope s)) [
  | inl unparsed ↦
      rw (unparsed, add_to_scopes, try_extend_existing_scope, requests)
        (grants-append scopes s r a
          ∙ rw (grants-none s [] r a (actions_for-none r s unparsed), grants-nothing r a)
              (elim (Option-cases (granted r scopes)) [
                | inl m ↦ rw (m, granted-false scopes r a m) refl
                | inr (as', m) ↦ rw m (ground arith)
              ]))
  | inr ((repo, actions), p) ↦
      let i = parse_scope-IsScope s repo actions p in
      elim (Option-cases (extend_first repo actions scopes)) [
        | inl stuck ↦
            rw (p, stuck, add_to_scopes, try_extend_existing_scope, requests)
              (grants_appended scopes s repo r a actions g p
                (granted-extend_first repo actions scopes stuck))
        | inr (scopes', e) ↦
            rw (p, e, add_to_scopes, try_extend_existing_scope, requests)
              (grants-extend_first repo actions scopes scopes' r a i.no_colon g i.known e)
      ]
]

parse_scope_empty : parse_scope [] ≡ none
unfolding parse_scope cut
parse_scope_empty = refl

scope_exists-some :
    (scopes : List Chars) (c : ℕ) (t repo : Chars) (actions : List Chars)
    → parse_scope (c ∷ t) ≡ some (repo, actions)
    → scope_exists scopes (c ∷ t) ≡ find_scope (c ∷ t) repo actions scopes
unfolding scope_exists
scope_exists-some scopes c t repo actions p = rw (p, scope_exists) refl

scope_exists_parsed :
    (scopes : List Chars) (t repo : Chars) (actions : List Chars)
    → parse_scope t ≡ some (repo, actions)
    → scope_exists scopes t ≡ covers (granted repo scopes) actions
scope_exists_parsed scopes [] repo actions p = ground (arith, sym parse_scope_empty ∙ p)
scope_exists_parsed scopes (c ∷ t) repo actions p =
    scope_exists-some scopes c t repo actions p ∙ find_scope-granted (c ∷ t) repo actions scopes p

granted-some :
    (scopes as' : List Chars) (r a : Chars)
    → granted r scopes ≡ some as'
    → grants scopes r a ≡ contains as' a
unfolding grants
granted-some scopes as' r a h = rw (h, grants) refl

some_member :
    (actions : List Chars) → is_empty actions ≡ false → (a : Chars) × (contains actions a ≡ true)
some_member [] n = cc
some_member (x ∷ xs) n = (x, ground (arith, chars_eq_iff x x))

-- `scopeExists` on a scope that is parsed says that all its actions are granted.
scope_exists-grants :
    (scopes : List Chars) (t repo : Chars) (actions : List Chars)
    → parse_scope t ≡ some (repo, actions)
    → (scope_exists scopes t ≡ true)
      ↔ ((a : Chars) → contains actions a ≡ true → grants scopes repo a ≡ true)
scope_exists-grants scopes t repo actions p =
    let e = scope_exists_parsed scopes t repo actions p in
    elim (Option-cases (granted repo scopes)) [
      | inl m ↦
          let q = rw m at e in
          (
            λ h. ground (arith, q),
            λ f.
                let (a, k) = some_member actions (parse_scope-IsScope t repo actions p).not_empty in
                ground (arith, f a k, granted-false scopes repo a m),
          )
      | inr (as', m) ↦
          let q = rw m at e in
          (
            λ h a k. granted-some scopes as' repo a m ∙ contains-all as' actions a (sym q ∙ h) k,
            λ f.
                q
                ∙ all-contains as' actions (λ a k. sym (granted-some scopes as' repo a m) ∙ f a k),
          )
    ]

contains-extend_first :
    (repo : Chars) (actions scopes scopes' : List Chars) (t : Chars)
    → parse_scope t ≡ none
    → Free b':' repo
    → extend_first repo actions scopes ≡ some scopes'
    → contains scopes t ≡ true
    → contains scopes' t ≡ true
unfolding extend_first
contains-extend_first repo actions [] scopes' t u f h k = ground (arith, h)
contains-extend_first repo actions (s ∷ ss) scopes' t u f h k =
    elim (Option-cases (actions_for repo s)) [
      | inl skipped ↦
          let h1 = rw (skipped, extend_first) at h in
          elim (Option-cases (extend_first repo actions ss)) [
            | inl stuck ↦ ground (arith, rw stuck at h1)
            | inr (rest, e) ↦
                rw (sym (some-injective (rw e at h1)))
                  (ground (arith, k, contains-extend_first repo actions ss rest t u f e))
          ]
      | inr (as', own) ↦
          let p = actions_for_inv repo s as' f own in
          rw (sym (some-injective (rw (own, extend_first) at h)))
            (elim (Bool-cases (chars_eq s t)) [
              | inl here ↦ ground (arith, sym p ∙ ap parse_scope ((chars_eq_iff s t).0 here) ∙ u)
              | inr there ↦ ground (arith, k, there)
            ])
    ]

-- A scope with actions that are not known is kept as it is.
contains-add_to_scopes :
    (scopes : List Chars) (s t : Chars)
    → parse_scope t ≡ none
    → contains scopes t ≡ true
    → contains (add_to_scopes scopes s) t ≡ true
unfolding add_to_scopes try_extend_existing_scope
contains-add_to_scopes scopes s t u h =
    let appended : contains (scopes ++ s ∷ []) t ≡ true =
      contains-append scopes (s ∷ []) t ∙ rw h refl in
    elim (Option-cases (parse_scope s)) [
      | inl unparsed ↦ rw (unparsed, add_to_scopes, try_extend_existing_scope) appended
      | inr ((repo, actions), p) ↦ elim (Option-cases (extend_first repo actions scopes)) [
        | inl stuck ↦ rw (p, stuck, add_to_scopes, try_extend_existing_scope) appended
        | inr (scopes', e) ↦
            rw (p, e, add_to_scopes, try_extend_existing_scope)
              (contains-extend_first repo actions scopes scopes' t u
                (parse_scope-IsScope s repo actions p).no_colon e h)
      ]
    ]

scope_exists_unparsed :
    (scopes : List Chars) (t : Chars)
    → parse_scope t ≡ none
    → scope_exists scopes t ≡ (is_empty t || contains scopes t)
unfolding scope_exists
scope_exists_unparsed scopes [] u = refl
scope_exists_unparsed scopes (c ∷ t) u = rw (u, scope_exists) refl

requests_own :
    (s repo a : Chars) (actions : List Chars)
    → parse_scope s ≡ some (repo, actions)
    → requests s repo a ≡ contains actions a
unfolding requests
requests_own s repo a actions p = rw (p, requests, (chars_eq_iff repo repo).1 refl) refl

contains_added :
    (scopes : List Chars) (s : Chars)
    → parse_scope s ≡ none
    → contains (add_to_scopes scopes s) s ≡ true
unfolding add_to_scopes try_extend_existing_scope
contains_added scopes s u =
    rw (u, add_to_scopes, try_extend_existing_scope)
      (ground (arith, contains-append scopes (s ∷ []) s, chars_eq_iff s s))

scope_exists_added :
    (scopes : List Chars) (s : Chars) → scope_exists (add_to_scopes scopes s) s ≡ true
scope_exists_added scopes s = elim (Option-cases (parse_scope s)) [
  | inl u ↦
      scope_exists_unparsed (add_to_scopes scopes s) s u ∙ ground (arith, contains_added scopes s u)
  | inr ((repo, actions), p) ↦
      (scope_exists-grants (add_to_scopes scopes s) s repo actions p).1 (λ a k.
        grants-add_to_scopes scopes s repo a (parse_scope-IsScope s repo actions p).no_colon
        ∙ ground (arith, requests_own s repo a actions p, k))
]

scope_exists_kept :
    (scopes : List Chars) (s t : Chars)
    → scope_exists scopes t ≡ true
    → scope_exists (add_to_scopes scopes s) t ≡ true
scope_exists_kept scopes s t h = elim (Option-cases (parse_scope t)) [
  | inl u ↦
      scope_exists_unparsed (add_to_scopes scopes s) t u
      ∙ ground
          (arith, sym (scope_exists_unparsed scopes t u) ∙ h, contains-add_to_scopes scopes s t u)
  | inr ((repo, actions), p) ↦
      (scope_exists-grants (add_to_scopes scopes s) t repo actions p).1 (λ a k.
        grants-add_to_scopes scopes s repo a (parse_scope-IsScope t repo actions p).no_colon
        ∙ ground (arith, (scope_exists-grants scopes t repo actions p).0 h a k))
]

-- After `addScope` the new scope exists, and every scope that existed before still does.
pub scope_exists-add_to_scopes :
    (scopes : List Chars) (s : Chars)
    → (scope_exists (add_to_scopes scopes s) s ≡ true)
      × ((t : Chars)
          → scope_exists scopes t ≡ true
          → scope_exists (add_to_scopes scopes s) t ≡ true)
scope_exists-add_to_scopes scopes s = (scope_exists_added scopes s, scope_exists_kept scopes s)
