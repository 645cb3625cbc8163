-- ===== src/Auth/Scope/Grants.antt =====
-- What a list of scopes grants: for each repository the actions of its first scope.
use regclient.Base.{
  ◌≡◌, refl, sym, ap, ◌∙◌, inl, inr, Bool, true, false, ◌&&◌, ◌||◌, Option, none, some, List, [],
  ◌∷◌, ◌++◌, arith, if◌then◌else◌, Bool-cases, Option-cases, some-injective, is_some, all,
}
use regclient.Base.Text.{Chars, join, chars_eq, chars_eq_inst, chars_eq_iff}
use regclient.Auth.Scope.{
  is_empty, contains, all_known, parse_scope, scope_prefix, actions_for, extend, extend_first,
  find_scope,
}
use regclient.Auth.Scope.Actions.{contains-extend, all_known-extend, is_empty-extend, all-contains}
use regclient.Auth.Scope.Texts.{Free}
use regclient.Auth.Scope.Parse.{
  parse_scope-IsScope, actions_for-some, actions_for-none, parse_scope-join,
}

-- The actions of the first scope of a repository.
unfoldable pub granted : Chars → List Chars → Option (List Chars)
granted repo [] = none
granted repo (s ∷ ss) =
    let later = granted repo ss in elim (actions_for repo s) [ none ↦ later | some as' ↦ some as' ]

-- The abstract view of the scopes: the actions in each repository.
unfoldable pub grants : List Chars → Chars → Chars → Bool
grants scopes repo action = elim (granted repo scopes) [
  | none ↦ false
  | some as' ↦ contains as' action
]

-- The actions that a scope asks for, none where one of them is not known.
unfoldable pub requests : Chars → Chars → Chars → Bool
requests scope repo action = elim (parse_scope scope) [
  | none ↦ false
  | some (r, as') ↦ chars_eq repo r && contains as' action
]

-- The answer of `scopeExists`, from what is granted in the repository.
abbrev pub covers : Option (List Chars) → List Chars → Bool
covers none actions = false
covers (some as') actions = all (contains as') actions

-- `scopeExists` on a scope of known actions compares it with what is granted.
pub find_scope-granted :
    (search repo : Chars) (actions scopes : List Chars)
    → parse_scope search ≡ some (repo, actions)
    → find_scope search repo actions scopes ≡ covers (granted repo scopes) actions
unfolding find_scope granted
find_scope-granted search repo actions [] h = refl
find_scope-granted search repo actions (s ∷ ss) h = elim (Bool-cases (chars_eq s search)) [
  | inl here ↦
      let e = (chars_eq_iff s search).0 here in
      let own : actions_for repo s ≡ some actions = rw e (
        actions_for-some repo search repo actions
          (parse_scope-IsScope search repo actions h).no_colon h
        ∙ rw ((chars_eq_iff repo repo).1 refl) refl) in
      rw (here, own, granted) (sym (all-contains actions actions (λ a k. k)))
  | inr there ↦ elim (Option-cases (actions_for repo s)) [
    | inl skipped ↦ rw (there, skipped, granted) (find_scope-granted search repo actions ss h)
    | inr (as', own) ↦ rw (there, own, granted) refl
  ]
]

pub actions_for_inv :
    (repo s : Chars) (as' : List Chars)
    → Free b':' repo
    → actions_for repo s ≡ some as'
    → parse_scope s ≡ some (repo, as')
actions_for_inv repo s as' f h = elim (Option-cases (parse_scope s)) [
  | inl unparsed ↦ ground (arith, actions_for-none repo s unparsed)
  | inr ((r, x), e) ↦
      let q = sym h ∙ actions_for-some repo s r x f e in
      elim (Bool-cases (chars_eq repo r)) [
        | inl same ↦
            e
            ∙ rw ((chars_eq_iff repo r).0 same)
                (ap (λ y. some (r, y)) (sym (some-injective (rw same at q))))
        | inr other ↦ ground (arith, q)
      ]
]

-- The entry that is written in place of a scope of the repository.
rewritten :
    (repo r : Chars) (as' actions : List Chars)
    → Free b':' repo
    → Free b':' r
    → all_known as' ≡ true
    → all_known actions ≡ true
    → is_empty as' ≡ false
    → actions_for r (scope_prefix repo ++ join b',' (extend as' actions))
      ≡ (if chars_eq r repo then some (extend as' actions) else none)
rewritten repo r as' actions f g k k' n =
    actions_for-some r (scope_prefix repo ++ join b',' (extend as' actions)) repo
      (extend as' actions) g
      (parse_scope-join repo (extend as' actions) f (all_known-extend as' actions k k')
        (is_empty-extend as' actions n))

pub grants-none :
    (s : Chars) (ss : List Chars) (r a : Chars)
    → actions_for r s ≡ none
    → grants (s ∷ ss) r a ≡ grants ss r a
unfolding grants granted
grants-none s ss r a h = rw (h, grants, granted) refl

pub grants-some :
    (s : Chars) (ss : List Chars) (r a : Chars) (as' : List Chars)
    → actions_for r s ≡ some as'
    → grants (s ∷ ss) r a ≡ contains as' a
unfolding grants granted
grants-some s ss r a as' h = rw (h, grants, granted) refl

-- An entry that is kept in front of extended ones.
grants_kept :
    (s : Chars) (ss rest : List Chars) (r a : Chars) (more : Bool)
    → (is_some (actions_for r s) ≡ true → more ≡ false)
    → grants rest r a ≡ (grants ss r a || more)
    → grants (s ∷ rest) r a ≡ (grants (s ∷ ss) r a || more)
grants_kept s ss rest r a more h e = elim (Option-cases (actions_for r s)) [
  | inl skipped ↦ grants-none s rest r a skipped ∙ rw (grants-none s ss r a skipped) e
  | inr (as', own) ↦
      grants-some s rest r a as' own
      ∙ rw (grants-some s ss r a as' own) (ground (arith, h (rw own refl)))
]

-- The entry of the repository, and the one that is written in its place.
grants_rewritten :
    (s : Chars) (ss : List Chars) (repo : Chars) (as' actions : List Chars) (r a : Chars)
    → Free b':' r
    → parse_scope s ≡ some (repo, as')
    → all_known actions ≡ true
    → grants ((scope_prefix repo ++ join b',' (extend as' actions)) ∷ ss) r a
      ≡ (grants (s ∷ ss) r a || (chars_eq r repo && contains actions a))
grants_rewritten s ss repo as' actions r a g p k =
    let i = parse_scope-IsScope s repo as' p in
    let new = scope_prefix repo ++ join b',' (extend as' actions) in
    let n = rewritten repo r as' actions i.no_colon g i.known k i.not_empty in
    let o = actions_for-some r s repo as' g p in
    elim (Bool-cases (chars_eq r repo)) [
      | inl same ↦
          grants-some new ss r a (extend as' actions) (rw same at n)
          ∙ contains-extend as' actions a
          ∙ rw (grants-some s ss r a as' (rw same at o), same) refl
      | inr other ↦
          grants-none new ss r a (rw other at n)
          ∙ rw (grants-none s ss r a (rw other at o), other) (ground arith)
    ]

pub grants-extend_first :
    (repo : Chars) (actions scopes scopes' : List Chars) (r a : Chars)
    → Free b':' repo
    → Free b':' r
    → all_known actions ≡ true
    → extend_first repo actions scopes ≡ some scopes'
    → grants scopes' r a ≡ (grants scopes r a || (chars_eq r repo && contains actions a))
unfolding extend_first
grants-extend_first repo actions [] scopes' r a f g k h = ground (arith, h)
grants-extend_first repo actions (s ∷ ss) scopes' r a f g k h =
    elim (Option-cases (actions_for repo s)) [
      | inl skipped ↦
          let h1 = rw (skipped, extend_first) at h in
          elim (Option-cases (extend_first repo actions ss)) [
            | inl stuck ↦ ground (arith, rw stuck at h1)
            | inr (rest, e) ↦ rw (sym (some-injective (rw e at h1))) (
                grants_kept s ss rest r a (chars_eq r repo && contains actions a)
                  (λ own. elim (Bool-cases (chars_eq r repo)) [
                    | inl same ↦ ground (arith, rw ((chars_eq_iff r repo).0 same, skipped) at own)
                    | inr other ↦ rw other refl
                  ])
                  (grants-extend_first repo actions ss rest r a f g k e))
          ]
      | inr (as', own) ↦
          rw (sym (some-injective (rw (own, extend_first) at h)))
            (grants_rewritten s ss repo as' actions r a g (actions_for_inv repo s as' f own) k)
    ]

pub granted-extend_first :
    (repo : Chars) (actions scopes : List Chars)
    → extend_first repo actions scopes ≡ none
    → granted repo scopes ≡ none
unfolding extend_first granted
granted-extend_first repo actions [] h = refl
granted-extend_first repo actions (s ∷ ss) h = elim (Option-cases (actions_for repo s)) [
  | inl skipped ↦
      let h1 = rw (skipped, extend_first) at h in
      elim (Option-cases (extend_first repo actions ss)) [
        | inl stuck ↦ rw (skipped, granted) (granted-extend_first repo actions ss stuck)
        | inr (rest, e) ↦ ground (arith, rw e at h1)
      ]
  | inr (as', own) ↦ ground (arith, rw (own, extend_first) at h)
]

-- A scope at the end counts where nothing was granted before.
pub grants-append :
    (scopes : List Chars) (s r a : Chars)
    → grants (scopes ++ s ∷ []) r a
      ≡ (if is_some (granted r scopes) then grants scopes r a else grants (s ∷ []) r a)
unfolding grants granted
grants-append [] s r a = refl
grants-append (x ∷ xs) s r a = elim (Option-cases (actions_for r x)) [
  | inl skipped ↦ rw (skipped, grants, granted) (grants-append xs s r a)
  | inr (as', own) ↦ rw (own, grants, granted) refl
]
