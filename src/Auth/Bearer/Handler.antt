-- ===== src/Auth/Bearer/Handler.antt =====
-- What a handler holds after a challenge and after a token.
use mathlib.Core.Path.{subst}
use regclient.Base.{
  ℕ, ◌<◌, ◌≤◌, ◌≡◌, refl, sym, ap, ◌∙◌, ◌⊎◌, inl, inr, true, false, none, some, [], ◌∷◌, arith,
  if◌then◌else◌, Bool-cases, Option-cases, some-injective,
}
use regclient.Base.Int.{pos, ltb_ℤ}
use regclient.Base.Text.{Chars, codes, chars_eq, chars_eq_inst, chars_eq_iff}
use regclient.Errs.{no_new_challenge, invalid_challenge}
use regclient.Auth.Header.{Challenge}
use regclient.Auth.Scope.{is_empty, scope_exists}
use regclient.Auth.Scope.Added.{scope_exists-add_to_scopes}
use regclient.Auth.Bearer.{
  BearerToken, Bearer, add_scope, max_life, is_expired, param, settle, accept, process_challenge,
  raise_life, is_later, redate, store_token,
}
use regclient.Auth.Bearer.Life.{
  prefer_access-same, redate-token, redate-is_expired, raise_life-pos, raise_life-long,
  redate-wrapped,
}

settle-some : (field value r : Chars) → settle field value ≡ some r → r ≡ value
unfolding settle
settle-some [] value r h = sym (some-injective h)
settle-some (c ∷ field) value r h = elim (Bool-cases (chars_eq (c ∷ field) value)) [
  | inl same ↦ sym (some-injective (rw same at h)) ∙ (chars_eq_iff (c ∷ field) value).0 same
  | inr other ↦ ground (arith, rw other at h)
]

-- What an accepted challenge leaves.
pub record IsAccepted (b b' : Bearer) (realm service scope : Chars) : Type 0 where
  pub realm_set : b'.realm ≡ realm
  pub service_set : b'.service ≡ service
  pub scope_set : scope_exists b'.scopes scope ≡ true
  pub scopes_kept : (t : Chars) → scope_exists b.scopes t ≡ true → scope_exists b'.scopes t ≡ true
  pub token_dropped : b'.token.token ≡ (if scope_exists b.scopes scope then b.token.token else [])

accept-IsAccepted :
    (b b' : Bearer) (realm service scope : Chars)
    → accept b realm service scope (scope_exists b.scopes scope) ≡ (none, b')
    → IsAccepted b b' realm service scope
unfolding accept add_scope
accept-IsAccepted b b' realm service scope h = elim (Option-cases (settle b.realm realm)) [
  | inl refused ↦ ground (arith, rw (refused, accept) at h)
  | inr (r, e) ↦ elim (Option-cases (settle b.service service)) [
    | inl refused ↦ ground (arith, rw (e, refused, accept) at h)
    | inr (s, f) ↦ elim (Bool-cases (scope_exists b.scopes scope)) [
      | inl existing ↦
          subst (λ x. IsAccepted b x realm service scope)
            (ap (λ p. p.1) (rw (e, f, existing, accept) at h))
            (record {
              realm_set = settle-some b.realm realm r e;
              service_set = settle-some b.service service s f;
              scope_set = existing;
              scopes_kept = λ t k. k;
              token_dropped = rw existing refl;
            })
      | inr new ↦
          let (added, kept) = scope_exists-add_to_scopes b.scopes scope in
          subst (λ x. IsAccepted b x realm service scope)
            (ap (λ p. p.1) (rw (e, f, new, accept) at h))
            (record {
              realm_set = settle-some b.realm realm r e;
              service_set = settle-some b.service service s f;
              scope_set = added;
              scopes_kept = kept;
              token_dropped = rw new refl;
            })
    ]
  ]
]

-- The two refusals of `ProcessChallenge`, or what is accepted.
process_challenge-branch :
    (now : ℕ) (b : Bearer) (c : Challenge)
    → (process_challenge now b c ≡ (some invalid_challenge, b))
      ⊎ ((process_challenge now b c ≡ (some no_new_challenge, b))
          ⊎ (process_challenge now b c
              ≡ accept b
                  (param c (codes "realm"))
                  (param c (codes "service"))
                  (param c (codes "scope"))
                  (scope_exists b.scopes (param c (codes "scope")))))
unfolding process_challenge
process_challenge-branch now b c = ground arith

-- A challenge that is accepted, without an error, leaves its realm and its service in the handler,
-- its scope and all the scopes from before exist, and the token is dropped exactly if the scope is
-- new.
pub process_challenge-IsAccepted :
    (now : ℕ) (b b' : Bearer) (c : Challenge)
    → process_challenge now b c ≡ (none, b')
    → IsAccepted b b'
        (param c (codes "realm"))
        (param c (codes "service"))
        (param c (codes "scope"))
process_challenge-IsAccepted now b b' c h = elim (process_challenge-branch now b c) [
  | inl invalid ↦ ground (arith, sym h ∙ invalid)
  | inr (inl known) ↦ ground (arith, sym h ∙ known)
  | inr (inr accepted) ↦
      accept-IsAccepted b b' (param c (codes "realm")) (param c (codes "service"))
        (param c (codes "scope")) (sym accepted ∙ h)
]

-- A token with a life that a duration can hold, at most 9223372036 seconds, is not expired when it
-- is stored, by the clock of the first test, and not issued later than the last reading of the
-- clock, whatever date the response gave, if the clock does not go back; it is the access token of
-- the response where there is one.
pub store_token-is_expired :
    (t1 t2 t3 : ℕ) (decoded : BearerToken)
    → ltb_ℤ (pos max_life) decoded.expires_in ≡ false
    → t1 ≤ t3
    → t2 ≤ t3
    → let t = store_token t1 t2 t3 decoded in
      (is_expired t1 t ≡ false)
      × (is_later t3 t ≡ false)
      × (t.token ≡ (if is_empty decoded.access_token then decoded.token else decoded.access_token))
unfolding store_token
store_token-is_expired t1 t2 t3 decoded fits h k =
    let raised = record decoded { expires_in = raise_life decoded.expires_in } in
    let dated = redate t1 t2 t3 raised in
    let (e, m, u, q) = raise_life-pos decoded.expires_in fits in
    let (x, l) = redate-is_expired t1 t2 t3 e raised h k m u q in
    let (n, a) = redate-token t1 t2 t3 raised in
    (
      (prefer_access-same t1 dated).0 ∙ x,
      (prefer_access-same t3 dated).1 ∙ l,
      (prefer_access-same t1 dated).2 ∙ rw (n, a) refl,
    )

-- A defect: the life of a token wraps where it is made a duration. A token with a life of 9223372037
-- to 18446744073 seconds, 292 to 584 years, is expired as soon as it is stored, by every reading of
-- the clock that is not before those of the store, whatever date the response gave.
pub store_token-overflow :
    (t1 t2 t3 now e : ℕ) (decoded : BearerToken)
    → decoded.expires_in ≡ pos e
    → max_life < e
    → e ≤ 18446744073
    → t2 ≤ now
    → t3 ≤ now
    → is_expired now (store_token t1 t2 t3 decoded) ≡ true
unfolding store_token
store_token-overflow t1 t2 t3 now e decoded q m u h k =
    let raised = record decoded { expires_in = raise_life decoded.expires_in } in
    (prefer_access-same now (redate t1 t2 t3 raised)).0
    ∙ redate-wrapped t1 t2 t3 now e raised h k m u (ap raise_life q ∙ raise_life-long e m)
