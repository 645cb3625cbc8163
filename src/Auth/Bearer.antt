-- ===== src/Auth/Bearer.antt =====
-- internal/auth/auth.go: the challenges, scopes and token of a `bearerHandler`. Times are counted in
-- nanoseconds from some start before all of them.
pub mod Life
pub mod Handler
mod Tests
use regclient.Base.{
  ℕ, zero, suc, ◌+◌, ◌-◌, ◌*◌, ◌/◌, ◌%◌, ◌≤◌, ◌<◌, min, String, ◌≡◌, refl, sym, ap, ◌∙◌, ◌≢◌, ◌↔◌,
  ◌⊎◌, inl, inr, Bool, true, false, not, ◌&&◌, ◌||◌, Option, none, some, List, [], ◌∷◌, ◌++◌, map,
  arith, ltb, leb, ◌==◌, ==_iff, if◌then◌else◌, Bool-cases, Option-cases, some-injective, is_some,
  length, get_elem?, take, drop, length-append, length-take, All, All-append, In, Nowhere, any, all,
}
use regclient.Base.Int.{ℤ, pos, negsuc, word, half}
use regclient.Base.Text.{Chars, codes, split, join, chars_eq, chars_eq_inst}
use regclient.Base.Maps.{lookup}
use regclient.Errs.{Error, no_new_challenge, invalid_challenge, http_unauthorized, other}
use regclient.Auth.Header.{Challenge}
use regclient.Auth.Scope.{is_empty, add_to_scopes, scope_exists}

-- `bearerToken`; a zero `IssuedAt` is `none`.
pub record BearerToken : Type 0 where
  pub token : Chars
  pub access_token : Chars
  pub expires_in : ℤ
  pub issued_at : Option ℕ
  pub refresh_token : Chars

-- The fields of `bearerHandler` that change.
pub record Bearer : Type 0 where
  pub realm : Chars
  pub service : Chars
  pub scopes : List Chars
  pub token : BearerToken

-- `addScope`.
unfoldable pub add_scope : Bearer → Chars → Bearer
add_scope b scope = record b {
  scopes = add_to_scopes b.scopes scope;
  token = record b.token { token = [] };
}

abbrev pub second : ℕ
second = 1000000000

-- `tokenBuffer` and `minTokenLife`.
abbrev pub token_buffer : ℕ
token_buffer = 5 * second

abbrev pub min_token_life : ℕ
min_token_life = 60

-- The seconds of the longest `time.Duration`.
abbrev pub max_life : ℕ
max_life = 9223372036

-- `time.Duration(b.token.ExpiresIn) * time.Second`, as the pattern of the 64-bit integer.
unfoldable pub seconds_bits : ℤ → ℕ
seconds_bits (pos e) = (e * second) % word
seconds_bits (negsuc e) = (word - (suc e * second) % word) % word

-- Whether a date, moved by the pattern of a signed duration, is less than the buffer behind now.
abbrev pub is_over : ℕ → ℕ → ℕ → Bool
is_over now issued bits =
    if ltb bits half
    then ltb (issued + bits) (now + token_buffer)
    else ltb issued (now + token_buffer + (word - bits))

-- `isExpired`, with the time now.
unfoldable pub is_expired : ℕ → BearerToken → Bool
is_expired now t = elim t.issued_at [
  | none ↦ true
  | some issued ↦ is_over now issued (seconds_bits t.expires_in)
]

-- `AddScope`: the error, if any, and the handler.
unfoldable pub bearer_add_scope : ℕ → Bearer → Chars → Option Error × Bearer
bearer_add_scope now b scope =
    if scope_exists b.scopes scope
    then if is_empty b.token.token || not (is_expired now b.token)
      then (some no_new_challenge, b)
      else (none, b)
    else (none, add_scope b scope)

-- `c.params[key]`, the empty text for a missing key.
abbrev pub param : Challenge → Chars → Chars
param c key = elim (lookup key c.params) [ none ↦ [] | some v ↦ v ]

-- The tests and assignments of a field that a challenge sets once; `none` is `ErrInvalidChallenge`.
unfoldable pub settle : Chars → Chars → Option Chars
settle field value =
    if is_empty field then some value else if chars_eq field value then some field else none

-- `ProcessChallenge` behind its tests of new challenges: the realm, the service, the scope.
unfoldable pub accept : Bearer → Chars → Chars → Chars → Bool → Option Error × Bearer
accept b realm service scope existing = elim (settle b.realm realm) [
  | none ↦ (some invalid_challenge, b)
  | some new_realm ↦
      let b1 = record b { realm = new_realm } in
      elim (settle b1.service service) [
        | none ↦ (some invalid_challenge, b1)
        | some new_service ↦
            let b2 = record b1 { service = new_service } in
            (none, if existing then b2 else add_scope b2 scope)
      ]
]

-- `ProcessChallenge`: the error, if any, and the handler.
unfoldable pub process_challenge : ℕ → Bearer → Challenge → Option Error × Bearer
process_challenge now b c =
    let realm = param c (codes "realm") in
    let service = param c (codes "service") in
    let scope = param c (codes "scope") in
    let existing = scope_exists b.scopes scope in
    if not (is_some (lookup (codes "realm") c.params))
    then (some invalid_challenge, b)
    else if chars_eq b.realm realm
        && chars_eq b.service service
        && existing
        && (is_empty b.token.token || not (is_expired now b.token))
    then (some no_new_challenge, b)
    else accept b realm service scope existing

-- The life of a token is raised to `minTokenLife`.
unfoldable pub raise_life : ℤ → ℤ
raise_life (pos e) = if ltb e min_token_life then pos min_token_life else pos e
raise_life (negsuc e) = pos min_token_life

-- `b.token.IssuedAt.After(now)`.
unfoldable pub is_later : ℕ → BearerToken → Bool
is_later now t = elim t.issued_at [ none ↦ false | some issued ↦ ltb now issued ]

-- A token that is expired, or issued later than the clock says, is issued now. The clock is read
-- three times.
unfoldable pub redate : ℕ → ℕ → ℕ → BearerToken → BearerToken
redate t1 t2 t3 t = if is_expired t1 t || is_later t2 t then record t { issued_at = some t3 } else t

-- The access token takes the place of the token.
unfoldable pub prefer_access : BearerToken → BearerToken
prefer_access t = if is_empty t.access_token then t else record t { token = t.access_token }

-- `validateResponse` with a decoded body.
unfoldable pub store_token : ℕ → ℕ → ℕ → BearerToken → BearerToken
store_token t1 t2 t3 decoded =
    let raised = record decoded { expires_in = raise_life decoded.expires_in } in
    prefer_access (redate t1 t2 t3 raised)

-- `validateResponse`: the body is decoded by `encoding/json`, with or without an error.
unfoldable pub validate_response :
    ℕ → ℕ → ℕ → ℕ → Option BearerToken → Bearer → Option Error × Bearer
validate_response t1 t2 t3 status body b =
    if not (status == 200) then (some http_unauthorized, b) else elim body [
      | none ↦ (some other, b)
      | some decoded ↦ (none, record b { token = store_token t1 t2 t3 decoded })
    ]
