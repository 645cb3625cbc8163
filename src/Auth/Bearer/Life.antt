-- ===== src/Auth/Bearer/Life.antt =====
-- The life of a token: the dates that are set, and the durations that fit and that wrap.
use regclient.Base.{
  ℕ, ◌*◌, ◌%◌, ◌<◌, ◌≤◌, ◌≡◌, refl, ap, ◌∙◌, inl, inr, true, false, ◌||◌, none, some, arith, ltb,
  if◌then◌else◌, Bool-cases, Option-cases,
}
use regclient.Base.Int.{ℤ, pos, negsuc, ltb_ℤ, word}
use regclient.Base.Text.{chars_eq_inst}
use regclient.Auth.Scope.{is_empty}
use regclient.Auth.Bearer.{
  BearerToken, second, seconds_bits, is_over, max_life, min_token_life, is_expired, raise_life,
  is_later, redate, prefer_access,
}

pub prefer_access-same :
    (now : ℕ) (t : BearerToken)
    → (is_expired now (prefer_access t) ≡ is_expired now t)
      × (is_later now (prefer_access t) ≡ is_later now t)
      × ((prefer_access t).token ≡ (if is_empty t.access_token then t.token else t.access_token))
unfolding prefer_access is_expired is_later
prefer_access-same now t = elim (Bool-cases (is_empty t.access_token)) [
  | inl none_sent ↦ rw none_sent (refl, refl, refl)
  | inr sent ↦ rw sent (refl, refl, refl)
]

pub redate-token :
    (t1 t2 t3 : ℕ) (t : BearerToken)
    → ((redate t1 t2 t3 t).token ≡ t.token) × ((redate t1 t2 t3 t).access_token ≡ t.access_token)
unfolding redate
redate-token t1 t2 t3 t = elim (Bool-cases (is_expired t1 t || is_later t2 t)) [
  | inl dated ↦ rw dated (refl, refl)
  | inr kept ↦ rw kept (refl, refl)
]

is_later_mono :
    (t2 t3 : ℕ) (t : BearerToken) → t2 ≤ t3 → is_later t2 t ≡ false → is_later t3 t ≡ false
unfolding is_later
is_later_mono t2 t3 t h k = elim (Option-cases t.issued_at) [
  | inl undated ↦ rw undated refl
  | inr (issued, e) ↦ rw e (ground (arith, rw e at k))
]

-- A token with a life of at least a minute, which a duration can hold, that is issued now.
is_expired_new :
    (t1 t3 e : ℕ) (t : BearerToken)
    → t1 ≤ t3
    → min_token_life ≤ e
    → e ≤ max_life
    → t.expires_in ≡ pos e
    → is_expired t1 (record t { issued_at = some t3 }) ≡ false
unfolding is_expired seconds_bits
is_expired_new t1 t3 e t h k u q =
    let fits : (e * second) % word ≡ e * second = omega arith in
    ap (λ life. is_over t1 t3 (seconds_bits life)) q
    ∙ ap (is_over t1 t3) fits
    ∙ ground (arith, h, k, u)

is_later_now : (t3 : ℕ) (t : BearerToken) → is_later t3 (record t { issued_at = some t3 }) ≡ false
unfolding is_later
is_later_now t3 t = ground arith

pub redate-is_expired :
    (t1 t2 t3 e : ℕ) (t : BearerToken)
    → t1 ≤ t3
    → t2 ≤ t3
    → min_token_life ≤ e
    → e ≤ max_life
    → t.expires_in ≡ pos e
    → (is_expired t1 (redate t1 t2 t3 t) ≡ false) × (is_later t3 (redate t1 t2 t3 t) ≡ false)
unfolding redate
redate-is_expired t1 t2 t3 e t h k m u q = elim (Bool-cases (is_expired t1 t || is_later t2 t)) [
  | inl dated ↦ rw dated (is_expired_new t1 t3 e t h m u q, is_later_now t3 t)
  | inr kept ↦ rw kept (ground (arith, kept), is_later_mono t2 t3 t k (ground (arith, kept)))
]

pub raise_life-pos :
    (life : ℤ)
    → ltb_ℤ (pos max_life) life ≡ false
    → (e : ℕ) × (min_token_life ≤ e) × (e ≤ max_life) × (raise_life life ≡ pos e)
unfolding raise_life
raise_life-pos (pos e) u = elim (Bool-cases (ltb e min_token_life)) [
  | inl short ↦ (min_token_life, ground arith, ground arith, rw short refl)
  | inr long ↦ (e, ground (arith, long), ground (arith, u), rw long refl)
]
raise_life-pos (negsuc e) u = (min_token_life, ground arith, ground arith, refl)

pub raise_life-long : (e : ℕ) → max_life < e → raise_life (pos e) ≡ pos e
unfolding raise_life
raise_life-long e h = ground (arith, h)

is_expired-undated : (now : ℕ) (t : BearerToken) → t.issued_at ≡ none → is_expired now t ≡ true
unfolding is_expired
is_expired-undated now t h = rw h refl

-- A life between 2 ^ 63 and 2 ^ 64 nanoseconds is negative, so what was issued before is over.
is_expired-wrapped :
    (now issued e : ℕ) (t : BearerToken)
    → issued ≤ now
    → max_life < e
    → e ≤ 18446744073
    → t.issued_at ≡ some issued
    → t.expires_in ≡ pos e
    → is_expired now t ≡ true
unfolding is_expired seconds_bits
is_expired-wrapped now issued e t h k u d q =
    let fits : (e * second) % word ≡ e * second = omega arith in
    rw d (
      ap (λ life. is_over now issued (seconds_bits life)) q
      ∙ ap (is_over now issued) fits
      ∙ ground (arith, h, k, u))

pub redate-wrapped :
    (t1 t2 t3 now e : ℕ) (t : BearerToken)
    → t2 ≤ now
    → t3 ≤ now
    → max_life < e
    → e ≤ 18446744073
    → t.expires_in ≡ pos e
    → is_expired now (redate t1 t2 t3 t) ≡ true
unfolding redate is_later
redate-wrapped t1 t2 t3 now e t h k m u q = elim (Bool-cases (is_expired t1 t || is_later t2 t)) [
  | inl dated ↦
      rw dated (is_expired-wrapped now t3 e (record t { issued_at = some t3 }) k m u refl q)
  | inr kept ↦ rw kept (elim (Option-cases t.issued_at) [
    | inl undated ↦ is_expired-undated now t undated
    | inr (issued, d) ↦
        is_expired-wrapped now issued e t (let early = rw d at kept in ground (arith, early, h)) m u
          d q
  ])
]
