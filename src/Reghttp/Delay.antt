-- ===== src/Reghttp/Delay.antt =====
-- How long a host is left alone, and how it recovers.
use regclient.Base.{
  ℕ, zero, suc, ◌+◌, ◌-◌, ◌*◌, ◌%◌, ◌≤◌, ◌<◌, ◌≡◌, refl, ap, ◌∙◌, ◌≢◌, ◌⊎◌, inl, inr, true, none,
  some, List, [], ◌∷◌, arith, ltb, if◌then◌else◌, Bool-cases, is_some,
}
use regclient.Base.Int.{word, half}
use regclient.Reghttp.Backoff.{
  Limits, HostState, shift_left, delay_bits, backoff_get, reset_count, backoff_set, backoff_clear,
}

-- The delay doubled for each failure.
unfoldable pub doubled : ℕ → ℕ → ℕ
doubled x zero = x
doubled x (suc k) = 2 * doubled x k

shift_left-doubled : (x k : ℕ) → shift_left x k ≡ doubled x k % word
unfolding shift_left doubled
shift_left-doubled x zero = refl
shift_left-doubled x (suc k) = omega (arith, shift_left-doubled x k)

abbrev pub smaller : ℕ → ℕ → ℕ
smaller a b = if ltb b a then b else a

delay_bits-doubled :
    (c : Limits) (cur : ℕ)
    → doubled c.delay_init cur < half
    → delay_bits c cur ≡ smaller (doubled c.delay_init cur) c.delay_max
unfolding delay_bits
delay_bits-doubled c cur h = ground (arith, shift_left-doubled c.delay_init cur, h)

doubled_add : (x j k : ℕ) → doubled x (j + k) ≡ doubled (doubled x k) j
unfolding doubled
doubled_add x zero k = ap (doubled x) (omega arith)
doubled_add x (suc j) k =
    let e : suc j + k ≡ suc (j + k) = omega arith in
    ap (doubled x) e ∙ ap (λ (n : ℕ). 2 * n) (doubled_add x j k)

doubled_64 : (y : ℕ) → doubled y 64 ≡ word * y
unfolding doubled
doubled_64 y = omega arith

shift_left_64 : (x k : ℕ) → shift_left x (64 + k) ≡ 0
shift_left_64 x k =
    omega (arith, shift_left-doubled x (64 + k), doubled_add x 64 k, doubled_64 (doubled x k))

-- A host with failures has the time of one of them, and successes are counted below the limit.
pub record IsValid (h : HostState) : Type 0 where
  pub dated : (h.backoff_cur ≡ 0) ⊎ (is_some h.backoff_last ≡ true)
  pub counted : h.backoff_reset ≤ reset_count

-- The later of two times.
abbrev pub later : ℕ → ℕ → ℕ
later a b = if ltb a b then b else a

-- While the doubled delay is below 2 ^ 63 nanoseconds, a request to a host with failures waits for
-- the initial delay doubled for each failure, at most the maximum, behind the time of the host,
-- and that becomes the time of the host.
pub backoff_get-doubled :
    (c : Limits) (now t : ℕ) (h : HostState)
    → h.backoff_cur ≢ 0
    → h.backoff_last ≡ some t
    → doubled c.delay_init h.backoff_cur < half
    → c.delay_max < half
    → let next = later (t + smaller (doubled c.delay_init h.backoff_cur) c.delay_max) now in
      ((backoff_get c now h).0 ≡ some next) × ((backoff_get c now h).1.backoff_last ≡ some next)
unfolding backoff_get
backoff_get-doubled c now t h n e s m = ground (arith, e, delay_bits-doubled c h.backoff_cur s)

-- A defect: the shift of the delay wraps. From the 64th failure in a row on, whatever the delays of
-- the client are, nothing is added for the failures: a request waits until the time of the host as
-- it is, or not at all where that has passed.
pub backoff_get-wraps :
    (c : Limits) (now t k : ℕ) (h : HostState)
    → h.backoff_cur ≡ 64 + k
    → h.backoff_last ≡ some t
    → (backoff_get c now h).0 ≡ some (later t now)
unfolding backoff_get delay_bits
backoff_get-wraps c now t k h n e =
    ground (arith, e, shift_left_64 c.delay_init k, ap (shift_left c.delay_init) n)

-- What happens to a host: a request waits, a request fails, a request succeeds.
pub data Event : Type 0 where
  waits : ℕ → Event
  fails : ℕ → ℕ → Event
  succeeds : Event

unfoldable pub step : Limits → HostState → Event → HostState
step c h (waits now) = (backoff_get c now h).1
step c h (fails now retry_after) = (backoff_set c now retry_after h).1
step c h succeeds = backoff_clear c h

unfoldable pub run : Limits → HostState → List Event → HostState
run c h [] = h
run c h (e ∷ es) = run c (step c h e) es

step-IsValid : (c : Limits) (h : HostState) (e : Event) → IsValid h → IsValid (step c h e)
unfolding step backoff_get backoff_set backoff_clear
step-IsValid c h (waits now) v = record { dated = ground arith; counted = ground arith }
step-IsValid c h (fails now retry_after) v = record { dated = ground arith; counted = ground arith }
step-IsValid c h succeeds v = record { dated = ground arith; counted = ground arith }

pub run-IsValid : (c : Limits) (h : HostState) (es : List Event) → IsValid h → IsValid (run c h es)
unfolding run
run-IsValid c h [] v = v
run-IsValid c h (e ∷ es) v = run-IsValid c (step c h e) es (step-IsValid c h e v)

-- Successes in a row.
unfoldable pub clears : Limits → ℕ → HostState → HostState
clears c zero h = h
clears c (suc n) h = clears c n (backoff_clear c h)

ℕ-cases : (n : ℕ) → (n ≡ 0) ⊎ (n ≢ 0)
ℕ-cases zero = inl refl
ℕ-cases (suc n) = inr (λ e. omega (arith, e))

-- A host without failures that are counted, and without a time to wait for.
abbrev Rested : HostState → Type 0
Rested h = (h.backoff_cur ≡ 0) × (h.backoff_last ≡ none)

backoff_clear-measure :
    (c : Limits) (h : HostState) (n : ℕ)
    → h.backoff_reset ≤ reset_count
    → 6 * h.backoff_cur ≤ suc n + h.backoff_reset
    → let h' = backoff_clear c h in
      (h'.backoff_reset ≤ reset_count) × (6 * h'.backoff_cur ≤ n + h'.backoff_reset)
unfolding backoff_clear
backoff_clear-measure c h n v m = ground arith

backoff_clear-rest :
    (c : Limits) (h : HostState)
    → (h.backoff_cur ≢ 0) ⊎ Rested h
    → ((backoff_clear c h).backoff_cur ≢ 0) ⊎ Rested (backoff_clear c h)
unfolding backoff_clear
backoff_clear-rest c h (inl failing) = elim (ℕ-cases (backoff_clear c h).backoff_cur) [
  | inl none_left ↦ inr (none_left, ground arith)
  | inr some_left ↦ inl some_left
]
backoff_clear-rest c h (inr (z, l)) = inr (ground arith, ground arith)

clears-Rested :
    (c : Limits) (n : ℕ) (h : HostState)
    → h.backoff_reset ≤ reset_count
    → 6 * h.backoff_cur ≤ n + h.backoff_reset
    → (h.backoff_cur ≢ 0) ⊎ Rested h
    → Rested (clears c n h)
unfolding clears
clears-Rested c zero h v m (inl failing) = absurd (failing (omega arith))
clears-Rested c zero h v m (inr rested) = rested
clears-Rested c (suc n) h v m r =
    let (v', m') = backoff_clear-measure c h n v m in
    clears-Rested c n (backoff_clear c h) v' m' (backoff_clear-rest c h r)

-- Within the limit of retries, a success takes one from the successes that are needed.
backoff_clear-exact :
    (c : Limits) (h : HostState) (n : ℕ)
    → h.backoff_reset ≤ reset_count
    → h.backoff_cur ≤ c.retry_limit
    → suc n + 1 + h.backoff_reset ≡ 6 * h.backoff_cur
    → let h' = backoff_clear c h in
      (h'.backoff_reset ≤ reset_count)
      × (h'.backoff_cur ≤ c.retry_limit)
      × (n + 1 + h'.backoff_reset ≡ 6 * h'.backoff_cur)
unfolding backoff_clear
backoff_clear-exact c h n v k e = ground arith

clears_exact :
    (c : Limits) (n : ℕ) (h : HostState)
    → h.backoff_reset ≤ reset_count
    → h.backoff_cur ≤ c.retry_limit
    → n + 1 + h.backoff_reset ≡ 6 * h.backoff_cur
    → (clears c n h).backoff_cur ≡ 1
unfolding clears
clears_exact c zero h v k e = omega arith
clears_exact c (suc n) h v k e =
    let (v', k', e') = backoff_clear-exact c h n v k e in
    clears_exact c n (backoff_clear c h) v' k' e'

backoff_get-Rested :
    (c : Limits) (h : HostState) (now : ℕ) → Rested h → (backoff_get c now h).0 ≡ none
unfolding backoff_get
backoff_get-Rested c h now (z, l) = ground (arith, z, l)

-- The successes that a host needs: six for each failure that is counted, less those seen already.
abbrev pub needed : HostState → ℕ
needed h = 6 * h.backoff_cur - h.backoff_reset

-- A host recovers: from the state with failures that any history leaves, also one with a
-- `Retry-After`, six successes in a row for each failure that is counted, less the successes that
-- are counted already, leave no failure, no time of the host and no wait for the next request.
-- Unless the failures are above the limit of retries, one success less leaves a failure.
pub clears-run :
    (c : Limits) (h : HostState) (es : List Event)
    → IsValid h
    → (run c h es).backoff_cur ≢ 0
    → let h' = run c h es in
      let last = clears c (needed h') h' in
      (last.backoff_cur ≡ 0)
      × (last.backoff_last ≡ none)
      × ((now : ℕ) → (backoff_get c now last).0 ≡ none)
      × ((c.retry_limit < h'.backoff_cur) ⊎ ((clears c (needed h' - 1) h').backoff_cur ≡ 1))
clears-run c h es v failing =
    let h' = run c h es in
    let v' = run-IsValid c h es v in
    let r = clears-Rested c (needed h') h' v'.counted (omega arith) (inl failing) in
    (
      r.0,
      r.1,
      λ now. backoff_get-Rested c (clears c (needed h') h') now r,
      elim (Bool-cases (ltb c.retry_limit h'.backoff_cur)) [
        | inl above ↦ inl (ground (arith, above))
        | inr within ↦ inr (
            clears_exact c (needed h' - 1) h' v'.counted (ground (arith, within))
              (omega (arith, failing, v'.counted)))
      ],
    )
