-- ===== src/Reghttp/Backoff.antt =====
-- internal/reghttp/http.go: the backoff of a host, as it stands under the mutex of the host. Times
-- are numbers of nanoseconds; an operation takes what `time.Now` returns in it.
use regclient.Base.{
  ℕ, zero, suc, ◌+◌, ◌-◌, ◌*◌, ◌%◌, Bool, false, ◌&&◌, ◌||◌, Option, none, some, ltb, leb, ◌==◌,
  if◌then◌else◌,
}
use regclient.Base.Int.{word, half}
use regclient.Errs.{Result, ok, err, backoff_limit}

-- The limits of a `Client`.
pub record Limits : Type 0 where
  pub retry_limit : ℕ
  pub delay_init : ℕ
  pub delay_max : ℕ

-- The fields of `clientHost` that track backoffs; the zero time is `none`.
pub record HostState : Type 0 where
  pub backoff_cur : ℕ
  pub backoff_last : Option ℕ
  pub backoff_reset : ℕ

-- `x << k` on a `time.Duration`, as the bits of the 64-bit integer.
unfoldable pub shift_left : ℕ → ℕ → ℕ
shift_left x zero = x % word
shift_left x (suc k) = (2 * shift_left x k) % word

-- `d > max` for the bits of a signed integer and a limit that is not negative.
abbrev pub exceeds : ℕ → ℕ → Bool
exceeds bits limit = ltb bits half && ltb limit bits

-- A time moved by the bits of a signed integer, no further back than the start of time.
abbrev pub add_bits : ℕ → ℕ → ℕ
add_bits t bits = if ltb bits half then t + bits else t - (word - bits)

-- The delay before a request, as bits.
unfoldable pub delay_bits : Limits → ℕ → ℕ
delay_bits c cur =
    let delay = shift_left c.delay_init cur in
    if exceeds delay c.delay_max then c.delay_max else delay

abbrev pub or_start : Option ℕ → ℕ
or_start none = 0
or_start (some t) = t

abbrev is_past : ℕ → Option ℕ → Bool
is_past now none = false
is_past now (some t) = ltb t now

-- `backoffGet`: the time to wait for, if any, and the host.
unfoldable pub backoff_get : Limits → ℕ → HostState → Option ℕ × HostState
backoff_get c now h =
    if ltb 0 h.backoff_cur
    then (let next = add_bits (or_start h.backoff_last) (delay_bits c h.backoff_cur) in
        let next' = if ltb next now then now else next in
        (some next', record h { backoff_last = some next' }))
    else (let last = if is_past now h.backoff_last then none else h.backoff_last in
        (last, record h { backoff_last = last }))

-- `backoffSet`, with the nanoseconds of a `Retry-After` header, zero where it says nothing.
unfoldable pub backoff_set : Limits → ℕ → ℕ → HostState → Result (Unit {0}) × HostState
backoff_set c now retry_after h =
    if ltb 0 retry_after
    then (
      ok tt,
      record h {
        backoff_last = elim h.backoff_last [
          | none ↦ some (now + retry_after)
          | some t ↦ if ltb t (now + retry_after) then some (now + retry_after) else some t
        ];
      },
    )
    else (let cur = h.backoff_cur + 1 in
        (
          if leb c.retry_limit cur then err backoff_limit else ok tt,
          record h {
            backoff_cur = cur;
            backoff_last = elim h.backoff_last [ none ↦ some now | some t ↦ some t ];
          },
        ))

-- `backoffResetCount`.
abbrev pub reset_count : ℕ
reset_count = 5

-- `backoffReset`, after a success.
unfoldable pub backoff_clear : Limits → HostState → HostState
backoff_clear c h =
    if ltb 0 h.backoff_cur
    then (if ltb reset_count (h.backoff_reset + 1) || ltb c.retry_limit h.backoff_cur
        then record {
          backoff_cur = h.backoff_cur - 1;
          backoff_last = if h.backoff_cur - 1 == 0 then none else h.backoff_last;
          backoff_reset = 0;
        }
        else record h { backoff_reset = h.backoff_reset + 1 })
    else h
