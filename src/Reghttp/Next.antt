-- ===== src/Reghttp/Next.antt =====
-- internal/reghttp/http.go: `next`, which sends a request to the hosts until one responds or all
-- fail. A host is known by a number. What the network, the clock, the authentication and the other
-- requests to a host answer in a turn of the loop is the turn's input.
use regclient.Base.{
  ℕ, zero, suc, ◌+◌, Bool, true, false, not, ◌&&◌, ◌||◌, Option, none, some, List, [], ◌∷◌, ◌++◌,
  ltb, leb, ◌==◌, if◌then◌else◌, length,
}
use regclient.Errs.{
  Error, Result, ok, err, all_requests_failed, retry_limit_exceeded, unsupported_api, canceled,
  http_unauthorized, not_found, http_rate_limit, http_status, not_retryable, other,
}
use regclient.Reghttp.Backoff.{Limits, HostState, backoff_get, backoff_set}

-- What of `Req` and `Resp` the loop asks for. A size that is not set is zero.
pub record Request : Type 0 where
  pub no_mirrors : Bool
  pub ignore_err : Bool
  pub has_range : Bool
  pub read_cur : ℕ

-- What happens in a turn, in the order of the code.
pub data Event : Type 0 where
  -- the context is done, or the queue of the host does not let the request in
  refused : Error → Event
  -- `Acquire` never comes back
  acquire_blocked : Event
  -- a HEAD request to a host that does not take them
  head_disabled : Event
  -- the context is done while the request waits for the backoff
  sleep_canceled : Event
  -- the request or its body cannot be built
  not_built : Error → Event
  -- the authentication has no header to give
  not_authorized : Error → Event
  -- the request is not answered
  not_sent : Error → Event
  -- the body, the authentication or the answer of the request never comes
  request_blocked : Event
  -- an answer: the status, what the authentication makes of it, and its headers
  answered : ℕ → Option Error → Option ℕ → Bool → Event

-- The variables that a turn sets, and the result of the request.
pub record Verdict : Type 0 where
  pub backoff : Bool
  pub drop_host : Bool
  pub retry_host : Bool
  pub outcome : Result (Unit {0})

abbrev failed : Bool → Bool → Bool → Error → Verdict
failed backoff drop_host retry_host e = record {
  backoff = backoff;
  drop_host = drop_host;
  retry_host = retry_host;
  outcome = err e;
}

abbrev is_unauthorized : Error → Bool
is_unauthorized http_unauthorized = true
is_unauthorized _ = false

-- `HTTPError`.
unfoldable pub http_error : ℕ → Error
http_error status =
    if status == 401 || status == 403
    then http_unauthorized
    else if status == 404
    then not_found
    else if status == 429
    then http_rate_limit
    else http_status

-- The statuses after which a request is sent again: 429, 408, 504, 502, 500.
abbrev pub is_overloaded : ℕ → Bool
is_overloaded status =
    status == 429 || status == 408 || status == 504 || status == 502 || status == 500

-- A status that is not of a success.
unfoldable pub judge_status : ℕ → Option Error → Verdict
judge_status status auth =
    if status == 401
    then elim auth [ none ↦ failed false false true other | some e ↦ failed false true false e ]
    else if status == 404 || status == 416
    then failed false true false (http_error status)
    else if is_overloaded status
    then failed true false false (http_error status)
    else failed true true false (http_error status)

abbrev pub mismatches : Request → ℕ → Option ℕ → Bool
mismatches r read_max none = false
mismatches r read_max (some n) = r.read_cur == 0 && ltb 0 read_max && not (read_max == n)

-- The headers of a success: a content length that is not the expected one, and a range that was
-- asked for and not given.
unfoldable pub judge_headers : Request → ℕ → Option ℕ → Bool → Verdict
judge_headers r read_max content_length content_range =
    if mismatches r read_max content_length
    then failed false false false other
    else if (r.has_range || (ltb 0 r.read_cur && ltb 0 read_max)) && not content_range
    then failed false true false other
    else record { backoff = false; drop_host = false; retry_host = false; outcome = ok tt }

-- A read that is resumed within a range request.
abbrev resumes_range : Request → ℕ → Bool
resumes_range r read_max = ltb 0 r.read_cur && ltb 0 read_max && r.has_range

-- The closure that tries a host. `try_host` ends a turn that is refused or blocked before this.
unfoldable pub judge : Request → ℕ → Event → Verdict
judge r read_max (refused e) = failed false false false e
judge r read_max acquire_blocked = failed false false false other
judge r read_max head_disabled = failed false true false unsupported_api
judge r read_max sleep_canceled = failed false false false canceled
judge r read_max (not_built e) = failed false true false e
judge r read_max (not_authorized e) =
    if resumes_range r read_max
    then failed false true false other
    else failed (not (is_unauthorized e)) (is_unauthorized e) false e
judge r read_max (not_sent e) =
    if resumes_range r read_max then failed false true false other else failed true false false e
judge r read_max request_blocked = failed false false false other
judge r read_max (answered status auth content_length content_range) =
    if resumes_range r read_max
    then failed false true false other
    else if ltb status 200 || leb 300 status
    then judge_status status auth
    else judge_headers r read_max content_length content_range

-- The input of a turn: what happens, what other requests do to the hosts before this one asks for
-- the backoff and before it sets it, the readings of the clock, and the `Retry-After` header.
pub record Turn : Type 0 where
  pub before_get : (ℕ → HostState) → ℕ → HostState
  pub before_set : (ℕ → HostState) → ℕ → HostState
  pub event : Event
  pub now_get : ℕ
  pub now_set : ℕ
  pub retry_after : ℕ

-- The variables of the loop, with the states of the hosts and the hosts that were tried.
pub record Loop : Type 0 where
  pub hosts : List ℕ
  pub cur_host : ℕ
  pub retry_count : ℕ
  pub last_err : Option Error
  pub read_max : ℕ
  pub states : ℕ → HostState
  pub tried : List ℕ

-- How a request ends: with a result, or waiting for ever.
pub data Ending : Type 0 where
  returns : Result ℕ → Ending
  blocks : Ending

pub data Step : Type 0 where
  again : Loop → Step
  ends : Ending → Loop → Step

abbrev pub get_or : ℕ → List ℕ → ℕ → ℕ
get_or d [] i = d
get_or d (x ∷ xs) zero = x
get_or d (x ∷ xs) (suc i) = get_or d xs i

-- `append(hosts[:i], hosts[i+1:]...)`.
unfoldable pub delete_at : ℕ → List ℕ → List ℕ
delete_at i [] = []
delete_at zero (x ∷ xs) = xs
delete_at (suc i) (x ∷ xs) = x ∷ delete_at i xs

abbrev pub update : ℕ → HostState → (ℕ → HostState) → ℕ → HostState
update h s states j = if h == j then s else states j

-- The backoff of the host is asked for before the request is built.
abbrev pub before_backoff : Event → Bool
before_backoff (refused e) = true
before_backoff acquire_blocked = true
before_backoff head_disabled = true
before_backoff _ = false

abbrev pub is_not_retryable : Error → Bool
is_not_retryable not_retryable = true
is_not_retryable _ = false

abbrev pub is_err {ℓ} : {A : Type ℓ} → Result A → Bool
is_err (ok a) = false
is_err (err e) = true

-- The content length of a success is kept where none was expected.
unfoldable pub learn : Request → ℕ → Event → ℕ
learn r read_max (answered status auth (some n) content_range) =
    if leb 200 status && ltb status 300 && r.read_cur == 0 && not (ltb 0 read_max)
    then n
    else read_max
learn r read_max e = read_max

-- Whether the host is dropped: at once, or because the backoff limit is reached.
unfoldable pub drops : Limits → Request → Turn → ℕ → Verdict → Loop → Bool
drops c r t host v l =
    v.drop_host
    || (v.backoff
        && (r.ignore_err
            || is_err (backoff_set c t.now_set t.retry_after (t.before_set l.states host)).0))

-- Behind a failure: the backoff, the error, and the host that comes next.
unfoldable pub fail_over : Limits → Request → Turn → ℕ → Verdict → Error → Loop → Loop
fail_over c r t host v e l = record l {
  states =
      if v.backoff && not r.ignore_err
      then update host (backoff_set c t.now_set t.retry_after (t.before_set l.states host)).1
          (t.before_set l.states)
      else t.before_set l.states;
  last_err = some e;
  hosts = if drops c r t host v l then delete_at l.cur_host l.hosts else l.hosts;
  cur_host = if drops c r t host v l || v.retry_host then l.cur_host else l.cur_host + 1;
}

-- An error that allows no retry ends the loop with the error before it, if there is one.
unfoldable pub go_on : Option Error → Error → Loop → Step
go_on none e l' = again l'
go_on (some before) e l' = if is_not_retryable e then ends (returns (err before)) l' else again l'

-- What the try of a host changes before its result is known.
unfoldable pub prepare : Limits → Request → Turn → ℕ → Loop → Loop
prepare c r t host l = record l {
  states =
      if before_backoff t.event
      then t.before_get l.states
      else update host (backoff_get c t.now_get (t.before_get l.states host)).1
          (t.before_get l.states);
  read_max = learn r l.read_max t.event;
}

unfoldable pub conclude : Limits → Request → Turn → ℕ → Verdict → Result (Unit {0}) → Loop → Step
conclude c r t host v (ok done) l = ends (returns (ok host)) l
conclude c r t host v (err e) l = go_on l.last_err e (fail_over c r t host v e l)

-- A try of the host, which is counted already.
unfoldable pub attempt : Limits → Request → Turn → ℕ → Loop → Step
attempt c r t host l =
    let v = judge r l.read_max t.event in conclude c r t host v v.outcome (prepare c r t host l)

-- The turns that are the last one without a try of the host that comes back.
abbrev pub refusal : Event → Option Ending
refusal (refused e) = some (returns (err e))
refusal acquire_blocked = some blocks
refusal request_blocked = some blocks
refusal _ = none

-- The host has its turn, and the try is counted.
unfoldable pub try_host : Limits → Request → Turn → ℕ → ℕ → Loop → Step
try_host c r t host cur l =
    let l' = record l {
      cur_host = cur;
      retry_count = l.retry_count + 1;
      tried = l.tried ++ host ∷ [];
    } in
    elim (refusal t.event) [
      | some o ↦ ends o (prepare c r t host l')
      | none ↦ attempt c r t host l'
    ]

-- A turn of the loop, over the hosts that are left.
unfoldable pub turn_over : Limits → Request → Turn → Loop → List ℕ → Step
turn_over c r t l [] =
    ends (returns (err (elim l.last_err [ none ↦ all_requests_failed | some e ↦ e ]))) l
turn_over c r t l (first ∷ rest) =
    let cur = if leb (length (first ∷ rest)) l.cur_host then 0 else l.cur_host in
    if ltb c.retry_limit l.retry_count
    then ends (returns (err retry_limit_exceeded)) l
    else try_host c r t (get_or first (first ∷ rest) cur) cur l

unfoldable pub turn : Limits → Request → Turn → Loop → Step
turn c r t l = turn_over c r t l l.hosts

-- The loop; `none` means that the fuel ran out.
unfoldable pub loop : Limits → Request → (ℕ → Turn) → ℕ → Loop → Option (Ending × Loop)
loop c r env zero l = none
loop c r env (suc fuel) l = elim (turn c r (env l.retry_count) l) [
  | again l' ↦ loop c r env fuel l'
  | ends o l' ↦ some (o, l')
]

-- `next`, with the mirrors of the host, the host itself, and the order in which they are tried.
module _ (sort : List ℕ → List ℕ) where
  abbrev pub start : Request → List ℕ → ℕ → ℕ → ℕ → (ℕ → HostState) → Loop
  start r mirrors upstream retry_count read_max states = record {
    hosts = sort ((if r.no_mirrors then [] else mirrors) ++ upstream ∷ []);
    cur_host = 0;
    retry_count = retry_count;
    last_err = none;
    read_max = read_max;
    states = states;
    tried = [];
  }

  unfoldable pub next :
      Limits → Request → (ℕ → Turn) → List ℕ → ℕ → ℕ → ℕ → (ℕ → HostState) → Option (Ending × Loop)
  next c r env mirrors upstream retry_count read_max states =
      loop c r env (c.retry_limit + 2) (start r mirrors upstream retry_count read_max states)
