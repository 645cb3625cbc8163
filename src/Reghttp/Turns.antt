-- ===== src/Reghttp/Turns.antt =====
-- What a turn of `next` does to the hosts and the counts, on each of its branches.
use mathlib.Core.Path.{subst}
use regclient.Base.{
  ℕ, zero, suc, ◌+◌, ◌≤◌, ◌<◌, ◌≡◌, refl, sym, ap, ◌∙◌, ◌⊎◌, inl, inr, Bool, true, false, Option,
  none, some, List, [], ◌∷◌, ◌++◌, arith, ltb, leb, ◌==◌, if◌then◌else◌, Bool-cases, Option-cases,
  length, any,
}
use regclient.Errs.{Error, Result, ok, err, all_requests_failed, retry_limit_exceeded}
use regclient.Reghttp.Backoff.{Limits}
use regclient.Reghttp.Next.{
  Request, Event, acquire_blocked, request_blocked, refused, head_disabled, sleep_canceled,
  not_built, not_authorized, not_sent, answered, Ending, returns, blocks, Verdict, Turn, Loop, Step,
  again, ends, get_or, delete_at, judge, is_not_retryable, attempt, turn, loop, drops, fail_over,
  go_on, prepare, conclude, refusal, try_host, turn_over,
}

abbrev pub member : ℕ → List ℕ → Bool
member h hs = any (λ x. x == h) hs

member-delete_at : (h i : ℕ) (hs : List ℕ) → member h (delete_at i hs) ≡ true → member h hs ≡ true
unfolding delete_at
member-delete_at h i [] m = m
member-delete_at h zero (x ∷ xs) m = ground (arith, m)
member-delete_at h (suc i) (x ∷ xs) m = ground (arith, m, member-delete_at h i xs)

member-get_or : (d i : ℕ) (hs : List ℕ) → i < length hs → member (get_or d hs i) hs ≡ true
member-get_or d i [] h = ground (arith, h)
member-get_or d zero (x ∷ xs) h = ground arith
member-get_or d (suc i) (x ∷ xs) h = ground (arith, member-get_or d i xs)

-- The hosts that are left stand in the list from before.
abbrev pub Within : List ℕ → List ℕ → Type 0
Within hs' hs = (h : ℕ) → member h hs' ≡ true → member h hs ≡ true

fail_over-Within :
    (c : Limits) (r : Request) (t : Turn) (host : ℕ) (v : Verdict) (e : Error) (l : Loop)
    → Within (fail_over c r t host v e l).hosts l.hosts
unfolding fail_over
fail_over-Within c r t host v e l h m = elim (Bool-cases (drops c r t host v l)) [
  | inl dropped ↦ member-delete_at h l.cur_host l.hosts (rw (dropped, fail_over) at m)
  | inr kept ↦ rw (kept, fail_over) at m
]

fail_over_counts :
    (c : Limits) (r : Request) (t : Turn) (host : ℕ) (v : Verdict) (e : Error) (l : Loop)
    → let l' = fail_over c r t host v e l in (l'.retry_count ≡ l.retry_count) × (l'.tried ≡ l.tried)
unfolding fail_over
fail_over_counts c r t host v e l = (refl, refl)

-- A call of the turn never comes back.
abbrev pub is_blocked : Event → Bool
is_blocked acquire_blocked = true
is_blocked request_blocked = true
is_blocked _ = false

-- What a turn leaves: `n` tries are counted; it goes on within the hosts, or it ends, with a success
-- only at one of the hosts, and waits for ever only where a call does.
abbrev pub Goes : Event → List ℕ → List ℕ → ℕ → Step → Type 0
Goes e hosts tried n (again l') = (l'.retry_count ≡ n) × (l'.tried ≡ tried) × Within l'.hosts hosts
Goes e hosts tried n (ends (returns (ok host)) l') =
    (l'.retry_count ≡ n) × (l'.tried ≡ tried) × (member host hosts ≡ true)
Goes e hosts tried n (ends (returns (err _)) l') = (l'.retry_count ≡ n) × (l'.tried ≡ tried)
Goes e hosts tried n (ends blocks l') =
    (l'.retry_count ≡ n) × (l'.tried ≡ tried) × (is_blocked e ≡ true)

go_on-Goes :
    (t : Event) (hosts tried : List ℕ) (n : ℕ) (before : Option Error) (e : Error) (l : Loop)
    → (l.retry_count ≡ n) × (l.tried ≡ tried) × Within l.hosts hosts
    → Goes t hosts tried n (go_on before e l)
unfolding go_on
go_on-Goes t hosts tried n none e l k = k
go_on-Goes t hosts tried n (some b) e l k = elim (Bool-cases (is_not_retryable e)) [
  | inl final ↦ rw final (k.0, k.1)
  | inr retryable ↦ rw retryable k
]

conclude-Goes :
    (c : Limits) (r : Request) (t : Turn) (host : ℕ) (v : Verdict) (o : Result (Unit {0}))
    (l : Loop)
    → member host l.hosts ≡ true
    → Goes t.event l.hosts l.tried l.retry_count (conclude c r t host v o l)
unfolding conclude
conclude-Goes c r t host v (ok done) l m = (refl, refl, m)
conclude-Goes c r t host v (err e) l m =
    let (n, s) = fail_over_counts c r t host v e l in
    go_on-Goes t.event l.hosts l.tried l.retry_count l.last_err e (fail_over c r t host v e l)
      (n, s, fail_over-Within c r t host v e l)

attempt-Goes :
    (c : Limits) (r : Request) (t : Turn) (host : ℕ) (l : Loop)
    → member host l.hosts ≡ true
    → Goes t.event l.hosts l.tried l.retry_count (attempt c r t host l)
unfolding attempt prepare
attempt-Goes c r t host l m =
    let v = judge r l.read_max t.event in
    conclude-Goes c r t host v v.outcome (prepare c r t host l) m

-- The loop's variables when a host has its turn.
abbrev pub counted : ℕ → ℕ → Loop → Loop
counted host cur l = record l {
  cur_host = cur;
  retry_count = l.retry_count + 1;
  tried = l.tried ++ host ∷ [];
}

pub try_host-attempt :
    (c : Limits) (r : Request) (t : Turn) (host cur : ℕ) (l : Loop)
    → refusal t.event ≡ none
    → try_host c r t host cur l ≡ attempt c r t host (counted host cur l)
unfolding try_host
try_host-attempt c r t host cur l e = rw (e, try_host) refl

try_host-ends :
    (c : Limits) (r : Request) (t : Turn) (host cur : ℕ) (l : Loop) (o : Ending)
    → refusal t.event ≡ some o
    → try_host c r t host cur l ≡ ends o (prepare c r t host (counted host cur l))
unfolding try_host
try_host-ends c r t host cur l o q = rw (q, try_host) refl

refusal-Goes :
    (hosts tried : List ℕ) (n : ℕ) (e : Event) (o : Ending) (l : Loop)
    → refusal e ≡ some o
    → l.retry_count ≡ n
    → l.tried ≡ tried
    → Goes e hosts tried n (ends o l)
refusal-Goes hosts tried n e (returns (err _)) l q a b = (a, b)
refusal-Goes hosts tried n (refused e) (returns (ok h)) l q a b = cc
refusal-Goes hosts tried n acquire_blocked (returns (ok h)) l q a b = cc
refusal-Goes hosts tried n request_blocked (returns (ok h)) l q a b = cc
refusal-Goes hosts tried n head_disabled (returns (ok h)) l q a b = cc
refusal-Goes hosts tried n sleep_canceled (returns (ok h)) l q a b = cc
refusal-Goes hosts tried n (not_built e) (returns (ok h)) l q a b = cc
refusal-Goes hosts tried n (not_authorized e) (returns (ok h)) l q a b = cc
refusal-Goes hosts tried n (not_sent e) (returns (ok h)) l q a b = cc
refusal-Goes hosts tried n (answered s x m b') (returns (ok h)) l q a b = cc
refusal-Goes hosts tried n (refused e) blocks l q a b = cc
refusal-Goes hosts tried n acquire_blocked blocks l q a b = (a, b, refl)
refusal-Goes hosts tried n request_blocked blocks l q a b = (a, b, refl)
refusal-Goes hosts tried n head_disabled blocks l q a b = cc
refusal-Goes hosts tried n sleep_canceled blocks l q a b = cc
refusal-Goes hosts tried n (not_built e) blocks l q a b = cc
refusal-Goes hosts tried n (not_authorized e) blocks l q a b = cc
refusal-Goes hosts tried n (not_sent e) blocks l q a b = cc
refusal-Goes hosts tried n (answered s x m b') blocks l q a b = cc

try_host-Goes :
    (c : Limits) (r : Request) (t : Turn) (host cur : ℕ) (l : Loop)
    → member host l.hosts ≡ true
    → Goes t.event l.hosts (l.tried ++ host ∷ []) (l.retry_count + 1) (try_host c r t host cur l)
unfolding prepare
try_host-Goes c r t host cur l m =
    let P = Goes t.event l.hosts (l.tried ++ host ∷ []) (l.retry_count + 1) in
    elim (Option-cases (refusal t.event)) [
      | inl asked ↦
          subst P (sym (try_host-attempt c r t host cur l asked))
            (attempt-Goes c r t host (counted host cur l) m)
      | inr (o, q) ↦
          let l' = prepare c r t host (counted host cur l) in
          subst P (sym (try_host-ends c r t host cur l o q)) (
            refusal-Goes l.hosts (l.tried ++ host ∷ []) (l.retry_count + 1) t.event o l' q refl
              refl)
    ]

-- The host whose turn it is.
abbrev pub host_at : ℕ → List ℕ → ℕ → ℕ
host_at first rest cur = get_or first (first ∷ rest) cur

abbrev pub wrapped : ℕ → List ℕ → ℕ → ℕ
wrapped first rest cur = if leb (length (first ∷ rest)) cur then 0 else cur

pub turn-nil :
    (c : Limits) (r : Request) (t : Turn) (l : Loop)
    → l.hosts ≡ []
    → (e : Error) × (turn c r t l ≡ ends (returns (err e)) l)
unfolding turn turn_over
turn-nil c r t l h =
    (elim l.last_err [ none ↦ all_requests_failed | some e ↦ e ], ap (turn_over c r t l) h)

pub turn-cons :
    (c : Limits) (r : Request) (t : Turn) (l : Loop) (first : ℕ) (rest : List ℕ)
    → l.hosts ≡ first ∷ rest
    → turn c r t l ≡ (
        if ltb c.retry_limit l.retry_count
        then ends (returns (err retry_limit_exceeded)) l
        else try_host c r t
            (host_at first rest (wrapped first rest l.cur_host))
            (wrapped first rest l.cur_host)
            l)
unfolding turn turn_over
turn-cons c r t l first rest h = ap (turn_over c r t l) h

-- The hosts of a loop: none, or a first one.
pub List-cases : (hs : List ℕ) → (hs ≡ []) ⊎ ((first : ℕ) × (rest : List ℕ) × (hs ≡ first ∷ rest))
List-cases [] = inl refl
List-cases (x ∷ xs) = inr (x, xs, refl)

-- What a turn does: it ends with an error and counts nothing, or it tries a host within the limit.
pub turn-Goes :
    (c : Limits) (r : Request) (t : Turn) (l : Loop)
    → ((e : Error) × (turn c r t l ≡ ends (returns (err e)) l))
      ⊎ ((host : ℕ) × (l.retry_count ≤ c.retry_limit)
          × Goes t.event l.hosts (l.tried ++ host ∷ []) (l.retry_count + 1) (turn c r t l))
turn-Goes c r t l = elim (List-cases l.hosts) [
  | inl none_left ↦ inl (turn-nil c r t l none_left)
  | inr (first, rest, h) ↦ elim (Bool-cases (ltb c.retry_limit l.retry_count)) [
    | inl over ↦ inl (retry_limit_exceeded, turn-cons c r t l first rest h ∙ rw over refl)
    | inr within ↦
        let cur = wrapped first rest l.cur_host in
        let host = host_at first rest cur in
        let m : member host l.hosts ≡ true =
          rw h (member-get_or first cur (first ∷ rest) (ground arith)) in
        inr (
          host,
          ground (arith, within),
          subst (Goes t.event l.hosts (l.tried ++ host ∷ []) (l.retry_count + 1))
              (sym (turn-cons c r t l first rest h ∙ rw within refl))
              (try_host-Goes c r t host cur l m),
        )
  ]
]

pub loop-ends :
    (c : Limits) (r : Request) (env : ℕ → Turn) (fuel : ℕ) (l l' : Loop) (o : Ending)
    → turn c r (env l.retry_count) l ≡ ends o l'
    → loop c r env (suc fuel) l ≡ some (o, l')
unfolding loop
loop-ends c r env fuel l l' o q = rw (q, loop) refl

pub loop-again :
    (c : Limits) (r : Request) (env : ℕ → Turn) (fuel : ℕ) (l l' : Loop)
    → turn c r (env l.retry_count) l ≡ again l'
    → loop c r env (suc fuel) l ≡ loop c r env fuel l'
unfolding loop
loop-again c r env fuel l l' q = rw (q, loop) refl
