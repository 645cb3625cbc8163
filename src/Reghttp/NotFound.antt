-- ===== src/Reghttp/NotFound.antt =====
-- What `next` does when no host has what is asked for.
use mathlib.Core.List.{append-nil, append_assoc}
use regclient.Base.{
  ℕ, zero, suc, ◌+◌, ◌≤◌, ◌<◌, ◌≡◌, refl, sym, ap, ◌∙◌, ◌⊎◌, inl, inr, Bool, true, false, Option,
  none, some, List, [], ◌∷◌, ◌++◌, arith, ltb, if◌then◌else◌, length,
}
use regclient.Errs.{Error, err, not_found, all_requests_failed}
use regclient.Reghttp.Backoff.{Limits, HostState}
use regclient.Reghttp.Next.{
  Request, Event, answered, returns, Verdict, http_error, judge_status, judge, Turn, Loop, again,
  fail_over, go_on, prepare, conclude, attempt, refusal, turn, loop, next, ends, delete_at, drops,
  try_host, turn_over, start,
}
use regclient.Reghttp.Turns.{
  counted, try_host-attempt, turn-cons, loop-ends, loop-again, host_at, wrapped,
}

abbrev missing : Verdict
missing = record { backoff = false; drop_host = true; retry_host = false; outcome = err not_found }

-- An answer with the status 404.
abbrev pub IsMissing : Event → Type 0
IsMissing e = (a : Option Error) × (n : Option ℕ) × (b : Bool) × (e ≡ answered 404 a n b)

judge-missing :
    (r : Request) (read_max : ℕ) (a : Option Error) (n : Option ℕ) (b : Bool)
    → r.read_cur ≡ 0
    → judge r read_max (answered 404 a n b) ≡ missing
unfolding judge judge_status http_error
judge-missing r read_max a n b h = rw h refl

go_on-again : (before : Option Error) (l : Loop) → go_on before not_found l ≡ again l
unfolding go_on
go_on-again none l = refl
go_on-again (some e) l = refl

-- The loop behind a host that was dropped.
abbrev dropped : Request → Turn → Limits → ℕ → Loop → Loop
dropped r t c host l =
    fail_over c r t host missing not_found (prepare c r t host (counted host 0 l))

attempt-missing :
    (c : Limits) (r : Request) (t : Turn) (host : ℕ) (l : Loop)
    → r.read_cur ≡ 0
    → IsMissing t.event
    → attempt c r t host (counted host 0 l) ≡ again (dropped r t c host l)
unfolding attempt conclude prepare go_on
attempt-missing c r t host l h (a, n, b, e) =
    let l' = prepare c r t host (counted host 0 l) in
    ap (λ v. conclude c r t host v v.outcome l')
      (ap (judge r l.read_max) e ∙ judge-missing r l.read_max a n b h)
    ∙ go_on-again l.last_err (fail_over c r t host missing not_found l')

refusal-missing : (e : Event) → IsMissing e → refusal e ≡ none
refusal-missing e (a, n, b, q) = ap refusal q

turn-missing :
    (c : Limits) (r : Request) (t : Turn) (l : Loop) (first : ℕ) (rest : List ℕ)
    → r.read_cur ≡ 0
    → IsMissing t.event
    → l.hosts ≡ first ∷ rest
    → l.cur_host ≡ 0
    → l.retry_count ≤ c.retry_limit
    → turn c r t l ≡ again (dropped r t c first l)
turn-missing c r t l first rest h m hs z k =
    let within : ltb c.retry_limit l.retry_count ≡ false = ground arith in
    let first_turn : wrapped first rest l.cur_host ≡ 0 = ground (arith, z) in
    turn-cons c r t l first rest hs
    ∙ rw within (
        ap (λ cur. try_host c r t (host_at first rest cur) cur l) first_turn
        ∙ try_host-attempt c r t first 0 l (refusal-missing t.event m)
        ∙ attempt-missing c r t first l h m)

dropped_fields :
    (c : Limits) (r : Request) (t : Turn) (l : Loop) (first : ℕ) (rest : List ℕ)
    → l.hosts ≡ first ∷ rest
    → let l' = dropped r t c first l in
      (l'.hosts ≡ rest)
      × (l'.cur_host ≡ 0)
      × (l'.retry_count ≡ l.retry_count + 1)
      × (l'.tried ≡ l.tried ++ first ∷ [])
      × (l'.last_err ≡ some not_found)
unfolding fail_over prepare drops delete_at
dropped_fields c r t l first rest hs = (ap (delete_at 0) hs, refl, refl, refl, refl)

turn_over-nil :
    (c : Limits) (r : Request) (t : Turn) (l : Loop) (e : Error)
    → l.hosts ≡ []
    → l.last_err ≡ some e
    → turn c r t l ≡ ends (returns (err e)) l
unfolding turn turn_over
turn_over-nil c r t l e hs q =
    ap (turn_over c r t l) hs
    ∙ ap
        (λ o.
          ends (returns (err (elim o as (λ x. Error) [ none ↦ all_requests_failed | some e ↦ e ])))
            l)
        q

rest-cases :
    (rest : List ℕ) {o : Option Error}
    → o ≡ some not_found
    → (rest ≡ []) × (o ≡ some not_found) ⊎ (0 < length rest)
rest-cases [] e = inl (refl, e)
rest-cases (x ∷ xs) e = inr (omega arith)

-- Every host that is left is tried once, in the order of the list.
loop-missing :
    (c : Limits) (r : Request) (env : ℕ → Turn) (hs : List ℕ) (fuel : ℕ) (l : Loop)
    → r.read_cur ≡ 0
    → ((n : ℕ) → IsMissing (env n).event)
    → l.hosts ≡ hs
    → l.cur_host ≡ 0
    → (hs ≡ []) × (l.last_err ≡ some not_found) ⊎ (0 < length hs)
    → length hs + l.retry_count ≤ c.retry_limit + 1
    → length hs < fuel
    → (l' : Loop) × (loop c r env fuel l ≡ some (returns (err not_found), l'))
      × (l'.tried ≡ l.tried ++ hs)
      × (l'.retry_count ≡ length hs + l.retry_count)
loop-missing c r env hs zero l h m q z s k f = absurd (omega arith)
loop-missing c r env [] (suc fuel) l h m q z (inl (_, last)) k f = (
  l,
  loop-ends c r env fuel l l (returns (err not_found))
      (turn_over-nil c r (env l.retry_count) l not_found q last),
  sym (append-nil l.tried),
  omega arith,
)
loop-missing c r env [] (suc fuel) l h m q z (inr s) k f = absurd (omega arith)
loop-missing c r env (first ∷ rest) (suc fuel) l h m q z s k f =
    let t = env l.retry_count in
    let next_l = dropped r t c first l in
    let (hosts, cur, count, tried, last) = dropped_fields c r t l first rest q in
    let (l', e, all_tried, all_counted) =
      loop-missing c r env rest fuel next_l h m hosts cur (rest-cases rest last)
        (omega (arith, count)) (omega arith) in
    (
      l',
      loop-again c r env fuel l next_l
            (turn-missing c r t l first rest h (m l.retry_count) q z (omega arith))
          ∙ e,
      all_tried ∙ ap (λ ts. ts ++ rest) tried ∙ append_assoc l.tried (first ∷ []) rest,
      omega (arith, all_counted, count),
    )

-- If every answer is a 404, and the hosts are not more than the tries, `next` asks each of the
-- sorted hosts exactly once, in their order, and fails with `ErrNotFound`.
pub next-not_found :
    (sort : List ℕ → List ℕ) (c : Limits) (r : Request) (env : ℕ → Turn) (mirrors : List ℕ)
    (upstream retry_count read_max : ℕ) (states : ℕ → HostState)
    → r.read_cur ≡ 0
    → ((n : ℕ) → IsMissing (env n).event)
    → (first : ℕ) (rest : List ℕ)
    → sort ((if r.no_mirrors then [] else mirrors) ++ upstream ∷ []) ≡ first ∷ rest
    → length (first ∷ rest) + retry_count ≤ c.retry_limit + 1
    → (l' : Loop) × (next sort c r env mirrors upstream retry_count read_max states
        ≡ some (returns (err not_found), l'))
      × (l'.tried ≡ first ∷ rest)
unfolding next
next-not_found sort c r env mirrors upstream retry_count read_max states h m first rest q k =
    let l = start sort r mirrors upstream retry_count read_max states in
    let (l', e, tried, _) =
      loop-missing c r env (first ∷ rest) (c.retry_limit + 2) l h m q refl (inr (omega arith)) k
        (omega arith) in
    (l', e, tried)
