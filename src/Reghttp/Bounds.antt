-- ===== src/Reghttp/Bounds.antt =====
-- How often and whom `next` asks.
use mathlib.Core.Path.{subst}
use regclient.Base.{
  ℕ, zero, suc, ◌+◌, ◌≤◌, ◌≡◌, refl, ap, ◌∙◌, ◌⊎◌, inl, inr, true, some, List, [], ◌∷◌, ◌++◌, arith,
  length, length-append,
}
use regclient.Errs.{ok, err}
use regclient.Reghttp.Backoff.{Limits, HostState}
use regclient.Reghttp.Next.{
  Request, Ending, returns, blocks, Turn, Loop, Step, again, ends, turn, loop, start, next,
}
use regclient.Reghttp.Turns.{member, Within, is_blocked, Goes, turn-Goes, loop-ends, loop-again}

-- What the loop comes to from a state: the tries are counted and are within the limit, a success is
-- one of the hosts, and it waits for ever only in a call of its last try that never comes back.
pub record IsReturn (c : Limits) (env : ℕ → Turn) (hosts : List ℕ) (n m : ℕ) (o : Ending)
    (l' : Loop) : Type 0 where
  pub within : (l'.retry_count ≤ c.retry_limit + 1) ⊎ (l'.retry_count ≡ m)
  pub all_counted : length l'.tried + m ≡ n + l'.retry_count
  pub from_hosts : (h : ℕ) → o ≡ returns (ok h) → member h hosts ≡ true
  pub waits :
      o ≡ blocks
      → (k : ℕ) × (k ≤ c.retry_limit) × (l'.retry_count ≡ k + 1) × (is_blocked (env k).event ≡ true)

Step-cases :
    (s : Step) → ((l : Loop) × (s ≡ again l)) ⊎ ((o : Ending) × (l : Loop) × (s ≡ ends o l))
Step-cases (again l) = inl (l, refl)
Step-cases (ends o l) = inr (o, l, refl)

-- One more try before the loop goes on.
IsReturn-again :
    (c : Limits) (env : ℕ → Turn) (hosts hosts' : List ℕ) (n m n' m' : ℕ) (o : Ending) (l' : Loop)
    → m ≤ c.retry_limit
    → n' ≡ n + 1
    → m' ≡ m + 1
    → Within hosts' hosts
    → IsReturn c env hosts' n' m' o l'
    → IsReturn c env hosts n m o l'
IsReturn-again c env hosts hosts' n m n' m' o l' k a b w v = record {
  within = ground arith;
  all_counted = omega (arith, v.all_counted);
  from_hosts = λ h e. w h (v.from_hosts h e);
  waits = v.waits;
}

-- A turn that ends the loop.
IsReturn-ends :
    (c : Limits) (env : ℕ → Turn) (hosts tried : List ℕ) (m host : ℕ) (o : Ending) (l' : Loop)
    → m ≤ c.retry_limit
    → Goes (env m).event hosts (tried ++ host ∷ []) (m + 1) (ends o l')
    → IsReturn c env hosts (length tried) m o l'
IsReturn-ends c env hosts tried m host (returns (ok h)) l' k g = record {
  within = inl (ground (arith, g.0));
  all_counted = omega (arith, g.0, ap length g.1, length-append tried (host ∷ []));
  from_hosts = λ j e. ground (arith, g.2, e);
  waits = λ e. absurd cc;
}
IsReturn-ends c env hosts tried m host (returns (err e)) l' k g = record {
  within = inl (ground (arith, g.0));
  all_counted = omega (arith, g.0, ap length g.1, length-append tried (host ∷ []));
  from_hosts = λ j q. cc;
  waits = λ e. absurd cc;
}
IsReturn-ends c env hosts tried m host blocks l' k g = record {
  within = inl (ground (arith, g.0));
  all_counted = omega (arith, g.0, ap length g.1, length-append tried (host ∷ []));
  from_hosts = λ j q. cc;
  waits = λ e. (m, k, g.0, g.2);
}

loop-IsReturn :
    (c : Limits) (r : Request) (env : ℕ → Turn) (fuel : ℕ) (l : Loop)
    → c.retry_limit + 2 ≤ fuel + l.retry_count
    → 1 ≤ fuel
    → (o : Ending) × (l' : Loop) × (loop c r env fuel l ≡ some (o, l'))
      × IsReturn c env l.hosts (length l.tried) l.retry_count o l'
loop-IsReturn c r env zero l h k = absurd (omega arith)
loop-IsReturn c r env (suc fuel) l h k = elim (turn-Goes c r (env l.retry_count) l) [
  | inl (e, q) ↦ (
    returns (err e),
    l,
    loop-ends c r env fuel l l (returns (err e)) q,
    record {
      within = inr refl;
      all_counted = refl;
      from_hosts = λ j b. cc;
      waits = λ b. absurd cc;
    },
  )
  | inr (host, below, g) ↦
      let P = Goes (env l.retry_count).event l.hosts (l.tried ++ host ∷ []) (l.retry_count + 1) in
      elim (Step-cases (turn c r (env l.retry_count) l)) [
        | inl (m, q) ↦
            let (n, s, w) : P (again m) = subst P q g in
            let (o, l', e, v) =
              loop-IsReturn c r env fuel m (omega (arith, n)) (omega (arith, n)) in
            (
              o,
              l',
              loop-again c r env fuel l m q ∙ e,
              IsReturn-again c env l.hosts m.hosts (length l.tried) l.retry_count (length m.tried)
                  m.retry_count o l' below
                  (omega (arith, ap length s, length-append l.tried (host ∷ []))) n w v,
            )
        | inr (o, l', q) ↦ (
          o,
          l',
          loop-ends c r env fuel l l' o q,
          IsReturn-ends c env l.hosts l.tried l.retry_count host o l' below (subst P q g),
        )
      ]
]

-- `next` returns, unless it waits for ever in a call of `Acquire` or in a request of which the body,
-- the authentication or the answer never comes, whatever else the hosts and the network answer and
-- whatever other requests do to the backoffs of the hosts in between: a request that was sent
-- `retry_count` times is sent at most `retryLimit` + 1 times in all, and a response is of one of the
-- hosts that were sorted.
pub next-IsReturn :
    (sort : List ℕ → List ℕ) (c : Limits) (r : Request) (env : ℕ → Turn) (mirrors : List ℕ)
    (upstream retry_count read_max : ℕ) (states : ℕ → HostState)
    → (o : Ending) × (l' : Loop) × (next sort c r env mirrors upstream retry_count read_max states
        ≡ some (o, l'))
      × IsReturn c env
          (start sort r mirrors upstream retry_count read_max states).hosts
          0
          retry_count
          o
          l'
unfolding next
next-IsReturn sort c r env mirrors upstream retry_count read_max states =
    loop-IsReturn c r env (c.retry_limit + 2)
      (start sort r mirrors upstream retry_count read_max states) (omega arith) (omega arith)
