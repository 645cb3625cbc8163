-- ===== src/PQueue/Invariant.antt =====
-- The limit of a queue, its two parallel lists, and that no capacity is idle while entries wait.
use regclient.Base.{
  ℕ, ◌+◌, ◌≤◌, ◌<◌, ◌≡◌, refl, ◌⊎◌, inl, inr, Option, none, some, List, [], ◌∷◌, ◌++◌, arith, leb,
  ◌==◌, Bool-cases, Option-cases, length, get_elem?, take, length-append, length-take,
}
use regclient.Base.Int.{ℤ, pos, negsuc}
use regclient.PQueue.{
  Queue, new, in_range, pick, serve, remove, delete_at, release, index_of, abort, Call, acquires,
  tries, releases, aborts, acquire, try_acquire, unset, step, run,
}
use regclient.PQueue.Slots.{
  length-delete_at, get_elem?-some, length-remove, length-remove_drop, index_of-lt,
}

pub record Inv (q : Queue) : Type 0 where
  pub positive : 0 < q.max
  pub bounded : length q.active ≤ q.max
  pub paired : length q.wait ≡ length q.queued
  pub busy : 0 < length q.queued → length q.active ≡ q.max

-- A call that does not panic and keeps the invariant.
abbrev pub Keeps : Option (Queue × Option ℕ) → Type 0
Keeps o = (r : Queue × Option ℕ) × (o ≡ some r) × Inv r.0

pub pick-lt :
    (f : Option (List ℕ → List ℕ → ℤ)) (queued active : List ℕ)
    → 0 < length queued
    → pick f queued active < length queued
unfolding pick in_range
pick-lt none queued active h = h
pick-lt (some f) queued active h = ground arith

-- Within bounds `serve` succeeds, on the entry and the channel at one index.
pub serve_lem :
    (q : Queue) (i : ℕ)
    → length q.wait ≡ length q.queued
    → i < length q.queued
    → (e : ℕ) × (w : ℕ) × (get_elem? q.queued i ≡ some e)
      × (get_elem? q.wait i ≡ some w)
      × (serve q i
          ≡ some (
            record q {
              active = q.active ++ e ∷ [];
              queued = delete_at i q.queued;
              wait = delete_at i q.wait;
            },
            some w,
          ))
unfolding serve
serve_lem q i p h =
    let (e, he) = get_elem?-some i q.queued h in
    let (w, hw) = get_elem?-some i q.wait (omega arith) in (e, w, he, hw, ground (arith, he, hw))

serve-Inv :
    (q : Queue) (i : ℕ)
    → 0 < q.max
    → length q.active + 1 ≡ q.max
    → length q.wait ≡ length q.queued
    → i < length q.queued
    → Keeps (serve q i)
serve-Inv q i pos_max full p h =
    let (e, w, he, hw, s) = serve_lem q i p h in
    (
      _,
      s,
      record {
        positive = pos_max;
        bounded = omega (arith, length-append {0} q.active (e ∷ []));
        paired =
            omega (arith, length-delete_at i q.queued h, length-delete_at i q.wait (omega arith));
        busy = λ _. omega (arith, length-append {0} q.active (e ∷ []));
      },
    )

nil_of_length : (xs : List ℕ) → length xs ≡ 0 → xs ≡ []
nil_of_length [] h = refl
nil_of_length (x ∷ xs) h = absurd (omega arith)

-- The three ways through `release`, behind the deletion of the entry.
pub release_cases :
    (q : Queue) (e : ℕ)
    → length q.wait ≡ length q.queued
    → ((q.queued ≡ [])
        × (q.wait ≡ [])
        × (release q e
            ≡ some (record q { active = remove e q.active; queued = []; wait = [] }, none)))
      ⊎ ((0 < length q.queued)
          × (q.max ≤ length (remove e q.active))
          × (release q e ≡ some (record q { active = remove e q.active }, none)))
      ⊎ ((0 < length q.queued)
          × (length (remove e q.active) < q.max)
          × (release q e
              ≡ serve
                  (record q { active = remove e q.active })
                  (pick q.next q.queued (remove e q.active))))
unfolding release
release_cases q e p = elim (Bool-cases (length q.queued == 0)) [
  | inl empty ↦ inl (
    nil_of_length q.queued (ground arith),
    nil_of_length q.wait (ground arith),
    ground (arith, nil_of_length q.queued, nil_of_length q.wait),
  )
  | inr busy ↦ elim (Bool-cases (leb q.max (length (remove e q.active)))) [
    | inl full ↦ inr (inl (ground arith, ground arith, ground arith))
    | inr room ↦ inr (inr (ground arith, ground arith, ground arith))
  ]
]

pub release-Inv : (q : Queue) (e : ℕ) → Inv q → Keeps (release q e)
release-Inv q e v = elim (release_cases q e v.paired) [
  | inl (empty, idle, r) ↦ (
    _,
    r,
    record {
      positive = v.positive;
      bounded = omega (arith, length-remove e q.active, v.bounded);
      paired = refl;
      busy = λ h. absurd (omega arith);
    },
  )
  | inr (inl (some_queued, full, r)) ↦ (
    _,
    r,
    record {
      positive = v.positive;
      bounded = omega (arith, length-remove e q.active, v.bounded);
      paired = v.paired;
      busy = λ _. omega (arith, length-remove e q.active, v.bounded);
    },
  )
  | inr (inr (some_queued, room, r)) ↦
      let q' = record q { active = remove e q.active } in
      let i = pick q.next q.queued (remove e q.active) in
      rw r (
        serve-Inv q' i v.positive (omega (arith, v.busy some_queued, length-remove_drop e q.active))
          v.paired (pick-lt q.next q.queued (remove e q.active) some_queued))
]

pub abort-Inv : (q : Queue) (e : ℕ) → Inv q → Keeps (abort q e)
unfolding abort
abort-Inv q e v = elim (Option-cases (index_of e q.queued)) [
  | inl absent ↦ rw (absent, abort) (release-Inv q e v)
  | inr (i, found) ↦ (
    (record q { queued = take i q.queued; wait = take i q.wait }, none),
    ground (arith, index_of-lt e q.queued i),
    record {
      positive = v.positive;
      bounded = v.bounded;
      paired = omega (arith, length-take {0} i q.queued, length-take {0} i q.wait, v.paired);
      busy = λ h. v.busy (omega (arith, length-take {0} i q.queued));
    },
  )
]

acquire-Inv : (q : Queue) (e w : ℕ) → Inv q → Inv (acquire unset 0 q e w).0
unfolding acquire
acquire-Inv q e w v = ground (
  arith,
  length-append {0} q.active (e ∷ []),
  length-append {0} q.queued (e ∷ []),
  length-append {0} q.wait (w ∷ []),
)

try_acquire-Inv : (q : Queue) (e : ℕ) → Inv q → Inv (try_acquire unset 0 q e).0
unfolding try_acquire
try_acquire-Inv q e v = ground (arith, length-append {0} q.active (e ∷ []))

pub step-Inv : (q : Queue) (c : Call) → Inv q → Keeps (step q c)
unfolding step
step-Inv q (acquires e w) v = (_, refl, acquire-Inv q e w v)
step-Inv q (tries e) v = (_, refl, try_acquire-Inv q e v)
step-Inv q (releases e) v = release-Inv q e v
step-Inv q (aborts e) v = abort-Inv q e v

pub run-Inv : (cs : List Call) (q : Queue) → Inv q → (q' : Queue) × (run q cs ≡ some q') × Inv q'
unfolding run
run-Inv [] q v = (q, refl, v)
run-Inv (c ∷ cs) q v =
    let (r, s, w) = step-Inv q c v in let (q', t, u) = run-Inv cs r.0 w in (q', rw (s, run) t, u)

pub new-Inv : (limit : ℤ) (next : Option (List ℕ → List ℕ → ℤ)) → Inv (new limit next)
unfolding new
new-Inv (pos n) next = ground arith
new-Inv (negsuc n) next = omega arith

-- After any history of calls to a new queue, whatever limit and whatever `next` function it was
-- made with, no call has panicked; at most `max` entries are active, the lists `queued` and `wait`
-- have one length, and all `max` places are taken while an entry waits.
pub run-new-Inv :
    (limit : ℤ) (next : Option (List ℕ → List ℕ → ℤ)) (cs : List Call)
    → (q : Queue) × (run (new limit next) cs ≡ some q) × Inv q
run-new-Inv limit next cs = run-Inv cs (new limit next) (new-Inv limit next)
