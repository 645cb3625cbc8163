-- ===== src/PQueue/Abort.antt =====
-- What a cancelled `Acquire` does to the calls that wait behind it.
use mathlib.Core.Path.{subst}
use regclient.Base.{
  some-injective, ℕ, zero, suc, ◌+◌, ◌≤◌, ◌<◌, ◌≡◌, refl, sym, ap, ◌∙◌, ◌≢◌, inl, inr, Option, none,
  some, List, [], ◌∷◌, ◌++◌, arith, Option-cases, length, take, length-append, All,
}
use regclient.PQueue.{
  Queue, index_of, release, abort, acquire, try_acquire, Call, acquires, tries, releases, aborts,
  step, run,
}
use regclient.PQueue.Slots.{count, count-append, index_of-lt}
use regclient.PQueue.Invariant.{Inv, step-Inv, abort-Inv}
use regclient.PQueue.Fairness.{release-Hands}

count-take : (x n : ℕ) (xs : List ℕ) → count x (take n xs) ≤ count x xs
count-take x zero xs = omega arith
count-take x (suc n) [] = omega arith
count-take x (suc n) (y ∷ ys) = omega (arith, count-take x n ys)

index_of-append :
    (e : ℕ) (xs ys : List ℕ) → count e xs ≡ 0 → index_of e (xs ++ e ∷ ys) ≡ some (length xs)
unfolding index_of
index_of-append e [] ys h = ground arith
index_of-append e (x ∷ xs) ys h = ground (arith, index_of-append e xs ys)

take-append : (xs ys : List ℕ) → take (length xs) (xs ++ ys) ≡ xs
take-append [] ys = refl
take-append (x ∷ xs) ys = ap (◌∷◌ x) (take-append xs ys)

-- The truncation that `abort` makes.
abort-queued :
    (q : Queue) (e : ℕ) (before after : List ℕ)
    → q.queued ≡ before ++ e ∷ after
    → count e before ≡ 0
    → abort q e ≡ some (record q { queued = before; wait = take (length before) q.wait }, none)
unfolding abort
abort-queued q e before after split fresh =
    let at_e = index_of-append e before after fresh in
    let cut = take-append before (e ∷ after) in
    let here = length-append {0} before (e ∷ after) in ground (arith, split, at_e, cut, here)

-- A call that does not ask for entry `x`.
abbrev pub Without : ℕ → Call → Type 0
Without x (acquires e w) = e ≢ x
Without x (tries e) = e ≢ x
Without x (releases e) = Unit
Without x (aborts e) = Unit

abbrev Absent : ℕ → Queue → Type 0
Absent x q = (count x q.active ≡ 0) × (count x q.queued ≡ 0)

release-Absent :
    (q : Queue) (e x : ℕ) (r : Queue × Option ℕ)
    → Inv q
    → Absent x q
    → release q e ≡ some r
    → Absent x r.0
release-Absent q e x r v a h =
    let (r', s, hands) = release-Hands q e v in
    let c : count x r'.0.active + count x r'.0.queued ≤ 0 = omega (arith, hands.conserved x) in
    subst (λ o. Absent x o.0) (some-injective (sym s ∙ h)) (omega arith, omega arith)

abort-Absent :
    (q : Queue) (e x : ℕ) (r : Queue × Option ℕ)
    → Inv q
    → Absent x q
    → abort q e ≡ some r
    → Absent x r.0
unfolding abort
abort-Absent q e x r v a h = elim (Option-cases (index_of e q.queued)) [
  | inl absent ↦ release-Absent q e x r v a (rw (absent, abort) at h)
  | inr (i, found) ↦ ground (arith, index_of-lt e q.queued i, count-take x i q.queued, found, h)
]

step-Absent :
    (q : Queue) (c : Call) (x : ℕ) (r : Queue × Option ℕ)
    → Inv q
    → Without x c
    → Absent x q
    → step q c ≡ some r
    → Absent x r.0
unfolding step acquire try_acquire
step-Absent q (acquires e w) x r v n a h =
    subst (λ o. Absent x o.0) (some-injective h)
      (ground (arith, count-append x q.active (e ∷ []), count-append x q.queued (e ∷ [])))
step-Absent q (tries e) x r v n a h =
    subst (λ o. Absent x o.0) (some-injective h) (ground (arith, count-append x q.active (e ∷ [])))
step-Absent q (releases e) x r v n a h = release-Absent q e x r v a h
step-Absent q (aborts e) x r v n a h = abort-Absent q e x r v a h

run-Absent :
    (cs : List Call) (q : Queue) (x : ℕ)
    → Inv q
    → All (Without x) cs
    → Absent x q
    → (q' : Queue) × (run q cs ≡ some q') × Absent x q'
unfolding run
run-Absent [] q x v n a = (q, refl, a)
run-Absent (c ∷ cs) q x v n a =
    let (r, s, w) = step-Inv q c v in
    let (q', t, b) = run-Absent cs r.0 x w n.1 (step-Absent q c x r v n.0 a s) in
    (q', rw (s, run) t, b)

-- A defect. When the context of a waiting entry `e` is done, the calls that wait behind it are
-- forgotten: for any entry `x` that waits behind `e` only, `x` is not in the queue that the abort
-- leaves, the abort closes no channel, and `x` is not made active by any later calls, unless it is
-- asked for anew. The `Acquire` of `x` can end by its own context only.
pub abort-starves :
    (q : Queue) (e x : ℕ) (before after : List ℕ) (cs : List Call)
    → Inv q
    → q.queued ≡ before ++ e ∷ after
    → count e before ≡ 0
    → count x before ≡ 0
    → count x q.active ≡ 0
    → 0 < count x after
    → All (Without x) cs
    → (0 < count x q.queued)
      × ((q' : Queue) × (q'' : Queue) × (abort q e ≡ some (q', none))
          × (run q' cs ≡ some q'')
          × (count x q'.queued ≡ 0)
          × (count x q''.active ≡ 0))
abort-starves q e x before after cs v split fresh ahead idle behind n =
    let a = abort-queued q e before after split fresh in
    let q' = record q { queued = before; wait = take (length before) q.wait } in
    let (r, s, w) = abort-Inv q e v in
    let inv : Inv q' = subst (λ o. Inv o.0) (some-injective (sym s ∙ a)) w in
    let (q'', t, gone) = run-Absent cs q' x inv n (idle, ahead) in
    (
      omega (arith, ap (count x) split, count-append x before (e ∷ after)),
      (q', q'', a, t, ahead, gone.0),
    )
