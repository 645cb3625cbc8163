-- ===== src/PQueue.antt =====
-- internal/pqueue/pqueue.go, one queue. Entries are known by their address and wait channels by a
-- number, fresh for each call; a call that the mutex makes atomic is one function of the queue.
pub mod Slots
pub mod Invariant
pub mod Fairness
pub mod Abort
mod Tests
use regclient.Base.{
  ℕ, zero, suc, ◌+◌, ◌-◌, ◌*◌, ◌/◌, ◌%◌, ◌≤◌, ◌<◌, min, String, ◌≡◌, refl, sym, ap, ◌∙◌, ◌≢◌, ◌↔◌,
  ◌⊎◌, inl, inr, Bool, true, false, not, ◌&&◌, ◌||◌, Option, none, some, List, [], ◌∷◌, ◌++◌, map,
  arith, ltb, leb, ◌==◌, ==_iff, if◌then◌else◌, Bool-cases, Option-cases, is_some, length,
  get_elem?, take, drop, length-append, length-take, All, All-append, any, all,
}
use regclient.Base.Int.{ℤ, pos, negsuc}
use mathlib.Core.Option

-- `Queue[T]`: a nil `next` is `none`.
pub record Queue : Type 0 where
  pub max : ℕ
  pub next : Option (List ℕ → List ℕ → ℤ)
  pub active : List ℕ
  pub queued : List ℕ
  pub wait : List ℕ

-- `New`: a limit that is not positive becomes 1.
unfoldable pub new : ℤ → Option (List ℕ → List ℕ → ℤ) → Queue
new limit next = record {
  max = elim limit [ pos n ↦ (if n == 0 then 1 else n) | negsuc n ↦ 1 ];
  next = next;
  active = [];
  queued = [];
  wait = [];
}

-- `append(s[:i], s[i+1:]...)`.
abbrev pub delete_at {ℓ} : {A : Type ℓ} → ℕ → List A → List A
delete_at i [] = []
delete_at zero (x ∷ xs) = xs
delete_at (suc i) (x ∷ xs) = x ∷ delete_at i xs

-- The loop over `active` in `release`: the first entry that is `prev` is deleted. The test
-- `i == len(q.active)+1` never holds, and both its branches delete one entry.
unfoldable pub remove : ℕ → List ℕ → List ℕ
remove prev [] = []
remove prev (x ∷ xs) = if x == prev then xs else x ∷ remove prev xs

-- The answer of `next`, brought into range.
unfoldable pub in_range : ℤ → ℕ → ℕ
in_range (negsuc n) len = 0
in_range (pos i) len = if leb len i then len - 1 else i

-- The index of the entry to serve, behind the checks of `release`.
unfoldable pub pick : Option (List ℕ → List ℕ → ℤ) → List ℕ → List ℕ → ℕ
unfolding in_range
pick none queued active = 0
pick (some f) queued active =
    if ltb 1 (length queued) then in_range (f queued active) (length queued) else 0

-- The end of `release`: entry `i` moves to the active list and its channel is closed. An index
-- out of range is a panic, `none`.
unfoldable pub serve : Queue → ℕ → Option (Queue × Option ℕ)
serve q i = elim (get_elem? q.wait i) [
  | none ↦ none
  | some w ↦ elim (get_elem? q.queued i) [
    | none ↦ none
    | some e ↦ some (
      record q {
        active = q.active ++ e ∷ [];
        queued = delete_at i q.queued;
        wait = delete_at i q.wait;
      },
      some w,
    )
  ]
]

-- `release`, with the channel that it closes.
unfoldable pub release : Queue → ℕ → Option (Queue × Option ℕ)
unfolding remove pick serve
release q prev =
    let q' = record q { active = remove prev q.active } in
    if length q'.queued == 0
    then some (if length q'.active == 0 then record q' { queued = []; wait = [] } else q', none)
    else if leb q'.max (length q'.active)
    then some (q', none)
    else serve q' (pick q'.next q'.queued q'.active)

-- The first index at which `queued` holds the entry.
unfoldable pub index_of : ℕ → List ℕ → Option ℕ
index_of e [] = none
index_of e (x ∷ xs) = if x == e then some 0 else Option.map suc (index_of e xs)

-- The context of a call: no value, a finished transaction, or the queues that one holds.
pub data Context : Type 0 where
  unset finished : Context
  holds : List ℕ → Context

pub data Outcome : Type 0 where
  -- the call returns at once, with a function that does nothing
  noop : Outcome
  -- an error: another queue is held by the transaction
  refused : Outcome
  granted : Outcome
  -- `Acquire` blocks on its channel
  waiting : Outcome
  -- `TryAcquire` returns no function
  unavailable : Outcome

abbrev contains : List ℕ → ℕ → Bool
contains l a = any (λ x. x == a) l

-- `checkContext` on the queue with this address; `none` is `false, nil`.
unfoldable pub check_context : Context → ℕ → Option Outcome
check_context unset self = none
check_context finished self = none
check_context (holds l) self = some (if contains l self then noop else refused)

-- The limit check of `Acquire` and `TryAcquire`.
abbrev pub has_room : Queue → Bool
has_room q = ltb (length q.active + length q.queued) q.max

-- `Acquire` up to its `select`: entry `e` with channel `w`.
unfoldable pub acquire : Context → ℕ → Queue → ℕ → ℕ → Queue × Outcome
unfolding check_context
acquire ctx self q e w = elim (check_context ctx self) [
  | some o ↦ (q, o)
  | none ↦
      if has_room q
      then (record q { active = q.active ++ e ∷ [] }, granted)
      else (record q { queued = q.queued ++ e ∷ []; wait = q.wait ++ w ∷ [] }, waiting)
]

unfoldable pub try_acquire : Context → ℕ → Queue → ℕ → Queue × Outcome
unfolding check_context
try_acquire ctx self q e = elim (check_context ctx self) [
  | some o ↦ (q, o)
  | none ↦
      if has_room q then (record q { active = q.active ++ e ∷ [] }, granted) else (q, unavailable)
]

-- The branch of `select` in `Acquire` where the context is done.
unfoldable pub abort : Queue → ℕ → Option (Queue × Option ℕ)
unfolding index_of release
abort q e = elim (index_of e q.queued) [
  | none ↦ release q e
  | some i ↦ some (
    if leb (i + 1) (length q.queued)
        then record q { queued = take i q.queued; wait = take i q.wait }
        else record q { queued = delete_at i q.queued; wait = delete_at i q.wait },
    none,
  )
]

-- The calls on one queue, each by an entry.
pub data Call : Type 0 where
  acquires : ℕ → ℕ → Call
  tries releases aborts : ℕ → Call

unfoldable pub step : Queue → Call → Option (Queue × Option ℕ)
unfolding acquire try_acquire release abort
step q (acquires e w) = some ((acquire unset 0 q e w).0, none)
step q (tries e) = some ((try_acquire unset 0 q e).0, none)
step q (releases e) = release q e
step q (aborts e) = abort q e

-- The queue after a history; `none` is a panic.
unfoldable pub run : Queue → List Call → Option Queue
unfolding step
run q [] = some q
run q (c ∷ cs) = elim (step q c) [ none ↦ none | some (q', _) ↦ run q' cs ]
