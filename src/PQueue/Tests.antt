-- ===== src/PQueue/Tests.antt =====
-- Runs of the queue, and instances of its theorems.
use regclient.Base.{ℕ, ◌<◌, ◌≡◌, refl, Option, none, some, List, [], ◌∷◌, arith}
use regclient.Base.Int.{pos}
use regclient.PQueue.{Queue, Call, acquires, tries, releases, aborts, new, release, abort, run}
use regclient.PQueue.Slots.{count}
use regclient.PQueue.Invariant.{Inv, run-new-Inv}
use regclient.PQueue.Fairness.{Hands, release-Hands, release_all, release_all-order}
use regclient.PQueue.Abort.{abort-starves}

-- Entry 1 is active; entries 2, 3 and 4 wait on the channels 12, 13 and 14.
abbrev full_queue : Queue
full_queue = record {
  max = 1;
  next = none;
  active = 1 ∷ [];
  queued = 2 ∷ 3 ∷ 4 ∷ [];
  wait = 12 ∷ 13 ∷ 14 ∷ [];
}

full_queue-Inv : Inv full_queue
full_queue-Inv = omega arith

abbrev history : List Call
history = acquires 1 11 ∷ acquires 2 12 ∷ tries 3 ∷ acquires 4 14 ∷ releases 1 ∷ aborts 4 ∷ []

run-history :
    run (new (pos 1) none) history
    ≡ some (record { max = 1; next = none; active = 2 ∷ []; queued = []; wait = [] })
unfolding run new
run-history = refl

run-new-Inv_example : (q : Queue) × (run (new (pos 1) none) history ≡ some q) × Inv q
run-new-Inv_example = run-new-Inv (pos 1) none history

release-Hands_example :
    (r : Queue × Option ℕ) × (release full_queue 1 ≡ some r) × Hands full_queue 1 r
release-Hands_example = release-Hands full_queue 1 full_queue-Inv

release_all-order_example :
    (q : Queue) × (release_all full_queue (1 ∷ []) ≡ some (q, some 12 ∷ []))
    × (q.queued ≡ 3 ∷ 4 ∷ [])
    × (q.wait ≡ 13 ∷ 14 ∷ [])
release_all-order_example =
    release_all-order (1 ∷ []) full_queue full_queue-Inv refl (omega arith) (omega arith)

abort-starves_example :
    (0 < count 4 full_queue.queued)
    × ((q' : Queue) × (q'' : Queue) × (abort full_queue 3 ≡ some (q', none))
        × (run q' (releases 1 ∷ releases 2 ∷ []) ≡ some q'')
        × (count 4 q'.queued ≡ 0)
        × (count 4 q''.active ≡ 0))
abort-starves_example =
    abort-starves full_queue 3 4 (2 ∷ []) (4 ∷ []) (releases 1 ∷ releases 2 ∷ []) full_queue-Inv
      refl refl refl refl (omega arith) (tt, (tt, tt))
