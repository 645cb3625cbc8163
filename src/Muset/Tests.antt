-- ===== src/Muset/Tests.antt =====
-- Runs on sets of mutexes, and instances of their theorems.
use regclient.Base.{
  ℕ, arith, ◌≡◌, refl, ◌≢◌, ◌⊎◌, true, false, ◌||◌, none, some, [], ◌∷◌, ◌==◌, get_elem?,
}
use regclient.Muset.{Store, dedup, sweep, refill, last_of, init_of, round, try_from, unlock_from}
use regclient.Muset.Dedup.{contains, distinct}
use regclient.Muset.Steps.{
  trying, waiting, releasing, Config, blocked_lock, skip, try_fails, unlocks, keeps, blocks,
  at_phase, locked_at, unlocked_at, begun, Reach, start, later,
}
use regclient.Muset.Waits.{IsSafe, Reach-IsSafe}
use regclient.Muset.Round.{round-cases}

run-dedup : dedup (1 ∷ 2 ∷ 1 ∷ 3 ∷ 2 ∷ 4 ∷ []) ≡ 1 ∷ 2 ∷ 4 ∷ 3 ∷ []
unfolding dedup sweep refill last_of init_of
run-dedup = refl

-- The third mutex is locked.
abbrev third : Store
third x = x == 3

third_blocks : (round 1 2 (1 ∷ 2 ∷ 3 ∷ 4 ∷ []) third).0 ≡ some 2
unfolding round try_from unlock_from
third_blocks = refl

round-cases_example :
    (((round 1 2 (1 ∷ 2 ∷ 3 ∷ 4 ∷ []) third).0 ≡ none)
      × ((x : ℕ)
          → ((round 1 2 (1 ∷ 2 ∷ 3 ∷ 4 ∷ []) third).1 x
              ≡ (third x || contains (1 ∷ 2 ∷ 3 ∷ 4 ∷ []) x))
            × (contains (1 ∷ 2 ∷ 3 ∷ 4 ∷ []) x ≡ true → third x ≡ false)))
    ⊎ ((b : ℕ) × (m' : ℕ) × ((round 1 2 (1 ∷ 2 ∷ 3 ∷ 4 ∷ []) third).0 ≡ some b)
        × (b ≢ 1)
        × (get_elem? (1 ∷ 2 ∷ 3 ∷ 4 ∷ []) b ≡ some m')
        × (third m' ≡ true)
        × ((x : ℕ) → (round 1 2 (1 ∷ 2 ∷ 3 ∷ 4 ∷ []) third).1 x ≡ third x))
unfolding distinct
round-cases_example = round-cases 1 2 (1 ∷ 2 ∷ 3 ∷ 4 ∷ []) third refl refl refl

-- A call that finds the second of three mutexes locked, unlocks the first, and waits for the second.
abbrev second : Store
second x = x == 8

abbrev locked_first : Config
locked_first = locked_at (begun second) 0 7 (trying 0 0)

abbrev waits_again : Config
waits_again =
    at_phase
      (at_phase
        (unlocked_at (at_phase (at_phase locked_first (trying 0 1)) (releasing 0 1 0)) 0 7
          (releasing 0 1 1))
        (releasing 0 1 2))
      (waiting 1)

Reach-waits_again : Reach (dedup (7 ∷ 8 ∷ 7 ∷ [])) second waits_again
unfolding dedup sweep refill last_of init_of
Reach-waits_again =
    later
      (later
        (later
          (later (later (later start (blocked_lock 0 7 refl refl refl)) (skip 0 refl))
            (try_fails 0 1 8 refl (ground arith) refl refl))
          (unlocks 0 1 0 7 refl refl refl))
        (keeps 0 1 1 refl (omega arith) refl))
      (blocks 0 1 refl)

Reach-IsSafe_example : IsSafe (7 ∷ 8 ∷ 7 ∷ []) waits_again
Reach-IsSafe_example = Reach-IsSafe 7 (8 ∷ 7 ∷ []) second waits_again Reach-waits_again
