-- ===== src/Reghttp/Tests.antt =====
-- Runs of the backoff and of the loop, and instances of their theorems.
use regclient.Base.{
  ℕ, ◌-◌, ◌+◌, ◌==◌, if◌then◌else◌, ◌<◌, ◌⊎◌, ◌≡◌, refl, ap, inl, true, false, Option, none, some,
  List, [], ◌∷◌, arith, leb, length,
}
use regclient.Base.Int.{half}
use regclient.Errs.{err, not_found, http_status}
use regclient.Reghttp.Backoff.{
  Limits, HostState, shift_left, delay_bits, backoff_get, backoff_set, backoff_clear,
}
use regclient.Reghttp.Delay.{
  Event, waits, fails, succeeds, step, needed, doubled, IsValid, backoff_get-doubled,
  backoff_get-wraps, run, clears, clears-run,
}
use regclient.Reghttp.Next.{
  Request, answered, request_blocked, Ending, returns, blocks, http_error, judge_status, judge,
  Turn, Loop, delete_at, learn, drops, fail_over, go_on, prepare, conclude, attempt, try_host,
  turn_over, turn, loop, next,
}
use regclient.Base.Text.{codes}
use regclient.Reghttp.Order.{Host, is_before, sort_hosts_cmp, sort_hosts_cmp-upstream}
use regclient.Reghttp.Bounds.{IsReturn, next-IsReturn}
use regclient.Reghttp.NotFound.{IsMissing, next-not_found}

-- The limits that the client has by default.
abbrev limits : Limits
limits = record { retry_limit = 5; delay_init = 100000000; delay_max = 30000000000 }

abbrev fresh : HostState
fresh = record { backoff_cur = 0; backoff_last = none; backoff_reset = 0 }

fresh-IsValid : IsValid fresh
fresh-IsValid = record { dated = inl refl; counted = omega arith }

-- With these limits the delay is lost from the 37th failure in a row on, now and then.
lost_37 : leb half (shift_left limits.delay_init 37) ≡ true
unfolding shift_left
lost_37 = refl

lost_56 : shift_left limits.delay_init 56 ≡ 0
unfolding shift_left
lost_56 = refl

abbrev failing : ℕ → HostState
failing n = record { backoff_cur = n; backoff_last = some 7; backoff_reset = 2 }

backoff_get-doubled_example :
    ((backoff_get limits 9 (failing 3)).0 ≡ some 800000007)
    × ((backoff_get limits 9 (failing 3)).1.backoff_last ≡ some 800000007)
unfolding doubled
backoff_get-doubled_example =
    backoff_get-doubled limits 9 7 (failing 3) (λ e. ground arith) refl (omega arith) (omega arith)

backoff_get-wraps_example : (backoff_get limits 9 (failing 70)).0 ≡ some 9
backoff_get-wraps_example = backoff_get-wraps limits 9 7 6 (failing 70) refl refl

-- Two failures, of which the second is told to wait by the host, and a success.
abbrev history : List Event
history = fails 5 0 ∷ waits 6 ∷ fails 7 0 ∷ fails 8 900 ∷ succeeds ∷ []

flaky : HostState
flaky = run limits fresh history

history_flaky : (flaky.backoff_cur ≡ 2) × (needed flaky ≡ 11)
unfolding flaky run step backoff_set backoff_get backoff_clear delay_bits shift_left
history_flaky = (refl, refl)

clears-run_example :
    ((clears limits (needed flaky) flaky).backoff_cur ≡ 0)
    × ((clears limits (needed flaky) flaky).backoff_last ≡ none)
    × ((now : ℕ) → (backoff_get limits now (clears limits (needed flaky) flaky)).0 ≡ none)
    × ((limits.retry_limit < flaky.backoff_cur)
        ⊎ ((clears limits (needed flaky - 1) flaky).backoff_cur ≡ 1))
unfolding flaky
clears-run_example =
    clears-run limits fresh history fresh-IsValid (λ e. omega (arith, history_flaky.0, e))

abbrev pull : Request
pull = record { no_mirrors = false; ignore_err = false; has_range = false; read_cur = 0 }

abbrev answer : ℕ → ℕ → Turn
answer status n = record {
  before_get = λ states. states;
  before_set = λ states. states;
  event = answered status none none false;
  now_get = n;
  now_set = n;
  retry_after = 0;
}

abbrev by_order : List ℕ → List ℕ
by_order hs = hs

answer-IsMissing : (n : ℕ) → IsMissing (answer 404 n).event
answer-IsMissing n = (none, none, false, refl)

next-not_found_example :
    (l' : Loop) × (next by_order limits pull (answer 404) (1 ∷ 2 ∷ []) 9 0 0 (λ h. fresh)
      ≡ some (returns (err not_found), l'))
    × (l'.tried ≡ 1 ∷ 2 ∷ 9 ∷ [])
next-not_found_example =
    next-not_found by_order limits pull (answer 404) (1 ∷ 2 ∷ []) 9 0 0 (λ h. fresh) refl
      answer-IsMissing 1 (2 ∷ 9 ∷ []) refl (omega arith)

-- A request to an overloaded host fails with the status.
outcome : Option (Ending × Loop) → Option Ending
outcome none = none
outcome (some (o, l)) = some o

overloaded :
    outcome (next by_order limits pull (answer 503) [] 9 0 0 (λ h. fresh))
    ≡ some (returns (err http_status))
unfolding outcome next loop turn turn_over try_host attempt conclude prepare fail_over go_on drops
    judge judge_status http_error backoff_set backoff_get delay_bits shift_left delete_at learn
overloaded = refl

-- The other requests fail at every host in between, and the third call is not answered.
abbrev busy : ℕ → Turn
busy n = record (answer 500 n) {
  event = if n == 2 then request_blocked else answered 500 none none false;
  before_get = λ states h. failing (n + 1);
  before_set = λ states h. failing (n + 2);
}

busy_blocks : outcome (next by_order limits pull busy (1 ∷ []) 9 0 0 (λ h. fresh)) ≡ some blocks
unfolding outcome next loop turn turn_over try_host attempt conclude prepare fail_over go_on drops
    judge judge_status http_error backoff_set backoff_get delay_bits shift_left delete_at learn
busy_blocks = refl

next-IsReturn_example :
    (o : Ending) × (l' : Loop) × (next by_order limits pull busy (1 ∷ []) 9 0 0 (λ h. fresh)
      ≡ some (o, l'))
    × IsReturn limits busy (1 ∷ 9 ∷ []) 0 0 o l'
next-IsReturn_example = next-IsReturn by_order limits pull busy (1 ∷ []) 9 0 0 (λ h. fresh)

abbrev mirror_cluster : Host
mirror_cluster = record { name = codes "mirror-cluster:5000"; priority = 5; backoff_last = some 3 }

abbrev docker : Host
docker = record { name = codes "docker.io"; priority = 5; backoff_last = none }

abbrev mirror_other : Host
mirror_other = record docker { name = codes "other" }

sort_hosts_cmp-upstream_example :
    (sort_hosts_cmp 9 docker.name mirror_cluster docker ≡ true)
    × (sort_hosts_cmp 9 docker.name docker mirror_cluster ≡ false)
    × (sort_hosts_cmp 9 docker.name mirror_cluster mirror_other ≡ true)
    × (sort_hosts_cmp 9 docker.name mirror_other mirror_cluster ≡ true)
unfolding is_before
sort_hosts_cmp-upstream_example =
    sort_hosts_cmp-upstream 9 docker.name mirror_cluster mirror_other docker
      (record { free = refl }) (record { free = refl }) (record { free = refl }) refl refl
      (λ e. ground (arith, ap length e)) (λ e. ground (arith, ap length e)) refl
