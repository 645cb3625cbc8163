-- ===== src/Muset.antt =====
-- internal/muset/muset.go: the locking of a set of mutexes. A mutex is known by its address, and a
-- store says which mutexes are locked, by whomever.
pub mod Dedup
pub mod Round
pub mod Steps
pub mod Waits
mod Tests
use regclient.Base.{
  ℕ, zero, suc, ◌+◌, ◌-◌, ◌*◌, ◌/◌, ◌%◌, ◌≤◌, ◌<◌, min, String, ◌≡◌, refl, sym, ap, ◌∙◌, ◌≢◌, ◌↔◌,
  ◌⊎◌, inl, inr, Bool, true, false, not, ◌&&◌, ◌||◌, Option, none, some, List, [], ◌∷◌, ◌++◌, map,
  arith, ltb, leb, ◌==◌, ==_iff, if◌then◌else◌, Bool-cases, Option-cases, some-injective, is_some,
  length, get_elem?, take, drop, length-append, length-take, All, All-append, In, Nowhere, any, all,
}

-- The mutexes that are locked.
abbrev pub Store : Type 0
Store = ℕ → Bool

abbrev pub lock : ℕ → Store → Store
lock m s x = m == x || s x

abbrev pub unlock : ℕ → Store → Store
unlock m s x = not (m == x) && s x

-- The last of a list that is not empty, and those before it.
unfoldable pub last_of : ℕ → List ℕ → ℕ
last_of y [] = y
last_of y (z ∷ zs) = last_of z zs

unfoldable pub init_of : ℕ → List ℕ → List ℕ
init_of y [] = []
init_of y (z ∷ zs) = y ∷ init_of z zs

-- The place of a deleted entry, behind which the list stands, is filled with the last entry.
unfoldable pub refill : List ℕ → List ℕ
refill [] = []
refill (y ∷ ys) = last_of y ys ∷ init_of y ys

-- The inner loop of the removal of duplicates: the entries behind `x`, from the last one on.
unfoldable pub sweep : ℕ → List ℕ → List ℕ
sweep x [] = []
sweep x (y ∷ ys) = let swept = sweep x ys in if x == y then refill swept else y ∷ swept

-- The outer loop.
unfoldable pub dedup : List ℕ → List ℕ
dedup [] = []
dedup (x ∷ xs) = x ∷ sweep x (dedup xs)

-- The loop of `TryLock` from index `i` on: the index that blocks, if any.
unfoldable pub try_from : ℕ → ℕ → List ℕ → Store → Option ℕ × Store
try_from last_block i [] s = (none, s)
try_from last_block i (m ∷ ms) s =
    let skipped = try_from last_block (i + 1) ms s in
    let locked = try_from last_block (i + 1) ms (lock m s) in
    if i == last_block then skipped else if s m then (some i, s) else locked

-- The loop that unlocks from index `i` on.
unfoldable pub unlock_from : ℕ → ℕ → ℕ → List ℕ → Store → Store
unlock_from last_block next_block i [] s = s
unlock_from last_block next_block i (m ∷ ms) s =
    let opened = unlock_from last_block next_block (i + 1) ms (unlock m s) in
    let kept = unlock_from last_block next_block (i + 1) ms s in
    if ltb i next_block || i == last_block then opened else kept

-- One turn of the loop, from the moment at which the blocking `Lock` of the mutex `m` at
-- `lastBlock` returns: the index to block on next, if any.
unfoldable pub round : ℕ → ℕ → List ℕ → Store → Option ℕ × Store
round last_block m ms s =
    let tried = try_from last_block 0 ms (lock m s) in
    elim tried.0 [
      | none ↦ (none, tried.1)
      | some next_block ↦ (some next_block, unlock_from last_block next_block 0 ms tried.1)
    ]
