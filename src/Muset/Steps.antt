-- ===== src/Muset/Steps.antt =====
-- `Lock` step by step, among other goroutines: each call of `Lock`, `TryLock` and `Unlock` on a mutex
-- is a step of its own, and the others may lock and unlock mutexes between any two of them.
use regclient.Base.{
  ℕ, zero, suc, ◌+◌, ◌≤◌, ◌<◌, ◌≡◌, refl, ap, ◌≢◌, Bool, true, false, not, ◌&&◌, ◌||◌, some, List,
  [], ◌∷◌, arith, ltb, leb, ◌==◌, some-injective, length, get_elem?,
}
use regclient.Muset.{Store, lock, unlock}
use regclient.Muset.Dedup.{contains, distinct}

-- Where the call is: it waits for a mutex, tries the one at an index, unlocks from an index on behind
-- a mutex that blocks, or has returned.
pub data Phase : Type 0 where
  waiting : ℕ → Phase
  trying : ℕ → ℕ → Phase
  releasing : ℕ → ℕ → ℕ → Phase
  returned : Phase

-- The mutexes that are locked by anyone, and the indices of the list that this call has locked.
pub record Config : Type 0 where
  pub phase : Phase
  pub store : Store
  pub held : ℕ → Bool

abbrev pub holds : ℕ → (ℕ → Bool) → ℕ → Bool
holds i held j = i == j || held j

abbrev pub gives_up : ℕ → (ℕ → Bool) → ℕ → Bool
gives_up i held j = not (i == j) && held j

abbrev pub at_phase : Config → Phase → Config
at_phase c p = record c { phase = p }

abbrev pub locked_at : Config → ℕ → ℕ → Phase → Config
locked_at c i m p = record { phase = p; store = lock m c.store; held = holds i c.held }

abbrev pub unlocked_at : Config → ℕ → ℕ → Phase → Config
unlocked_at c i m p = record { phase = p; store = unlock m c.store; held = gives_up i c.held }

-- A step of the loop over a list of mutexes, or of the others, who leave alone what this call holds.
pub data Step (ms : List ℕ) (c : Config) : Config → Type 0 where
  others :
      (store : Store)
      → ((i m : ℕ) → c.held i ≡ true → get_elem? ms i ≡ some m → store m ≡ c.store m)
      → Step ms c (record c { store = store })
  blocked_lock :
      (last m : ℕ)
      → c.phase ≡ waiting last
      → get_elem? ms last ≡ some m
      → c.store m ≡ false
      → Step ms c (locked_at c last m (trying last 0))
  skip : (last : ℕ) → c.phase ≡ trying last last → Step ms c (at_phase c (trying last (last + 1)))
  try_lock :
      (last i m : ℕ)
      → c.phase ≡ trying last i
      → i ≢ last
      → get_elem? ms i ≡ some m
      → c.store m ≡ false
      → Step ms c (locked_at c i m (trying last (i + 1)))
  try_fails :
      (last i m : ℕ)
      → c.phase ≡ trying last i
      → i ≢ last
      → get_elem? ms i ≡ some m
      → c.store m ≡ true
      → Step ms c (at_phase c (releasing last i 0))
  all_locked : (last : ℕ) → c.phase ≡ trying last (length ms) → Step ms c (at_phase c returned)
  unlocks :
      (last b i m : ℕ)
      → c.phase ≡ releasing last b i
      → (ltb i b || i == last) ≡ true
      → get_elem? ms i ≡ some m
      → Step ms c (unlocked_at c i m (releasing last b (i + 1)))
  keeps :
      (last b i : ℕ)
      → c.phase ≡ releasing last b i
      → i < length ms
      → (ltb i b || i == last) ≡ false
      → Step ms c (at_phase c (releasing last b (i + 1)))
  blocks :
      (last b : ℕ) → c.phase ≡ releasing last b (length ms) → Step ms c (at_phase c (waiting b))

-- The call before its first step, and what any number of steps lead to.
abbrev pub begun : Store → Config
begun store = record { phase = waiting 0; store = store; held = λ j. false }

pub data Reach (ms : List ℕ) (store : Store) : Config → Type 0 where
  start : Reach ms store (begun store)
  later : {c c' : Config} → Reach ms store c → Step ms c c' → Reach ms store c'

-- What this call holds in a phase.
abbrev pub HeldIn : ℕ → Phase → (ℕ → Bool) → Type 0
HeldIn n (waiting last) held = (last < n) × ((j : ℕ) → held j ≡ false)
HeldIn n (trying last i) held = (last < n) × (i ≤ n) × ((j : ℕ) → held j ≡ (ltb j i || j == last))
HeldIn n (releasing last b i) held =
    (last < n) × (b < n) × (i ≤ n) × ((j : ℕ) → held j ≡ (leb i j && (ltb j b || j == last)))
HeldIn n returned held = (j : ℕ) → held j ≡ ltb j n

pub record IsSound (ms : List ℕ) (c : Config) : Type 0 where
  pub holding : HeldIn (length ms) c.phase c.held
  pub locked : (i m : ℕ) → c.held i ≡ true → get_elem? ms i ≡ some m → c.store m ≡ true

-- An index of a list is within its length.
pub get_elem?-length : (ms : List ℕ) (i m : ℕ) → get_elem? ms i ≡ some m → i < length ms
get_elem?-length [] i m h = absurd cc
get_elem?-length (x ∷ xs) zero m h = omega arith
get_elem?-length (x ∷ xs) (suc i) m h = omega (arith, get_elem?-length xs i m h)

get_elem?-contains : (ms : List ℕ) (i m : ℕ) → get_elem? ms i ≡ some m → contains ms m ≡ true
get_elem?-contains [] i m h = absurd cc
get_elem?-contains (x ∷ xs) zero m h = ground (arith, some-injective h)
get_elem?-contains (x ∷ xs) (suc i) m h = ground (arith, get_elem?-contains xs i m h)

-- A mutex of a list without duplicates stands at one index.
pub get_elem?-distinct :
    (ms : List ℕ) (i j m : ℕ)
    → distinct ms ≡ true
    → get_elem? ms i ≡ some m
    → get_elem? ms j ≡ some m
    → i ≡ j
unfolding distinct
get_elem?-distinct [] i j m d h k = absurd cc
get_elem?-distinct (x ∷ xs) zero zero m d h k = refl
get_elem?-distinct (x ∷ xs) zero (suc j) m d h k =
    ground (arith, some-injective h, get_elem?-contains xs j m k)
get_elem?-distinct (x ∷ xs) (suc i) zero m d h k =
    ground (arith, some-injective k, get_elem?-contains xs i m h)
get_elem?-distinct (x ∷ xs) (suc i) (suc j) m d h k =
    ap suc (get_elem?-distinct xs i j m (ground (arith, d)) h k)
