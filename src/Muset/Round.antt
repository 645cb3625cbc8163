-- ===== src/Muset/Round.antt =====
-- One turn of the loop that locks: all or nothing.
use regclient.Base.{
  ℕ, zero, suc, ◌+◌, ◌≤◌, ◌<◌, ◌≡◌, refl, ◌∙◌, ◌≢◌, ◌⊎◌, inl, inr, Bool, true, false, not, ◌&&◌,
  ◌||◌, none, some, List, [], ◌∷◌, arith, ltb, ◌==◌, Bool-cases, Option-cases, some-injective,
  get_elem?,
}
use regclient.Muset.{Store, lock, unlock, try_from, unlock_from, round}
use regclient.Muset.Dedup.{contains, distinct}

-- The mutex stands at an index that is picked; the list begins at index `i`.
unfoldable pub picks : (ℕ → Bool) → ℕ → List ℕ → ℕ → Bool
picks p i [] x = false
picks p i (m ∷ ms) x = (p i && m == x) || picks p (i + 1) ms x

abbrev other : ℕ → ℕ → Bool
other last j = not (j == last)

abbrev before : ℕ → ℕ → ℕ → Bool
before last b j = ltb j b && not (j == last)

abbrev opened : ℕ → ℕ → ℕ → Bool
opened last b j = ltb j b || j == last

picks-opened :
    (last b i x : ℕ) (ms : List ℕ)
    → picks (opened last b) i ms x ≡ (picks (before last b) i ms x || picks (λ j. j == last) i ms x)
unfolding picks
picks-opened last b i x [] = refl
picks-opened last b i x (m ∷ ms) = ground (arith, picks-opened last b (i + 1) x ms)

picks-contains :
    (last i x : ℕ) (ms : List ℕ)
    → contains ms x ≡ (picks (other last) i ms x || picks (λ j. j == last) i ms x)
unfolding picks
picks-contains last i x [] = refl
picks-contains last i x (m ∷ ms) = ground (arith, picks-contains last (i + 1) x ms)

picks_absent :
    (p : ℕ → Bool) (i x : ℕ) (ms : List ℕ) → contains ms x ≡ false → picks p i ms x ≡ false
unfolding picks
picks_absent p i x [] h = refl
picks_absent p i x (m ∷ ms) h = ground (arith, picks_absent p (i + 1) x ms)

contains-get_elem? : (ms : List ℕ) (k x : ℕ) → get_elem? ms k ≡ some x → contains ms x ≡ true
contains-get_elem? [] k x h = ground (arith, h)
contains-get_elem? (m ∷ ms) zero x h = ground (arith, some-injective h)
contains-get_elem? (m ∷ ms) (suc k) x h = ground (arith, contains-get_elem? ms k x h)

-- In a list without duplicates a mutex is picked where it stands.
picks_at :
    (p : ℕ → Bool) (i k x : ℕ) (ms : List ℕ)
    → distinct ms ≡ true
    → get_elem? ms k ≡ some x
    → picks p i ms x ≡ p (i + k)
unfolding picks distinct
picks_at p i k x [] d h = ground (arith, h)
picks_at p i zero x (m ∷ ms) d h =
    let e : m ≡ x = some-injective h in ground (arith, e, picks_absent p (i + 1) x ms)
picks_at p i (suc k) x (m ∷ ms) d h =
    ground (arith, picks_at p (i + 1) k x ms, contains-get_elem? ms k x h)

picks_behind : (l i y : ℕ) (ms : List ℕ) → l < i → picks (λ j. j == l) i ms y ≡ false
unfolding picks
picks_behind l i y [] h = refl
picks_behind l i y (m ∷ ms) h = ground (arith, picks_behind l (i + 1) y ms (ground (arith, h)))

-- Only that mutex is picked at one index.
picks_only :
    (i k x y : ℕ) (ms : List ℕ)
    → get_elem? ms k ≡ some x
    → picks (λ j. j == i + k) i ms y ≡ (x == y)
unfolding picks
picks_only i k x y [] h = ground (arith, h)
picks_only i zero x y (m ∷ ms) h =
    let e : m ≡ x = some-injective h in
    ground (arith, e, picks_behind (i + 0) (i + 1) y ms (ground arith))
picks_only i (suc k) x y (m ∷ ms) h = ground (arith, picks_only (i + 1) k x y ms h)

unlock_from-picks :
    (last b i x : ℕ) (ms : List ℕ) (s : Store)
    → unlock_from last b i ms s x ≡ (s x && not (picks (opened last b) i ms x))
unfolding unlock_from picks
unlock_from-picks last b i x [] s = ground arith
unlock_from-picks last b i x (m ∷ ms) s = ground (
  arith,
  unlock_from-picks last b (i + 1) x ms s,
  unlock_from-picks last b (i + 1) x ms (unlock m s),
)

-- All the others were free and are locked.
try_from-none :
    (last i : ℕ) (ms : List ℕ) (s : Store)
    → (try_from last i ms s).0 ≡ none
    → (x : ℕ)
    → ((try_from last i ms s).1 x ≡ (s x || picks (other last) i ms x))
      × (picks (other last) i ms x ≡ true → s x ≡ false)
unfolding try_from picks
try_from-none last i [] s h x = (ground arith, λ q. ground (arith, q))
try_from-none last i (m ∷ ms) s h x = elim (Bool-cases (i == last)) [
  | inl skip ↦
      let r = try_from-none last (i + 1) ms s (rw (skip, try_from) at h) x in
      rw skip (ground (arith, r.0, skip), λ q. r.1 (ground (arith, q, skip)))
  | inr try ↦ elim (Bool-cases (s m)) [
    | inl blocked ↦ ground (arith, rw (try, blocked, try_from) at h)
    | inr free ↦
        let r = try_from-none last (i + 1) ms (lock m s) (rw (try, free, try_from) at h) x in
        rw (try, free) (ground (arith, r.0, try), λ q. ground (arith, q, r.1, free))
  ]
]

picks_late : (last b i x : ℕ) (ms : List ℕ) → b ≤ i → picks (before last b) i ms x ≡ false
unfolding picks
picks_late last b i x [] h = refl
picks_late last b i x (m ∷ ms) h =
    ground (arith, picks_late last b (i + 1) x ms (ground (arith, h)))

-- What holds when the mutex at an index blocks: those before it were free and are locked.
abbrev IsBlocked : ℕ → ℕ → ℕ → List ℕ → Store → Store → Type 0
IsBlocked last b i ms s s' =
    (k : ℕ) × (m : ℕ) × (b ≡ i + k)
    × (b ≢ last)
    × (get_elem? ms k ≡ some m)
    × ((s m || picks (before last b) i ms m) ≡ true)
    × ((x : ℕ)
        → (s' x ≡ (s x || picks (before last b) i ms x))
          × (picks (before last b) i ms x ≡ true → s x ≡ false))

try_from-some :
    (last b i : ℕ) (ms : List ℕ) (s : Store)
    → (try_from last i ms s).0 ≡ some b
    → IsBlocked last b i ms s (try_from last i ms s).1
unfolding try_from picks
try_from-some last b i [] s h = ground (arith, h)
try_from-some last b i (m ∷ ms) s h = elim (Bool-cases (i == last)) [
  | inl skip ↦
      let (k, m', e, n, g, l, r) = try_from-some last b (i + 1) ms s (rw (skip, try_from) at h) in
      rw skip (
        suc k,
        m',
        ground (arith, e),
        n,
        g,
        ground (arith, l, skip),
        λ x. (ground (arith, (r x).0, skip), λ q. (r x).1 (ground (arith, q, skip))),
      )
  | inr try ↦ elim (Bool-cases (s m)) [
    | inl blocked ↦
        let e : i ≡ b = some-injective (rw (try, blocked, try_from) at h) in
        let late = λ (x : ℕ). picks_late last b (i + 1) x ms (ground (arith, e)) in
        rw (try, blocked)
          (
            0,
            m,
            ground (arith, e),
            λ q. ground (arith, e, q),
            refl,
            ground (arith, blocked),
            λ x. (ground (arith, late x, e), λ q. ground (arith, late x, e, q)),
          )
    | inr free ↦
        let (k, m', e, n, g, l, r) =
          try_from-some last b (i + 1) ms (lock m s) (rw (try, free, try_from) at h) in
        rw (try, free)
          (
            suc k,
            m',
            ground (arith, e),
            n,
            g,
            ground (arith, l, try, e),
            λ x. (ground (arith, (r x).0, try, e), λ q. ground (arith, q, (r x).1, free)),
          )
  ]
]

-- A turn takes all the mutexes or none. When the blocking `Lock` of one mutex of a list without
-- duplicates returns, either all the others are free, and the turn ends with exactly the list
-- locked besides what was, or it names another mutex of the list that is locked already, and
-- leaves every mutex as it was before that `Lock`: nothing is held while it blocks again.
pub round-cases :
    (last m : ℕ) (ms : List ℕ) (s : Store)
    → distinct ms ≡ true
    → get_elem? ms last ≡ some m
    → s m ≡ false
    → (((round last m ms s).0 ≡ none)
        × ((x : ℕ)
            → ((round last m ms s).1 x ≡ (s x || contains ms x))
              × (contains ms x ≡ true → s x ≡ false)))
      ⊎ ((b : ℕ) × (m' : ℕ) × ((round last m ms s).0 ≡ some b)
          × (b ≢ last)
          × (get_elem? ms b ≡ some m')
          × (s m' ≡ true)
          × ((x : ℕ) → (round last m ms s).1 x ≡ s x))
unfolding round
round-cases last m ms s d g f = elim (Option-cases (try_from last 0 ms (lock m s)).0) [
  | inl all_free ↦
      let r = try_from-none last 0 ms (lock m s) all_free in
      inl (
        rw (all_free, round) refl,
        λ x.
            let c = picks-contains last 0 x ms in
            let o = picks_only 0 last m x ms g in
            rw (all_free, round)
              (ground (arith, (r x).0, c, o), λ q. ground (arith, (r x).1, c, o, q, f)),
      )
  | inr (b, blocks) ↦
      let (k, m', e, n, q, l, r) = try_from-some last b 0 ms (lock m s) blocks in
      inr (
        b,
        m',
        rw (blocks, round) refl,
        n,
        ground (arith, e, q),
        ground (
          arith,
          l,
          e,
          n,
          picks_at (before last b) 0 k m' ms d q,
          picks_at (λ j. j == last) 0 k m' ms d q,
          picks_only 0 last m m' ms g,
        ),
        λ x.
            let u = unlock_from-picks last b 0 x ms (try_from last 0 ms (lock m s)).1 in
            let p = picks-opened last b 0 x ms in
            let o = picks_only 0 last m x ms g in
            rw (blocks, round) (u ∙ ground (arith, (r x).0, (r x).1, p, o, f)),
      )
]
