-- ===== src/Muset/Dedup.antt =====
-- The removal of duplicates.
use regclient.Base.{ℕ, ◌≡◌, refl, Bool, true, not, ◌&&◌, ◌||◌, List, [], ◌∷◌, arith, ◌==◌, any}
use regclient.Muset.{last_of, init_of, refill, sweep, dedup}

abbrev pub contains : List ℕ → ℕ → Bool
contains ms a = any (λ m. m == a) ms

unfoldable pub distinct : List ℕ → Bool
distinct [] = true
distinct (m ∷ ms) = not (contains ms m) && distinct ms

contains-init_of :
    (y a : ℕ) (ys : List ℕ)
    → (last_of y ys == a || contains (init_of y ys) a) ≡ (y == a || contains ys a)
unfolding last_of init_of
contains-init_of y a [] = refl
contains-init_of y a (z ∷ zs) = ground (arith, contains-init_of z a zs)

distinct-init_of :
    (y : ℕ) (ys : List ℕ) → distinct (y ∷ ys) ≡ true → distinct (last_of y ys ∷ init_of y ys) ≡ true
unfolding last_of init_of distinct
distinct-init_of y [] h = refl
distinct-init_of y (z ∷ zs) h =
    ground
      (arith, distinct-init_of z zs, contains-init_of z y zs, contains-init_of z (last_of z zs) zs)

contains-refill : (a : ℕ) (ys : List ℕ) → contains (refill ys) a ≡ contains ys a
unfolding refill
contains-refill a [] = refl
contains-refill a (y ∷ ys) = contains-init_of y a ys

distinct-refill : (ys : List ℕ) → distinct ys ≡ true → distinct (refill ys) ≡ true
unfolding refill
distinct-refill [] h = h
distinct-refill (y ∷ ys) h = distinct-init_of y ys h

contains-sweep : (x a : ℕ) (ys : List ℕ) → contains (sweep x ys) a ≡ (not (x == a) && contains ys a)
unfolding sweep
contains-sweep x a [] = ground arith
contains-sweep x a (y ∷ ys) = ground (arith, contains-sweep x a ys, contains-refill a (sweep x ys))

distinct-sweep : (x : ℕ) (ys : List ℕ) → distinct ys ≡ true → distinct (sweep x ys) ≡ true
unfolding sweep distinct
distinct-sweep x [] h = refl
distinct-sweep x (y ∷ ys) h =
    ground (arith, distinct-sweep x ys, distinct-refill (sweep x ys), contains-sweep x y ys)

-- The list without duplicates has the same mutexes, and each of them once.
pub dedup-distinct :
    (ms : List ℕ) → (distinct (dedup ms) ≡ true) × ((a : ℕ) → contains (dedup ms) a ≡ contains ms a)
unfolding dedup distinct
dedup-distinct [] = (refl, λ a. refl)
dedup-distinct (m ∷ ms) =
    let (d, c) = dedup-distinct ms in
    (
      ground (arith, distinct-sweep m (dedup ms) d, contains-sweep m m (dedup ms)),
      λ a. ground (arith, contains-sweep m a (dedup ms), c a),
    )
