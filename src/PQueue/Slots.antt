-- ===== src/PQueue/Slots.antt =====
-- Counting entries, and the list operations of the queue.
use regclient.Base.{
  inl, inr, Bool-cases, Option-cases, ℕ, zero, suc, ◌+◌, ◌≤◌, ◌<◌, min, ◌≡◌, refl, some, List, [],
  ◌∷◌, ◌++◌, arith, ◌==◌, if◌then◌else◌, length, get_elem?,
}
use regclient.PQueue.{delete_at, remove, index_of}

-- How often an entry stands in a list.
abbrev pub count : ℕ → List ℕ → ℕ
count x [] = 0
count x (y ∷ ys) = (if y == x then 1 else 0) + count x ys

pub count-append : (x : ℕ) (ys zs : List ℕ) → count x (ys ++ zs) ≡ count x ys + count x zs
count-append x [] zs = omega arith
count-append x (y ∷ ys) zs = omega (arith, count-append x ys zs)

pub length-delete_at {ℓ} :
    {A : Type ℓ} (i : ℕ) (xs : List A) → i < length xs → length (delete_at i xs) + 1 ≡ length xs
length-delete_at i [] h = elim h [ ]
length-delete_at zero (x ∷ xs) h = omega arith
length-delete_at (suc i) (x ∷ xs) h = omega (arith, length-delete_at i xs (omega arith))

pub get_elem?-some {ℓ} :
    {A : Type ℓ} (i : ℕ) (xs : List A) → i < length xs → (a : A) × (get_elem? xs i ≡ some a)
get_elem?-some i [] h = elim h [ ]
get_elem?-some zero (x ∷ xs) h = (x, refl)
get_elem?-some (suc i) (x ∷ xs) h = get_elem?-some i xs (omega arith)

pub count-delete_at :
    (x i : ℕ) (xs : List ℕ) (e : ℕ)
    → get_elem? xs i ≡ some e
    → count x (delete_at i xs) + (if e == x then 1 else 0) ≡ count x xs
count-delete_at x i [] e h = ground arith
count-delete_at x zero (y ∷ ys) e h = ground arith
count-delete_at x (suc i) (y ∷ ys) e h = omega (arith, count-delete_at x i ys e h)

pub length-remove : (e : ℕ) (xs : List ℕ) → length (remove e xs) ≤ length xs
unfolding remove
length-remove e [] = omega arith
length-remove e (x ∷ xs) = ground (arith, length-remove e xs)

pub length-remove_member :
    (e : ℕ) (xs : List ℕ) → 0 < count e xs → length (remove e xs) + 1 ≡ length xs
unfolding remove
length-remove_member e [] h = elim h [ ]
length-remove_member e (x ∷ xs) h = ground (arith, length-remove_member e xs)

pub remove_absent : (e : ℕ) (xs : List ℕ) → count e xs ≡ 0 → remove e xs ≡ xs
unfolding remove
remove_absent e [] h = refl
remove_absent e (x ∷ xs) h = ground (arith, remove_absent e xs)

pub count-remove :
    (x e : ℕ) (xs : List ℕ)
    → count x (remove e xs) + (if e == x then min 1 (count e xs) else 0) ≡ count x xs
unfolding remove
count-remove x e [] = ground arith
count-remove x e (y ∷ ys) = ground (arith, count-remove x e ys)

-- At most one entry is deleted.
pub length-remove_drop : (e : ℕ) (xs : List ℕ) → length xs ≤ length (remove e xs) + 1
unfolding remove
length-remove_drop e [] = omega arith
length-remove_drop e (x ∷ xs) = ground (arith, length-remove_drop e xs)

pub index_of-lt : (e : ℕ) (xs : List ℕ) (i : ℕ) → index_of e xs ≡ some i → i < length xs
unfolding index_of
index_of-lt e [] i h = ground arith
index_of-lt e (x ∷ xs) i h = elim (Bool-cases (x == e)) [
  | inl hit ↦ ground arith
  | inr miss ↦ elim (Option-cases (index_of e xs)) [
    | inl absent ↦ ground arith
    | inr (j, found) ↦ ground (arith, index_of-lt e xs j)
  ]
]

-- The first copy is the one that is deleted.
pub remove-append :
    (e : ℕ) (xs ys : List ℕ) → 0 < count e xs → remove e (xs ++ ys) ≡ remove e xs ++ ys
unfolding remove
remove-append e [] ys h = elim h [ ]
remove-append e (x ∷ xs) ys h = ground (arith, remove-append e xs ys)
