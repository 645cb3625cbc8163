-- ===== src/Cache/Tests.antt =====
-- Runs of the cache, and instances of its theorems.
use regclient.Base.{
  ℕ, suc, ◌≤◌, ◌≡◌, refl, sym, ap, ◌∙◌, Bool, true, false, ◌&&◌, ◌||◌, some, List, [], ◌∷◌, arith,
  leb, ◌==◌, if◌then◌else◌, length, all,
}
use regclient.Base.Text.{nat_eq}
use regclient.Base.Maps.{lookup, insert, delete}
use regclient.Errs.{ok}
use regclient.Cache.{Cache, key_list, prune_loop, prune_locked, get, set}
use regclient.Cache.Counts.{has, distinct, distinct_cons, has-cons, IsWellFormed, set-IsWellFormed}
use regclient.Cache.Fresh.{ascending, get-set}

-- Insertion sort by time.
unfoldable place : ℕ × ℕ → List (ℕ × ℕ) → List (ℕ × ℕ)
place p [] = p ∷ []
place p (q ∷ qs) = let rest = place p qs in if leb p.1 q.1 then p ∷ q ∷ qs else q ∷ rest

unfoldable sort : List (ℕ × ℕ) → List (ℕ × ℕ)
sort [] = []
sort (p ∷ ps) = place p (sort ps)

length-place : (p : ℕ × ℕ) (ps : List (ℕ × ℕ)) → length (place p ps) ≡ suc (length ps)
unfolding place
length-place p [] = refl
length-place p (q ∷ qs) = ground (arith, length-place p qs)

length-sort : (ps : List (ℕ × ℕ)) → length (sort ps) ≡ length ps
unfolding sort
length-sort [] = refl
length-sort (p ∷ ps) = length-place p (sort ps) ∙ ap suc (length-sort ps)

all-place :
    (f : ℕ × ℕ → Bool) (p : ℕ × ℕ) (ps : List (ℕ × ℕ)) → all f (place p ps) ≡ (f p && all f ps)
unfolding place
all-place f p [] = refl
all-place f p (q ∷ qs) = ground (arith, all-place f p qs)

all-sort : (f : ℕ × ℕ → Bool) (ps : List (ℕ × ℕ)) → all f (sort ps) ≡ all f ps
unfolding sort
all-sort f [] = refl
all-sort f (p ∷ ps) = all-place f p (sort ps) ∙ ap (λ b. f p && b) (all-sort f ps)

has-place : (k : ℕ) (p : ℕ × ℕ) (ps : List (ℕ × ℕ)) → has k (place p ps) ≡ (p.0 == k || has k ps)
unfolding place has lookup
has-place k p [] = ground arith
has-place k p (q ∷ qs) = ground (arith, has-place k p qs)

distinct-place :
    (p : ℕ × ℕ) (ps : List (ℕ × ℕ))
    → has p.0 ps ≡ false
    → distinct ps ≡ true
    → distinct (place p ps) ≡ true
unfolding place distinct has lookup
distinct-place p [] h d = refl
distinct-place p (q ∷ qs) h d = ground (arith, distinct-place p qs, has-place q.0 p qs)

has-sort : (k : ℕ) (ps : List (ℕ × ℕ)) → has k (sort ps) ≡ has k ps
unfolding sort
has-sort k [] = refl
has-sort k (p ∷ ps) = has-place k p (sort ps) ∙ rw (has-sort k ps) (sym (has-cons k p.0 p.1 ps))

distinct-sort : (ps : List (ℕ × ℕ)) → distinct ps ≡ true → distinct (sort ps) ≡ true
unfolding sort
distinct-sort [] h = h
distinct-sort (p ∷ ps) h =
    let (x, y) = distinct_cons p.0 p.1 ps h in
    distinct-place p (sort ps) (has-sort p.0 ps ∙ x) (distinct-sort ps y)

all_later :
    (u w : ℕ) (ps : List (ℕ × ℕ))
    → u ≤ w
    → all (λ q. leb w q.1) ps ≡ true
    → all (λ q. leb u q.1) ps ≡ true
all_later u w [] h k = refl
all_later u w (q ∷ qs) h k = ground (arith, all_later u w qs)

ascending-place :
    (p : ℕ × ℕ) (ps : List (ℕ × ℕ)) → ascending ps ≡ true → ascending (place p ps) ≡ true
unfolding ascending place
ascending-place p [] h = refl
ascending-place p (q ∷ qs) h =
    ground (arith, ascending-place p qs, all-place (λ r. leb q.1 r.1) p qs, all_later p.1 q.1 qs)

ascending-sort : (ps : List (ℕ × ℕ)) → ascending (sort ps) ≡ true
unfolding sort ascending
ascending-sort [] = refl
ascending-sort (p ∷ ps) = ascending-place p (sort ps) (ascending-sort ps)

-- A cache for two entries that is full.
abbrev full : Cache ℕ ℕ
full = record {
  min_age = 100;
  max_age = 110;
  min_count = 1;
  max_count = 2;
  timer = some 200;
  entries = (1, record { used = 7; value = 70 }) ∷ (2, record { used = 5; value = 50 }) ∷ [];
}

full-IsWellFormed : IsWellFormed full
unfolding distinct has lookup
full-IsWellFormed = record { keys = refl; limits = ground arith }

evicts : (set sort 9 9 3 90 full).entries ≡ (3, record { used = 9; value = 90 }) ∷ []
unfolding set insert prune_locked prune_loop sort place key_list delete
evicts = refl

set-IsWellFormed_example :
    IsWellFormed (set sort 9 9 3 90 full) × (length (set sort 9 9 3 90 full).entries ≤ 2)
set-IsWellFormed_example =
    set-IsWellFormed sort length-sort all-sort distinct-sort 9 9 3 90 full full-IsWellFormed

get-set_example : (get 20 21 3 (set sort 9 9 3 90 full)).0 ≡ ok 90
get-set_example =
    get-set sort length-sort all-sort distinct-sort ascending-sort 9 9 20 21 3 90 full
      full-IsWellFormed (ground arith) refl (ground arith) (ground arith)
