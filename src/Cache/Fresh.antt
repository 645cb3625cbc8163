-- ===== src/Cache/Fresh.antt =====
-- The entry that was stored last.
use regclient.Base.{
  ℕ, ◌+◌, ◌-◌, ◌≤◌, ◌≡◌, refl, ap, ◌∙◌, inl, inr, Bool, true, false, ◌&&◌, ◌||◌, some, List, [],
  ◌∷◌, arith, ltb, leb, ◌==◌, if◌then◌else◌, Bool-cases, length, all,
}
use regclient.Base.Text.{Eq}
use regclient.Errs.{ok}
use regclient.Cache.{Entry, Cache, key_list, prune_loop, prune_locked, get, set}
use regclient.Cache.Counts.{
  has, distinct, distinct_cons, distinct-insert, distinct-key_list, length-key_list, IsWellFormed,
}
use regclient.Base.Maps.{lookup, insert, delete, lookup-insert, lookup-delete}

module _ {ℓ} {K : Type ℓ} ⦃e : Eq K⦄ where
  -- The times do not go down.
  unfoldable pub ascending : List (K × ℕ) → Bool
  ascending [] = true
  ascending ((k, u) ∷ ks) = all (λ q. leb u q.1) ks && ascending ks

  -- The key has the time, and all other keys earlier ones.
  abbrev pub at_time : K → ℕ → K × ℕ → Bool
  at_time k u (j, w) = if e.beq j k then w == u else ltb w u

  abbrev pub newest : K → ℕ → List (K × ℕ) → Bool
  newest k u ks = all (at_time k u) ks

  -- Behind the newest key there is none.
  newest_last :
      (k : K) (u : ℕ) (ks : List (K × ℕ))
      → all (λ q. leb u q.1) ks ≡ true
      → has k ks ≡ false
      → newest k u ks ≡ true
      → ks ≡ []
  unfolding has lookup
  newest_last k u [] h n m = refl
  newest_last k u ((j, w) ∷ ks) h n m = ground arith

module _ {ℓ κ} {K : Type ℓ} {V : Type κ} ⦃e : Eq K⦄ where
  lookup-prune_end :
      (k : K) (del now age u : ℕ) (m : List (K × Entry V))
      → del ≡ 0
      → now ≤ u + age
      → lookup k (prune_loop del now age ((k, u) ∷ []) m).0 ≡ lookup k m
  unfolding prune_loop
  lookup-prune_end k del now age u m d l = ground arith

  -- The loop keeps the newest entry, if it is told to delete fewer than all and the entry is not
  -- too old.
  pub lookup-prune_loop :
      (k : K) (u del now age : ℕ) (ks : List (K × ℕ)) (m : List (K × Entry V))
      → del ≤ length ks - 1
      → ascending ks ≡ true
      → distinct ks ≡ true
      → newest k u ks ≡ true
      → now ≤ u + age
      → lookup k (prune_loop del now age ks m).0 ≡ lookup k m
  unfolding prune_loop ascending
  lookup-prune_loop k u del now age [] m l a d n t = refl
  lookup-prune_loop k u del now age ((j, w) ∷ ks) m l a d n t = elim (Bool-cases (e.beq j k)) [
    | inl here ↦
        let (x, y) = distinct_cons j w ks d in
        let q = newest_last k u ks (ground arith) (ground (arith, e.beq_iff j k)) (ground arith) in
        let z : length ks ≡ 0 = ap length q in
        let s : w ≡ u = ground (arith, n, here) in
        let stop : (ltb 0 del || ltb (w + age) now) ≡ false = ground (arith, z, s) in rw stop refl
    | inr there ↦ elim (Bool-cases (ltb 0 del || ltb (w + age) now)) [
      | inl goes ↦ rw goes (
          lookup-prune_loop k u (del - 1) now age ks (delete j m) (ground arith) (ground arith)
            (distinct_cons j w ks d).1 (ground arith) t
          ∙ ground (arith, lookup-delete j k m))
      | inr stays ↦ rw stays refl
    ]
  ]

  newest_absent :
      (k : K) (t : ℕ) (m : List (K × Entry V))
      → has k m ≡ false
      → all (λ q. ltb q.1.used t) m ≡ true
      → newest k t (key_list m) ≡ true
  unfolding key_list has lookup
  newest_absent k t [] n h = refl
  newest_absent k t ((j, n) ∷ m) a h = ground (arith, newest_absent k t m)

  newest-insert :
      (k : K) (t : ℕ) (v : V) (m : List (K × Entry V))
      → distinct m ≡ true
      → all (λ q. ltb q.1.used t) m ≡ true
      → newest k t (key_list (insert k (record { used = t; value = v }) m)) ≡ true
  unfolding key_list insert
  newest-insert k t v [] d h = ground (arith, e.beq_iff k k)
  newest-insert k t v ((j, n) ∷ m) d h =
      let (x, y) = distinct_cons j n m d in
      elim (Bool-cases (e.beq j k)) [
        | inl here ↦ rw here (ground (arith, e.beq_iff k k, e.beq_iff j k, newest_absent k t m, x))
        | inr there ↦ rw there (ground (arith, newest-insert k t v m y))
      ]

  module _ (sort : List (K × ℕ) → List (K × ℕ))
      (sort_length : (ks : List (K × ℕ)) → length (sort ks) ≡ length ks)
      (sort_all : (p : K × ℕ → Bool) (ks : List (K × ℕ)) → all p (sort ks) ≡ all p ks)
      (sort_distinct : (ks : List (K × ℕ)) → distinct ks ≡ true → distinct (sort ks) ≡ true)
      (sort_ascending : (ks : List (K × ℕ)) → ascending (sort ks) ≡ true) where
    lookup-prune_locked :
        (k : K) (t1 now : ℕ) (c : Cache K V)
        → 1 ≤ c.min_count
        → c.min_count ≤ length c.entries
        → distinct c.entries ≡ true
        → newest k t1 (key_list c.entries) ≡ true
        → now ≤ t1 + c.min_age
        → lookup k (prune_locked sort now c).entries ≡ lookup k c.entries
    unfolding prune_locked
    lookup-prune_locked k t1 now c a b d n l =
        let ks = key_list c.entries in
        lookup-prune_loop k t1 (length c.entries - c.min_count) now c.min_age (sort ks) c.entries
          (ground (arith, sort_length ks, length-key_list c.entries)) (sort_ascending ks)
          (sort_distinct ks (distinct-key_list c.entries ∙ d)) (sort_all (at_time k t1) ks ∙ n) l

    lookup-set :
        (t1 t2 : ℕ) (k : K) (v : V) (c : Cache K V)
        → IsWellFormed c
        → 1 ≤ c.min_count
        → all (λ q. ltb q.1.used t1) c.entries ≡ true
        → t2 ≤ t1 + c.min_age
        → lookup k (set sort t1 t2 k v c).entries ≡ some (record { used = t1; value = v })
    unfolding set
    lookup-set t1 t2 k v c w a n l =
        let n' : Entry V = record { used = t1; value = v } in
        let stored = record c { entries = insert k n' c.entries } in
        let found : lookup k stored.entries ≡ some n' =
          lookup-insert k k n' c.entries ∙ rw ((e.beq_iff k k).1 refl) refl in
        elim (Bool-cases (ltb c.max_count (length stored.entries))) [
          | inl full ↦ rw full (
              lookup-prune_locked k t1 t2 stored a (ground (arith, full, w.limits))
                (distinct-insert k n' c.entries w.keys) (newest-insert k t1 v c.entries w.keys n) l
              ∙ found)
          | inr room ↦ rw room found
        ]

    min_age-set :
        (t1 t2 : ℕ) (k : K) (v : V) (c : Cache K V) → (set sort t1 t2 k v c).min_age ≡ c.min_age
    unfolding set prune_locked
    min_age-set t1 t2 k v c =
        elim (Bool-cases
          (ltb c.max_count (length (insert k (record { used = t1; value = v }) c.entries)))) [
            | inl full ↦ rw full refl
            | inr room ↦ rw room refl
          ]

    -- A value that was stored is returned while it is not too old: after `Set` at a time later than
    -- that of every entry, in a well-formed cache whose prunes leave at least one entry, `Get`
    -- returns the value as long as the age limit is not exceeded, also if `Set` pruned the cache;
    -- for every sort that orders the keys by time.
    pub get-set :
        (t1 t2 t3 t4 : ℕ) (k : K) (v : V) (c : Cache K V)
        → IsWellFormed c
        → 1 ≤ c.min_count
        → all (λ q. ltb q.1.used t1) c.entries ≡ true
        → t2 ≤ t1 + c.min_age
        → t3 ≤ t1 + c.min_age
        → (get t3 t4 k (set sort t1 t2 k v c)).0 ≡ ok v
    unfolding get
    get-set t1 t2 t3 t4 k v c w a n l m =
        rw (lookup-set t1 t2 k v c w a n l, get, min_age-set t1 t2 k v c) (ground arith)
