-- ===== src/Cache/Counts.antt =====
-- The number of entries of a cache.
use regclient.Base.{
  ℕ, suc, ◌+◌, ◌-◌, ◌≤◌, ◌≡◌, refl, sym, ap, ◌∙◌, inl, inr, Bool, true, false, not, ◌&&◌, ◌||◌,
  List, [], ◌∷◌, arith, ltb, Bool-cases, is_some, length, all,
}
use regclient.Base.Text.{Eq}
use regclient.Cache.{Entry, Cache, key_list, prune_loop, prune_locked, set}
use regclient.Base.Maps.{lookup, insert, delete, lookup-insert, lookup-delete}

module _ {ℓ κ} {K : Type ℓ} {W : Type κ} ⦃e : Eq K⦄ where
  unfoldable pub has : K → List (K × W) → Bool
  has k m = is_some (lookup k m)

  -- No key comes twice.
  unfoldable pub distinct : List (K × W) → Bool
  distinct [] = true
  distinct ((k, w) ∷ m) = not (has k m) && distinct m

  pub has-all : (k : K) (m : List (K × W)) → has k m ≡ not (all (λ q. not (e.beq q.0 k)) m)
  unfolding has lookup
  has-all k [] = refl
  has-all k ((j, w) ∷ m) = ground (arith, has-all k m)

  pub has-cons : (k j : K) (w : W) (m : List (K × W)) → has k ((j, w) ∷ m) ≡ (e.beq j k || has k m)
  unfolding has lookup
  has-cons k j w m = ground arith

  pub distinct_cons :
      (k : K) (w : W) (m : List (K × W))
      → distinct ((k, w) ∷ m) ≡ true
      → (has k m ≡ false) × (distinct m ≡ true)
  unfolding distinct
  distinct_cons k w m h = ground arith

  pub has-delete : (k j : K) (m : List (K × W)) → has j (delete k m) ≡ (not (e.beq k j) && has j m)
  unfolding has
  has-delete k j m = ground (arith, lookup-delete k j m)

  pub has-insert :
      (k j : K) (w : W) (m : List (K × W)) → has j (insert k w m) ≡ (e.beq k j || has j m)
  unfolding has
  has-insert k j w m = ground (arith, lookup-insert k j w m)

  pub distinct-delete :
      (k : K) (m : List (K × W)) → distinct m ≡ true → distinct (delete k m) ≡ true
  unfolding distinct delete
  distinct-delete k [] h = refl
  distinct-delete k ((j, w) ∷ m) h = ground (arith, distinct-delete k m, has-delete k j m)

  distinct_one : (k : K) (w : W) → distinct ((k, w) ∷ []) ≡ true
  unfolding distinct has lookup
  distinct_one k w = refl

  pub distinct-insert :
      (k : K) (w : W) (m : List (K × W)) → distinct m ≡ true → distinct (insert k w m) ≡ true
  unfolding distinct insert
  distinct-insert k w [] h = distinct_one k w
  distinct-insert k w ((j, v) ∷ m) h =
      ground (arith, distinct-insert k w m, has-insert k j w m, e.beq_iff j k, e.beq_iff k j)

  pub delete-absent : (k : K) (m : List (K × W)) → has k m ≡ false → delete k m ≡ m
  unfolding delete has lookup
  delete-absent k [] h = refl
  delete-absent k ((j, w) ∷ m) h = ground (arith, delete-absent k m)

  -- A key that is there is one entry.
  pub length-delete :
      (k : K) (m : List (K × W))
      → distinct m ≡ true
      → has k m ≡ true
      → length (delete k m) + 1 ≡ length m
  unfolding delete has lookup distinct
  length-delete k [] d h = ground (arith, h)
  length-delete k ((j, w) ∷ m) d h =
      ground (arith, length-delete k m, delete-absent k m, e.beq_iff j k)

module _ {ℓ} {K : Type ℓ} ⦃e : Eq K⦄ where
  -- A reordering that keeps the members keeps the keys.
  has_sorted :
      (sort : List (K × ℕ) → List (K × ℕ))
      → ((p : K × ℕ → Bool) (ks : List (K × ℕ)) → all p (sort ks) ≡ all p ks)
      → (k : K) (ks : List (K × ℕ)) → has k (sort ks) ≡ has k ks
  has_sorted sort sort_all k ks =
      has-all k (sort ks) ∙ ap not (sort_all (λ q. not (e.beq q.0 k)) ks) ∙ sym (has-all k ks)

module _ {ℓ κ} {K : Type ℓ} {V : Type κ} ⦃e : Eq K⦄ where
  -- The keys of a list are entries of the map.
  unfoldable pub covered : List (K × ℕ) → List (K × Entry V) → Bool
  covered [] m = true
  covered ((k, u) ∷ ks) m = has k m && covered ks m

  pub covered-delete :
      (k : K) (ks : List (K × ℕ)) (m : List (K × Entry V))
      → has k ks ≡ false
      → covered ks m ≡ true
      → covered ks (delete k m) ≡ true
  unfolding covered
  covered-delete k [] m h c = refl
  covered-delete k ((j, u) ∷ ks) m h c = ground (
    arith,
    covered-delete k ks m,
    has-cons k j u ks,
    has-delete k j m,
    e.beq_iff j k,
    e.beq_iff k j,
  )

  -- The loop deletes at least as many entries as it is told to.
  pub prune_loop-length :
      (del now age : ℕ) (ks : List (K × ℕ)) (m : List (K × Entry V))
      → del ≤ length ks
      → covered ks m ≡ true
      → distinct ks ≡ true
      → distinct m ≡ true
      → (length (prune_loop del now age ks m).0 + del ≤ length m)
        × (distinct (prune_loop del now age ks m).0 ≡ true)
  unfolding prune_loop covered
  prune_loop-length del now age [] m l c d d' = (ground arith, d')
  prune_loop-length del now age ((k, u) ∷ ks) m l c d d' =
      elim (Bool-cases (ltb 0 del || ltb (u + age) now)) [
        | inl goes ↦
            let r =
              prune_loop-length (del - 1) now age ks (delete k m) (ground arith)
                (covered-delete k ks m (ground (arith, distinct_cons k u ks)) (ground arith))
                (ground (arith, distinct_cons k u ks)) (distinct-delete k m d') in
            rw goes (ground (arith, r.0, length-delete k m), r.1)
        | inr stays ↦ rw stays (ground (arith, stays), d')
      ]

  has-key_list : (k : K) (m : List (K × Entry V)) → has k (key_list m) ≡ has k m
  unfolding has lookup key_list
  has-key_list k [] = refl
  has-key_list k ((j, n) ∷ m) = ground (arith, has-key_list k m)

  pub distinct-key_list : (m : List (K × Entry V)) → distinct (key_list m) ≡ distinct m
  unfolding distinct key_list
  distinct-key_list [] = refl
  distinct-key_list ((j, n) ∷ m) = rw (has-key_list j m, distinct-key_list m) refl

  pub length-key_list : (m : List (K × Entry V)) → length (key_list m) ≡ length m
  unfolding key_list
  length-key_list [] = refl
  length-key_list ((j, n) ∷ m) = ap suc (length-key_list m)

  pub covered-has :
      (ks : List (K × ℕ)) (m : List (K × Entry V))
      → ((k : K) → has k ks ≡ true → has k m ≡ true)
      → covered ks m ≡ true
  unfolding covered
  covered-has [] m h = refl
  covered-has ((k, u) ∷ ks) m h = ground (
    arith,
    h k,
    has-cons k k u ks,
    e.beq_iff k k,
    covered-has ks m (λ j q. h j (ground (arith, has-cons j k u ks))),
  )

  -- The keys are distinct, and the limit below which a prune ends is within the limit of the count.
  pub record IsWellFormed (c : Cache K V) : Type 0 where
    pub keys : distinct c.entries ≡ true
    pub limits : c.min_count ≤ c.max_count

  module _ (sort : List (K × ℕ) → List (K × ℕ))
      (sort_length : (ks : List (K × ℕ)) → length (sort ks) ≡ length ks)
      (sort_all : (p : K × ℕ → Bool) (ks : List (K × ℕ)) → all p (sort ks) ≡ all p ks)
      (sort_distinct : (ks : List (K × ℕ)) → distinct ks ≡ true → distinct (sort ks) ≡ true) where
    -- A prune leaves at most `minCount` entries.
    pub prune_locked-length :
        (now : ℕ) (c : Cache K V)
        → distinct c.entries ≡ true
        → c.min_count ≤ length c.entries
        → (length (prune_locked sort now c).entries ≤ c.min_count)
          × (distinct (prune_locked sort now c).entries ≡ true)
    unfolding prune_locked
    prune_locked-length now c d l =
        let ks = sort (key_list c.entries) in
        let r =
          prune_loop-length (length c.entries - c.min_count) now c.min_age ks c.entries
            (ground (arith, sort_length (key_list c.entries), length-key_list c.entries))
            (covered-has ks c.entries (λ k h.
              sym (has_sorted sort sort_all k (key_list c.entries) ∙ has-key_list k c.entries) ∙ h))
            (sort_distinct (key_list c.entries) (distinct-key_list c.entries ∙ d)) d in
        (ground (arith, r.0), r.1)

    limits_kept :
        (now : ℕ) (c : Cache K V)
        → c.min_count ≤ c.max_count
        → (prune_locked sort now c).min_count ≤ (prune_locked sort now c).max_count
    unfolding prune_locked
    limits_kept now c h = h

    -- After `Set` a cache holds at most `maxCount` entries, however many it held before, and stays
    -- well formed; `sort.Sort` reorders the keys.
    pub set-IsWellFormed :
        (t1 t2 : ℕ) (k : K) (v : V) (c : Cache K V)
        → IsWellFormed c
        → IsWellFormed (set sort t1 t2 k v c)
          × (length (set sort t1 t2 k v c).entries ≤ c.max_count)
    unfolding set
    set-IsWellFormed t1 t2 k v c w =
        let stored = record c { entries = insert k (record { used = t1; value = v }) c.entries } in
        let d = distinct-insert k (record { used = t1; value = v }) c.entries w.keys in
        elim (Bool-cases (ltb c.max_count (length stored.entries))) [
          | inl full ↦
              let r = prune_locked-length t2 stored d (ground (arith, full, w.limits)) in
              rw full (
                record { keys = r.1; limits = limits_kept t2 stored w.limits },
                ground (arith, r.0, w.limits),
              )
          | inr room ↦ rw room (record { keys = d; limits = w.limits }, ground (arith, room))
        ]
