-- ===== src/Cache.antt =====
-- internal/cache/cache.go: a cache with limits of age and of count. Times and ages are numbers of
-- nanoseconds; an operation takes what `time.Now` returns in it. The nil cache is left out.
pub mod Counts
pub mod Fresh
mod Tests
use regclient.Base.{
  ℕ, zero, suc, ◌+◌, ◌-◌, ◌*◌, ◌/◌, ◌%◌, ◌≤◌, ◌<◌, min, String, ◌≡◌, refl, sym, ap, ◌∙◌, ◌≢◌, ◌↔◌,
  ◌⊎◌, inl, inr, Bool, true, false, not, ◌&&◌, ◌||◌, Option, none, some, List, [], ◌∷◌, ◌++◌, map,
  arith, ltb, leb, ◌==◌, ==_iff, if◌then◌else◌, Bool-cases, Option-cases, some-injective, is_some,
  length, get_elem?, take, drop, length-append, length-take, All, All-append, In, Nowhere, any, all,
}
use regclient.Base.Text.{Eq}
use regclient.Base.Maps.{lookup, insert, delete}
use regclient.Errs.{Result, ok, err, not_found}

-- `Entry`.
pub record Entry {ℓ} (V : Type ℓ) : Type ℓ where
  pub used : ℕ
  pub value : V

-- `Cache`; the timer is the time that it is set to.
pub record Cache {ℓ κ} (K : Type ℓ) (V : Type κ) : Type (ℓ ⊔ κ) where
  pub min_age : ℕ
  pub max_age : ℕ
  pub min_count : ℕ
  pub max_count : ℕ
  pub timer : Option ℕ
  pub entries : List (K × Entry V)

abbrev pub is_empty {ℓ} : {A : Type ℓ} → List A → Bool
is_empty [] = true
is_empty (x ∷ xs) = false

-- `int(float64(n) * 0.9)`, which is this number for every count below 2 ^ 50.
unfoldable pub nine_tenths : ℕ → ℕ
nine_tenths n = 9 * n / 10

module _ {ℓ κ} {K : Type ℓ} {V : Type κ} ⦃e : Eq K⦄ where
  -- `New` with the values of `WithAge` and `WithCount`, zero where the option is not given.
  unfoldable pub new : ℕ → ℕ → Cache K V
  new age count = record {
    min_age = age;
    max_age = age + age / 10;
    min_count = if ltb 0 count then nine_tenths count else 0;
    max_count = count;
    timer = none;
    entries = [];
  }

  -- The keys with their times, in the order of the map's entries.
  unfoldable pub key_list : List (K × Entry V) → List (K × ℕ)
  key_list [] = []
  key_list ((k, n) ∷ m) = (k, n.used) ∷ key_list m

  -- The loop of `pruneLocked` over the sorted keys: `del` entries go whatever their age. The time
  -- of the first entry that stays is returned with the entries.
  unfoldable pub prune_loop :
      ℕ → ℕ → ℕ → List (K × ℕ) → List (K × Entry V) → List (K × Entry V) × Option ℕ
  prune_loop del now age [] m = (m, none)
  prune_loop del now age ((k, used) ∷ ks) m =
      let rest = prune_loop (del - 1) now age ks (delete k m) in
      if ltb 0 del || ltb (used + age) now then rest else (m, some used)

  -- `Delete`.
  unfoldable pub delete_key : K → Cache K V → Cache K V
  delete_key k c =
      let left = delete k c.entries in
      record c { entries = left; timer = if is_empty left then none else c.timer }

  -- `Get` at two readings of the clock: the value, whether a prune is started beside, and the cache.
  unfoldable pub get : ℕ → ℕ → K → Cache K V → Result V × Bool × Cache K V
  get t1 t2 k c = elim (lookup k c.entries) [
    | none ↦ (err not_found, false, c)
    | some n ↦
        if ltb (n.used + c.min_age) t1
        then (err not_found, true, c)
        else (ok n.value, false, record c { entries = insert k (record n { used = t2 }) c.entries })
  ]

  -- `sort.Sort` on the keys by their times.
  module _ (sort : List (K × ℕ) → List (K × ℕ)) where
    -- `pruneLocked`.
    unfoldable pub prune_locked : ℕ → Cache K V → Cache K V
    prune_locked now c =
        let result =
          prune_loop (length c.entries - c.min_count) now c.min_age (sort (key_list c.entries))
            c.entries in
        record c {
          entries = result.0;
          timer =
              if is_empty result.0
              then none
              else some (elim result.1 [ none ↦ now | some next ↦ next ] + c.max_age);
        }

    -- `Set` at two readings of the clock.
    unfoldable pub set : ℕ → ℕ → K → V → Cache K V → Cache K V
    set t1 t2 k v c =
        let stored = record c { entries = insert k (record { used = t1; value = v }) c.entries } in
        if ltb c.max_count (length stored.entries) then prune_locked t2 stored else record stored {
          timer = elim stored.timer [ none ↦ some (t2 + c.max_age) | some t ↦ some t ];
        }
