-- ===== src/Muset/Waits.antt =====
-- What holds in every step of `Lock`: nothing is held while it waits, and all is held at the end.
use mathlib.Core.Path.{subst}
use regclient.Base.{
  ℕ, suc, ◌+◌, ◌<◌, ◌≡◌, refl, sym, ap, ◌∙◌, inl, inr, true, false, some, List, [], ◌∷◌, arith,
  ◌==◌, Bool-cases, some-injective, length, get_elem?,
}
use regclient.Muset.{dedup, Store, lock, unlock}
use regclient.Muset.Dedup.{contains, distinct, dedup-distinct}
use regclient.Muset.Steps.{
  returned, Reach, start, later, Phase, waiting, trying, releasing, Config, holds, gives_up, Step,
  others, blocked_lock, skip, try_lock, try_fails, all_locked, unlocks, keeps, blocks, HeldIn,
  IsSound, get_elem?-length, get_elem?-distinct,
}

module _ (ms : List ℕ) (d : distinct ms ≡ true) where
  -- What is held in a phase that is known.
  holding_in : (c : Config) (p : Phase) → IsSound ms c → c.phase ≡ p → HeldIn (length ms) p c.held
  holding_in c p v e = subst (λ q. HeldIn (length ms) q c.held) e v.holding

  locked_at-locked :
      (c : Config) (i m : ℕ) (p : Phase)
      → IsSound ms c
      → get_elem? ms i ≡ some m
      → (j k : ℕ) → holds i c.held j ≡ true
      → get_elem? ms j ≡ some k
      → lock m c.store k ≡ true
  locked_at-locked c i m p v g j k h q = elim (Bool-cases (i == j)) [
    | inl e ↦
        let s : m ≡ k = some-injective (sym g ∙ ap (get_elem? ms) (ground (arith, e)) ∙ q) in
        ground (arith, s)
    | inr e ↦ ground (arith, v.locked j k (ground (arith, h, e)) q)
  ]

  unlocked_at-locked :
      (c : Config) (i m : ℕ)
      → IsSound ms c
      → get_elem? ms i ≡ some m
      → (j k : ℕ) → gives_up i c.held j ≡ true
      → get_elem? ms j ≡ some k
      → unlock m c.store k ≡ true
  unlocked_at-locked c i m v g j k h q = elim (Bool-cases (m == k)) [
    | inl e ↦
        let s : i ≡ j = get_elem?-distinct ms i j k d (g ∙ ap some (ground (arith, e))) q in
        absurd (ground (arith, h, s))
    | inr e ↦ ground (arith, e, v.locked j k (ground (arith, h)) q)
  ]

  step-IsSound : (c c' : Config) → Step ms c c' → IsSound ms c → IsSound ms c'
  step-IsSound c c' (others store h) v = record {
    holding = v.holding;
    locked = λ i m e g. h i m e g ∙ v.locked i m e g;
  }
  step-IsSound c c' (blocked_lock last m e g f) v =
      let (n, none_held) = holding_in c (waiting last) v e in
      record {
        holding = (n, omega arith, λ j. ground (arith, none_held j));
        locked = locked_at-locked c last m (trying last 0) v g;
      }
  step-IsSound c c' (skip last e) v =
      let (n, b, w) = holding_in c (trying last last) v e in
      record { holding = (n, omega (arith, n), λ j. ground (arith, w j)); locked = v.locked }
  step-IsSound c c' (try_lock last i m e o g f) v =
      let (n, b, w) = holding_in c (trying last i) v e in
      let k = get_elem?-length ms i m g in
      record {
        holding = (n, omega (arith, k), λ j. ground (arith, w j, o));
        locked = locked_at-locked c i m (trying last (i + 1)) v g;
      }
  step-IsSound c c' (try_fails last i m e o g f) v =
      let (n, b, w) = holding_in c (trying last i) v e in
      let k = get_elem?-length ms i m g in
      record { holding = (n, k, omega arith, λ j. ground (arith, w j)); locked = v.locked }
  step-IsSound c c' (all_locked last e) v =
      let (n, b, w) = holding_in c (trying last (length ms)) v e in
      record { holding = λ j. ground (arith, w j, n); locked = v.locked }
  step-IsSound c c' (unlocks last b i m e o g) v =
      let (n, l, k, w) = holding_in c (releasing last b i) v e in
      let s = get_elem?-length ms i m g in
      record {
        holding = (n, l, omega (arith, s), λ j. ground (arith, w j));
        locked = unlocked_at-locked c i m v g;
      }
  step-IsSound c c' (keeps last b i e s o) v =
      let (n, l, k, w) = holding_in c (releasing last b i) v e in
      record { holding = (n, l, omega (arith, s), λ j. ground (arith, w j, o)); locked = v.locked }
  step-IsSound c c' (blocks last b e) v =
      let (n, l, k, w) = holding_in c (releasing last b (length ms)) v e in
      record { holding = (l, λ j. ground (arith, w j, n, l)); locked = v.locked }

  Reach-IsSound : (store : Store) (c : Config) → 0 < length ms → Reach ms store c → IsSound ms c
  Reach-IsSound store c h start = record { holding = (h, λ j. refl); locked = λ i m e g. absurd cc }
  Reach-IsSound store c h (later {c = c0} r s) = step-IsSound c0 c s (Reach-IsSound store c0 h r)

contains-get_elem? :
    (ms : List ℕ) (m : ℕ) → contains ms m ≡ true → (i : ℕ) × (get_elem? ms i ≡ some m)
contains-get_elem? [] m h = absurd cc
contains-get_elem? (x ∷ xs) m h = elim (Bool-cases (x == m)) [
  | inl e ↦ (0, ap some (ground (arith, e)))
  | inr e ↦ let (i, g) = contains-get_elem? xs m (ground (arith, h, e)) in (suc i, g)
]

-- Nothing is held while the call waits, and every mutex of the list is locked when it returns.
pub record IsSafe (ms : List ℕ) (c : Config) : Type 0 where
  pub waits : (last : ℕ) → c.phase ≡ waiting last → (i : ℕ) → c.held i ≡ false
  pub ends : c.phase ≡ returned → (m : ℕ) → contains ms m ≡ true → c.store m ≡ true

-- `Lock` on any mutexes, with or without duplicates, while other goroutines lock and unlock mutexes
-- between any two of its steps: whenever it waits for a mutex it holds none of them, and when it returns
-- all of them are locked.
pub Reach-IsSafe :
    (x : ℕ) (xs : List ℕ) (store : Store) (c : Config)
    → Reach (dedup (x ∷ xs)) store c
    → IsSafe (x ∷ xs) c
unfolding dedup
Reach-IsSafe x xs store c r =
    let ms = dedup (x ∷ xs) in
    let d = (dedup-distinct (x ∷ xs)).0 in
    let v = Reach-IsSound ms d store c (omega arith) r in
    record {
      waits = λ last e. (holding_in ms d c (waiting last) v e).1;
      ends = λ e m h.
          let (i, g) = contains-get_elem? ms m ((dedup-distinct (x ∷ xs)).1 m ∙ h) in
          let w = holding_in ms d c returned v e i in
          v.locked i m (ground (arith, w, get_elem?-length ms i m g)) g;
    }
