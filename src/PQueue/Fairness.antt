-- ===== src/PQueue/Fairness.antt =====
-- What `release` does with the place that comes free.
use mathlib.Core.Path.{subst}
use regclient.Base.{
  some-injective, ℕ, zero, suc, ◌+◌, ◌≤◌, ◌<◌, min, ◌≡◌, refl, sym, ap, ◌∙◌, ◌⊎◌, inl, inr, Option,
  none, some, List, [], ◌∷◌, ◌++◌, map, arith, ◌==◌, if◌then◌else◌, length, get_elem?, take, drop,
}
use regclient.PQueue.{Queue, delete_at, remove, pick, serve, release}
use regclient.PQueue.Slots.{
  remove-append, count, count-append, count-delete_at, count-remove, length-remove_member,
}
use regclient.PQueue.Invariant.{Inv, release_cases, serve_lem, pick-lt, release-Inv}

-- The result `r` of releasing entry `e` from queue `q`.
pub record Hands (q : Queue) (e : ℕ) (r : Queue × Option ℕ) : Type 0 where
  pub conserved :
      (x : ℕ)
      → count x r.0.active + count x r.0.queued + (if e == x then min 1 (count e q.active) else 0)
        ≡ count x q.active + count x q.queued
  pub wakes :
      ((r.1 ≡ none)
        × (r.0.active ≡ remove e q.active)
        × (r.0.queued ≡ q.queued)
        × (r.0.wait ≡ q.wait))
      ⊎ ((i : ℕ) × (e' : ℕ) × (w : ℕ) × (r.1 ≡ some w)
          × (get_elem? q.queued i ≡ some e')
          × (get_elem? q.wait i ≡ some w)
          × (r.0.active ≡ remove e q.active ++ e' ∷ [])
          × (r.0.queued ≡ delete_at i q.queued)
          × (r.0.wait ≡ delete_at i q.wait))

serve-Hands :
    (q : Queue) (e i : ℕ)
    → length q.wait ≡ length q.queued
    → i < length q.queued
    → (r : Queue × Option ℕ) × (serve (record q { active = remove e q.active }) i ≡ some r)
      × Hands q e r
serve-Hands q e i p h =
    let (e', w, he, hw, s) = serve_lem (record q { active = remove e q.active }) i p h in
    (
      _,
      s,
      record {
        conserved = λ x. omega (
          arith,
          count-append x (remove e q.active) (e' ∷ []),
          count-delete_at x i q.queued e' he,
          count-remove x e q.active,
        );
        wakes = inr (i, e', w, refl, he, hw, refl, refl, refl);
      },
    )

-- `release` does not panic on a well-formed queue. It takes one copy of the entry out of the active
-- list, if it is there, and no other entry is lost or doubled. It wakes nobody, and then leaves the
-- waiting entries as they are; or it closes the channel of one waiting entry, and that entry, the one
-- at the channel's index, is the one that moves from the waiting to the active list.
pub release-Hands :
    (q : Queue) (e : ℕ) → Inv q → (r : Queue × Option ℕ) × (release q e ≡ some r) × Hands q e r
release-Hands q e v = elim (release_cases q e v.paired) [
  | inl (empty, idle, r) ↦ (
    _,
    r,
    record {
      conserved = λ x. omega (arith, ap (count x) empty, count-remove x e q.active);
      wakes = inl (refl, refl, sym empty, sym idle);
    },
  )
  | inr (inl (some_queued, full, r)) ↦ (
    _,
    r,
    record {
      conserved = λ x. omega (arith, count-remove x e q.active);
      wakes = inl (refl, refl, refl, refl);
    },
  )
  | inr (inr (some_queued, room, r)) ↦
      rw r (serve-Hands q e _ v.paired (pick-lt q.next q.queued (remove e q.active) some_queued))
]

-- Entries that are active when their turn comes to be released.
abbrev pub AllActive : List ℕ → List ℕ → Type 0
AllActive [] active = Unit
AllActive (e ∷ es) active = (0 < count e active) × AllActive es (remove e active)

-- Releases in a row, with the channels that they close.
unfoldable pub release_all : Queue → List ℕ → Option (Queue × List (Option ℕ))
release_all q [] = some (q, [])
release_all q (e ∷ es) = elim (release q e) [
  | none ↦ none
  | some (q', o) ↦ elim (release_all q' es) [ none ↦ none | some (q'', os) ↦ some (q'', o ∷ os) ]
]

head_split {ℓ} :
    {A : Type ℓ} (xs : List A) (x : A) → get_elem? xs 0 ≡ some x → xs ≡ x ∷ delete_at 0 xs
head_split [] x h = ground arith
head_split (y ∷ ys) x h = ground arith

AllActive-append : (es xs ys : List ℕ) → AllActive es xs → AllActive es (xs ++ ys)
AllActive-append [] xs ys h = tt
AllActive-append (e ∷ es) xs ys h = (
  omega (arith, count-append e xs ys, h.0),
  rw (remove-append e xs ys h.0) (AllActive-append es (remove e xs) ys h.1),
)

-- With `next` unset, releasing a waiter's predecessor serves the head of the line.
release-head :
    (q : Queue) (e : ℕ)
    → Inv q
    → q.next ≡ none
    → 0 < count e q.active
    → 0 < length q.queued
    → (x : ℕ) × (w : ℕ) × (q.queued ≡ x ∷ delete_at 0 q.queued)
      × (q.wait ≡ w ∷ delete_at 0 q.wait)
      × (release q e
          ≡ some (
            record q {
              active = remove e q.active ++ x ∷ [];
              queued = delete_at 0 q.queued;
              wait = delete_at 0 q.wait;
            },
            some w,
          ))
unfolding pick
release-head q e v oldest here busy = elim (release_cases q e v.paired) [
  | inl (empty, idle, r) ↦ absurd (omega (arith, ap length empty))
  | inr (inl (_, full, r)) ↦ absurd (omega (arith, v.bounded, length-remove_member e q.active here))
  | inr (inr (_, room, r)) ↦
      let (x, w, hx, hw, s) = serve_lem (record q { active = remove e q.active }) 0 v.paired busy in
      let served = record q { active = remove e q.active } in
      (
        x,
        w,
        head_split q.queued x hx,
        head_split q.wait w hw,
        r ∙ ap (λ f. serve served (pick f q.queued (remove e q.active))) oldest ∙ s,
      )
]

drop-suc {ℓ} : {A : Type ℓ} (n : ℕ) (xs : List A) → drop (suc n) xs ≡ drop n (delete_at 0 xs)
drop-suc zero [] = refl
drop-suc (suc n) [] = refl
drop-suc n (x ∷ xs) = refl

-- Without a `next` function the line is served in order: when entries that are active are released one
-- after another, as many as wait at most, then the channels that are closed are the first ones of
-- the line, in its order, and what is left of the line keeps its order.
pub release_all-order :
    (es : List ℕ) (q : Queue)
    → Inv q
    → q.next ≡ none
    → AllActive es q.active
    → length es ≤ length q.queued
    → (q' : Queue) × (release_all q es ≡ some (q', map some (take (length es) q.wait)))
      × (q'.queued ≡ drop (length es) q.queued)
      × (q'.wait ≡ drop (length es) q.wait)
unfolding release_all
release_all-order [] q v oldest here busy = (q, refl, refl, refl)
release_all-order (e ∷ es) q v oldest here busy =
    let (x, w, hx, hw, r) = release-head q e v oldest here.0 (omega arith) in
    let (r', s, v') = release-Inv q e v in
    let rest = record q {
      active = remove e q.active ++ x ∷ [];
      queued = delete_at 0 q.queued;
      wait = delete_at 0 q.wait;
    } in
    let inv : Inv rest = subst (λ o. Inv o.0) (some-injective (sym s ∙ r)) v' in
    let (q', t, lq, lw) =
      release_all-order es rest inv oldest (AllActive-append es (remove e q.active) (x ∷ []) here.1)
        (omega (arith, ap length hx)) in
    (
      q',
      ground (arith, r, t, ap (λ l. map some (take (suc (length es)) l)) hw),
      lq ∙ sym (drop-suc (length es) q.queued),
      lw ∙ sym (drop-suc (length es) q.wait),
    )
