-- ===== src/Reqmeta/Scans.antt =====
-- The two searches of `DataNext`.
use mathlib.Core.Path.{subst}
use regclient.Base.{
  ℕ, suc, ◌+◌, ◌≡◌, refl, sym, ap, ◌∙◌, ◌⊎◌, inl, inr, Bool, true, false, not, ◌&&◌, ◌||◌, some,
  List, [], ◌∷◌, arith, if◌then◌else◌, Bool-cases, is_some, get_elem?, any, all,
}
use regclient.Base.Int.{ℤ, pos, negsuc, ltb_ℤ}
use regclient.Reqmeta.{Data, is_blob, is_small, scan_large, Best, improves, scan_small}

scan_small-nil : (i : ℕ) (best : Best) → scan_small i best [] ≡ best
unfolding scan_small
scan_small-nil i best = refl

scan_small_step :
    (i : ℕ) (best : Best) (c : Data) (qs : List Data)
    → scan_small i best (c ∷ qs)
      ≡ scan_small
          (i + 1)
          (if is_small c && improves best c
            then record { best_i = some i; kind_i = c.kind; size_i = c.size }
            else best)
          qs
unfolding scan_small
scan_small_step i best c qs = refl

scan_large-nil : (i : ℕ) (best : ℕ × ℤ) → scan_large i best [] ≡ best
unfolding scan_large
scan_large-nil i best = refl

scan_large_step :
    (i : ℕ) (best : ℕ × ℤ) (c : Data) (qs : List Data)
    → scan_large i best (c ∷ qs)
      ≡ scan_large (i + 1) (if is_blob c && ltb_ℤ best.1 c.size then (i, c.size) else best) qs
unfolding scan_large
scan_large_step i best c qs = refl

-- The place of the entry that the search of small ones ends with.
pub scan_small-place :
    (i : ℕ) (best : Best) (qs : List Data)
    → ((scan_small i best qs).best_i ≡ best.best_i)
      ⊎ ((k : ℕ) × (d : Data) × ((scan_small i best qs).best_i ≡ some (i + k))
          × (get_elem? qs k ≡ some d)
          × (is_small d ≡ true))
scan_small-place i best [] = inl (ap (λ b. b.best_i) (scan_small-nil i best))
scan_small-place i best (c ∷ qs) = elim (Bool-cases (is_small c && improves best c)) [
  | inl better ↦
      let new : Best = record { best_i = some i; kind_i = c.kind; size_i = c.size } in
      rw (scan_small_step i best c qs, better)
        (elim (scan_small-place (i + 1) new qs) [
          | inl this ↦ inr (0, c, this ∙ ground arith, refl, ground (arith, better))
          | inr (k, d, e, g, s) ↦ inr (suc k, d, e ∙ ground arith, g, s)
        ])
  | inr worse ↦
      rw (scan_small_step i best c qs, worse)
        (elim (scan_small-place (i + 1) best qs) [
          | inl this ↦ inl this
          | inr (k, d, e, g, s) ↦ inr (suc k, d, e ∙ ground arith, g, s)
        ])
]

improves_none : (best : Best) (c : Data) → is_some best.best_i ≡ false → improves best c ≡ true
unfolding improves
improves_none best c h = rw h refl

-- A small entry is found if there is one.
pub scan_small-is_some :
    (i : ℕ) (best : Best) (qs : List Data)
    → is_some (scan_small i best qs).best_i ≡ (is_some best.best_i || any is_small qs)
scan_small-is_some i best [] = rw (scan_small-nil i best) (ground arith)
scan_small-is_some i best (c ∷ qs) = elim (Bool-cases (is_small c && improves best c)) [
  | inl better ↦
      let new : Best = record { best_i = some i; kind_i = c.kind; size_i = c.size } in
      rw (scan_small_step i best c qs, better)
        (scan_small-is_some (i + 1) new qs ∙ ground (arith, better))
  | inr worse ↦
      rw (scan_small_step i best c qs, worse)
        (scan_small-is_some (i + 1) best qs ∙ ground (arith, worse, improves_none best c))
]

not_later : (a b c : ℤ) → ltb_ℤ a b ≡ true → ltb_ℤ c b ≡ false → ltb_ℤ c a ≡ false
not_later (pos a) (pos b) (pos c) h k = ground (arith, h, k)
not_later (pos a) (pos b) (negsuc c) h k = ground (arith, h, k)
not_later (pos a) (negsuc b) c h k = ground (arith, h)
not_later (negsuc a) (pos b) (pos c) h k = ground (arith, h, k)
not_later (negsuc a) (pos b) (negsuc c) h k = ground (arith, h, k)
not_later (negsuc a) (negsuc b) (pos c) h k = ground (arith, h, k)
not_later (negsuc a) (negsuc b) (negsuc c) h k = ground (arith, h, k)

not_less_trans : (a b c : ℤ) → ltb_ℤ a b ≡ false → ltb_ℤ b c ≡ false → ltb_ℤ a c ≡ false
not_less_trans (pos a) (pos b) (pos c) h k = ground (arith, h, k)
not_less_trans (pos a) (negsuc b) (pos c) h k = ground (arith, k)
not_less_trans (pos a) b (negsuc c) h k = refl
not_less_trans (negsuc a) (pos b) c h k = ground (arith, h)
not_less_trans (negsuc a) (negsuc b) (pos c) h k = ground (arith, k)
not_less_trans (negsuc a) (negsuc b) (negsuc c) h k = ground (arith, h, k)

not_less_self : (a : ℤ) → ltb_ℤ a a ≡ false
not_less_self (pos a) = ground arith
not_less_self (negsuc a) = ground arith

-- No blob of the list is larger.
abbrev pub fits : ℤ → Data → Bool
fits size q = not (is_blob q && ltb_ℤ size q.size)

fits_step :
    (best : ℕ × ℤ) (c : Data) (qs : List Data) (r s : ℕ × ℤ)
    → r ≡ s
    → fits s.1 c ≡ true
    → all (fits s.1) qs ≡ true
    → ltb_ℤ s.1 best.1 ≡ false
    → (all (fits r.1) (c ∷ qs) ≡ true) × (ltb_ℤ r.1 best.1 ≡ false)
fits_step best c qs r s e f a l =
    subst (λ t. (all (fits t.1) (c ∷ qs) ≡ true) × (ltb_ℤ t.1 best.1 ≡ false)) (sym e)
      (ground (arith, f, a), l)

-- The search of the largest blob: it is not smaller than any blob, nor than the start.
pub scan_large-fits :
    (i : ℕ) (best : ℕ × ℤ) (qs : List Data)
    → (all (fits (scan_large i best qs).1) qs ≡ true)
      × (ltb_ℤ (scan_large i best qs).1 best.1 ≡ false)
scan_large-fits i best [] = rw (scan_large-nil i best) (refl, not_less_self best.1)
scan_large-fits i best (c ∷ qs) = elim (Bool-cases (is_blob c && ltb_ℤ best.1 c.size)) [
  | inl larger ↦
      let r = scan_large-fits (i + 1) (i, c.size) qs in
      fits_step best c qs (scan_large i best (c ∷ qs)) (scan_large (i + 1) (i, c.size) qs)
        (scan_large_step i best c qs ∙ rw larger refl) (ground (arith, r.1)) r.0
        (not_later best.1 c.size (scan_large (i + 1) (i, c.size) qs).1 (ground (arith, larger)) r.1)
  | inr smaller ↦
      let r = scan_large-fits (i + 1) best qs in
      fits_step best c qs (scan_large i best (c ∷ qs)) (scan_large (i + 1) best qs)
        (scan_large_step i best c qs ∙ rw smaller refl)
        (ground (arith, not_less_trans (scan_large (i + 1) best qs).1 best.1 c.size r.1, smaller))
        r.0 r.1
]

-- The place of the entry that it ends with.
pub scan_large-place :
    (i : ℕ) (best : ℕ × ℤ) (qs : List Data)
    → (scan_large i best qs ≡ best)
      ⊎ ((k : ℕ) × (d : Data) × (scan_large i best qs ≡ (i + k, d.size))
          × (get_elem? qs k ≡ some d)
          × (is_blob d ≡ true))
scan_large-place i best [] = inl (scan_large-nil i best)
scan_large-place i best (c ∷ qs) = elim (Bool-cases (is_blob c && ltb_ℤ best.1 c.size)) [
  | inl larger ↦
      rw (scan_large_step i best c qs, larger)
        (elim (scan_large-place (i + 1) (i, c.size) qs) [
          | inl this ↦ inr (0, c, this ∙ ground arith, refl, ground (arith, larger))
          | inr (k, d, e, g, s) ↦ inr (suc k, d, e ∙ ground arith, g, s)
        ])
  | inr smaller ↦
      rw (scan_large_step i best c qs, smaller)
        (elim (scan_large-place (i + 1) best qs) [
          | inl this ↦ inl this
          | inr (k, d, e, g, s) ↦ inr (suc k, d, e ∙ ground arith, g, s)
        ])
]
