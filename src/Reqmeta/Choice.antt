-- ===== src/Reqmeta/Choice.antt =====
-- Which entry `DataNext` chooses.
use mathlib.Core.Path.{subst}
use regclient.Base.{
  ℕ, ◌+◌, ◌/◌, ◌≡◌, refl, ap, ◌∙◌, ◌⊎◌, inl, inr, Bool, true, false, ◌&&◌, none, some, List, [],
  ◌∷◌, arith, ltb, ◌==◌, Bool-cases, is_some, length, get_elem?, any, all,
}
use regclient.Base.Int.{pos, negsuc, ltb_ℤ}
use regclient.Reqmeta.{
  Data, is_blob, is_small, scan_large, count_small, count_large, no_best, largest, large_or_old,
  small_wanted, data_next,
}
use regclient.Reqmeta.Scans.{
  fits, scan_small-place, scan_small-is_some, scan_large-fits, scan_large-place,
}

-- Whether `DataNext` wants a small entry and finds one.
unfoldable pub takes_small : List Data → List Data → Bool
takes_small queued active = ltb 0 (length active) && count_small active == 0 && any is_small queued

-- The entry at the index is what the choice promises.
unfoldable pub IsChoice : List Data → List Data → ℕ → Data → Type 0
IsChoice queued active k d =
    ((takes_small queued active ≡ true) × (is_small d ≡ true))
    ⊎ ((takes_small queued active ≡ false)
        × ((k ≡ 0) ⊎ ((is_blob d ≡ true) × (all (fits d.size) queued ≡ true))))

zero_left : (k : ℕ) → 0 + k ≡ k
zero_left k = omega arith

small_wanted-place :
    (queued active : List Data)
    → ((small_wanted queued active ≡ none) × (takes_small queued active ≡ false))
      ⊎ ((k : ℕ) × (d : Data) × (small_wanted queued active ≡ some k)
          × (get_elem? queued k ≡ some d)
          × (is_small d ≡ true)
          × (takes_small queued active ≡ true))
unfolding small_wanted takes_small
small_wanted-place queued active =
    elim (Bool-cases (ltb 0 (length active) && count_small active == 0)) [
      | inr unwanted ↦ inl (rw (unwanted, small_wanted) refl, ground (arith, unwanted))
      | inl wanted ↦
          let found = scan_small-is_some 0 no_best queued in
          elim (scan_small-place 0 no_best queued) [
            | inl this ↦
                inl (rw (wanted, small_wanted) this, ground (arith, found, ap is_some this))
            | inr (k, d, e, g, s) ↦ inr (
              k,
              d,
              rw (wanted, small_wanted) (e ∙ ap some (zero_left k)),
              g,
              s,
              ground (arith, found, ap is_some e, wanted),
            )
          ]
    ]

large_or_old-cases :
    (queued active : List Data)
    → (large_or_old queued active ≡ 0)
      ⊎ ((large_or_old queued active ≡ (scan_large 0 (0, pos 0) queued).0)
          × (ltb_ℤ (pos 0) (scan_large 0 (0, pos 0) queued).1 ≡ true))
unfolding large_or_old largest
large_or_old-cases queued active = elim (Bool-cases (ltb 0 (length active / 2))) [
  | inr few ↦ inl (rw (few, large_or_old, largest) refl)
  | inl many ↦
      let r = scan_large 0 (0, pos 0) queued in
      elim (Bool-cases (ltb (count_large r.1 active) (length active / 2) && ltb_ℤ (pos 0) r.1)) [
        | inl large ↦ inr (rw (many, large_or_old, largest) (rw large refl), ground (arith, large))
        | inr old ↦ inl (rw (many, large_or_old, largest) (rw old refl))
      ]
]

large_or_old-place :
    (queued active : List Data)
    → (large_or_old queued active ≡ 0)
      ⊎ ((k : ℕ) × (d : Data) × (large_or_old queued active ≡ k)
          × (get_elem? queued k ≡ some d)
          × (is_blob d ≡ true)
          × (all (fits d.size) queued ≡ true))
large_or_old-place queued active = elim (large_or_old-cases queued active) [
  | inl oldest ↦ inl oldest
  | inr (e, l) ↦ elim (scan_large-place 0 (0, pos 0) queued) [
    | inl start ↦ ground (arith, l, ap (λ r. r.1) start)
    | inr (k, d, s, g, b) ↦ inr (
      k,
      d,
      e ∙ ap (λ r. r.0) s ∙ zero_left k,
      g,
      b,
      subst (λ z. all (fits z) queued ≡ true) (ap (λ r. r.1) s)
          (scan_large-fits 0 (0, pos 0) queued).0,
    )
  ]
]

-- `DataNext` returns -1 for no queued requests, and else the index of a queued request. If a
-- request is active, none of the active ones is small and a small one is queued, it is a small
-- one; otherwise it is the oldest, or a blob that no queued blob exceeds in size.
pub data_next-IsChoice :
    (active : List Data)
    → (data_next [] active ≡ negsuc 0)
      × ((q : Data) (qs : List Data)
          → (k : ℕ) × (d : Data) × (data_next (q ∷ qs) active ≡ pos k)
            × (get_elem? (q ∷ qs) k ≡ some d)
            × IsChoice (q ∷ qs) active k d)
unfolding data_next IsChoice
data_next-IsChoice active = (
  refl,
  λ q qs. elim (small_wanted-place (q ∷ qs) active) [
    | inr (k, d, e, g, s, t) ↦ (k, d, rw (e, data_next) refl, g, inl (t, s))
    | inl (e, t) ↦ elim (large_or_old-place (q ∷ qs) active) [
      | inl oldest ↦ (0, q, rw (e, oldest, data_next) refl, refl, inr (t, inl refl))
      | inr (k, d, l, g, b, f) ↦ (k, d, rw (e, l, data_next) refl, g, inr (t, inr (b, f)))
    ]
  ],
)
