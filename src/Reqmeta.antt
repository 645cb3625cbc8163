-- ===== src/Reqmeta.antt =====
-- internal/reqmeta/data.go: the choice of the request that a queue serves next.
pub mod Scans
pub mod Choice
mod Tests
use regclient.Base.{
  ℕ, zero, suc, ◌+◌, ◌-◌, ◌*◌, ◌/◌, ◌%◌, ◌≤◌, ◌<◌, min, String, ◌≡◌, refl, sym, ap, ◌∙◌, ◌≢◌, ◌↔◌,
  ◌⊎◌, inl, inr, Bool, true, false, not, ◌&&◌, ◌||◌, Option, none, some, List, [], ◌∷◌, ◌++◌, map,
  arith, ltb, leb, ◌==◌, ==_iff, if◌then◌else◌, Bool-cases, Option-cases, some-injective, is_some,
  length, get_elem?, take, drop, length-append, length-take, All, All-append, In, Nowhere, any, all,
}
use regclient.Base.Int.{ℤ, pos, negsuc, ltb_ℤ}

-- `Kind`, in the order of its constants.
pub data Kind : Type 0 where
  unknown head manifest query blob : Kind

-- `Data`.
pub record Data : Type 0 where
  pub kind : Kind
  pub size : ℤ

abbrev pub kind_number : Kind → ℕ
kind_number unknown = 0
kind_number head = 1
kind_number manifest = 2
kind_number query = 3
kind_number blob = 4

abbrev pub same_kind : Kind → Kind → Bool
same_kind a b = kind_number a == kind_number b

abbrev pub is_blob : Data → Bool
is_blob d = same_kind d.kind blob

-- `smallLimit`.
abbrev pub small_limit : ℤ
small_limit = pos 4194304

-- A request that is no blob and within the limit.
unfoldable pub is_small : Data → Bool
is_small d = not (is_blob d) && not (ltb_ℤ small_limit d.size)

-- The loop that searches the largest blob: its index and its size.
unfoldable pub scan_large : ℕ → ℕ × ℤ → List Data → ℕ × ℤ
scan_large i best [] = best
scan_large i best (cur ∷ queued) =
    scan_large (i + 1) (if is_blob cur && ltb_ℤ best.1 cur.size then (i, cur.size) else best) queued

-- `int64(float64(largeSize) * 0.9)`, which is this kind_number for sizes below 2 ^ 50; `largeSize` is
-- not negative.
unfoldable pub cutoff : ℤ → ℤ
cutoff (pos n) = pos (9 * n / 10)
cutoff (negsuc n) = negsuc n

-- The active requests that are small.
unfoldable pub count_small : List Data → ℕ
count_small [] = 0
count_small (cur ∷ active) = (if is_small cur then 1 else 0) + count_small active

-- The active requests that are large.
unfoldable pub count_large : ℤ → List Data → ℕ
count_large large_size [] = 0
count_large large_size (cur ∷ active) =
    (if not (is_small cur)
        && is_blob cur
        && ltb_ℤ (pos 0) large_size
        && not (ltb_ℤ cur.size (cutoff large_size))
      then 1
      else 0)
    + count_large large_size active

-- `bestI`, `kindI` and `sizeI`; -1 is `none`.
pub record Best : Type 0 where
  pub best_i : Option ℕ
  pub kind_i : Kind
  pub size_i : ℤ

-- The test of a small entry against the best one so far.
unfoldable pub improves : Best → Data → Bool
improves best cur =
    not (is_some best.best_i)
    || (not (same_kind cur.kind unknown)
        && (same_kind best.kind_i unknown || ltb (kind_number cur.kind) (kind_number best.kind_i)))
    || (same_kind cur.kind best.kind_i
        && ltb_ℤ (pos 0) cur.size
        && (ltb_ℤ cur.size best.size_i || not (ltb_ℤ (pos 0) best.size_i)))

-- The loop that searches the best small entry.
unfoldable pub scan_small : ℕ → Best → List Data → Best
scan_small i best [] = best
scan_small i best (cur ∷ queued) =
    scan_small (i + 1)
      (if is_small cur && improves best cur
        then record { best_i = some i; kind_i = cur.kind; size_i = cur.size }
        else best)
      queued

abbrev pub no_best : Best
no_best = record { best_i = none; kind_i = unknown; size_i = pos 0 }

-- `largeI` and `largeSize`.
unfoldable pub largest : List Data → List Data → ℕ × ℤ
largest queued active =
    if ltb 0 (length active / 2) then scan_large 0 (0, pos 0) queued else (0, pos 0)

-- The entry that is returned where no small one is preferred.
unfoldable pub large_or_old : List Data → List Data → ℕ
large_or_old queued active =
    let (large_i, large_size) = largest queued active in
    if ltb 0 (length active / 2)
      && ltb (count_large large_size active) (length active / 2)
      && ltb_ℤ (pos 0) large_size
    then large_i
    else 0

-- The best small entry, if one is wanted.
unfoldable pub small_wanted : List Data → List Data → Option ℕ
small_wanted queued active =
    if ltb 0 (length active) && count_small active == 0
    then (scan_small 0 no_best queued).best_i
    else none

-- `DataNext`.
unfoldable pub data_next : List Data → List Data → ℤ
data_next [] active = negsuc 0
data_next (cur ∷ queued) active = elim (small_wanted (cur ∷ queued) active) [
  | some best ↦ pos best
  | none ↦ pos (large_or_old (cur ∷ queued) active)
]
