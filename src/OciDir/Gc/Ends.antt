-- ===== src/OciDir/Gc/Ends.antt =====
-- The recursion of `closeProcManifest` ends.
use regclient.Base.{
  ℕ, zero, suc, ◌<◌, ◌≡◌, refl, inl, inr, Option, none, some, List, [], ◌∷◌, arith, In,
}
use regclient.Base.Text.{Chars}
use regclient.Errs.{Result, ok, err}
use regclient.Ref.{Ref, set_digest}
use regclient.Descriptor.{Descriptor}
use regclient.OciDir.Gc.{
  Manifest, mark_image, and_then, Proc, visit_entry, visit, visit_index, close_proc_manifest,
}

module _ (get : Ref → Result Manifest) where
  -- Heights of manifests: a manifest that an index lists is lower than the index.
  pub record IsLayered (height : Manifest → ℕ) : Type 0 where
    pub lower :
        (r : Ref) (m cm : Manifest) (ds : List Descriptor) (d : Descriptor)
        → m.indexer ≡ some (ok ds)
        → In d ds
        → get (set_digest r d.digest) ≡ ok cm
        → height cm < height m

  abbrev pub Finishes : Option (Result (List Chars)) → Type 0
  Finishes o = (a : Result (List Chars)) × (o ≡ some a)

  and_then-Finishes :
      (o : Option (Result (List Chars))) (f : List Chars → Option (Result (List Chars)))
      → Finishes o
      → ((l : List Chars) → Finishes (f l))
      → Finishes (and_then o f)
  and_then-Finishes none f (a, q) k = absurd cc
  and_then-Finishes (some (err e)) f w k = (err e, refl)
  and_then-Finishes (some (ok l)) f w k = k l

  visit_entry-Finishes :
      (proc : Proc) (cr : Ref) (dl : List Chars) (g : Result Manifest)
      → ((cm : Manifest) → g ≡ ok cm → (l : List Chars) → Finishes (proc cr cm l))
      → Finishes (visit_entry proc cr g dl)
  visit_entry-Finishes proc cr dl (err e) k = (ok (cr.digest ∷ dl), refl)
  visit_entry-Finishes proc cr dl (ok cm) k = k cm refl (cr.digest ∷ dl)

  visit-Finishes :
      (proc : Proc) (r : Ref) (ds : List Descriptor) (dl : List Chars)
      → ((d : Descriptor)
          → In d ds
          → (cm : Manifest) → get (set_digest r d.digest) ≡ ok cm
          → (l : List Chars) → Finishes (proc (set_digest r d.digest) cm l))
      → Finishes (visit get proc r ds dl)
  unfolding visit
  visit-Finishes proc r [] dl k = (ok dl, refl)
  visit-Finishes proc r (d ∷ ds) dl k =
      let cr = set_digest r d.digest in
      and_then-Finishes (visit_entry proc cr (get cr) dl) (λ l. visit get proc r ds l)
        (visit_entry-Finishes proc cr dl (get cr) (k d (inl refl)))
        (λ l. visit-Finishes proc r ds l (λ d' n. k d' (inr n)))

  visit_index-Finishes :
      (proc : Proc) (r : Ref) (o : Option (Result (List Descriptor))) (dl : List Chars)
      → ((ds : List Descriptor)
          → o ≡ some (ok ds)
          → (d : Descriptor) → In d ds
          → (cm : Manifest) → get (set_digest r d.digest) ≡ ok cm
          → (l : List Chars) → Finishes (proc (set_digest r d.digest) cm l))
      → Finishes (visit_index get proc r o dl)
  unfolding visit_index
  visit_index-Finishes proc r none dl k = (ok dl, refl)
  visit_index-Finishes proc r (some (err e)) dl k = (err e, refl)
  visit_index-Finishes proc r (some (ok ds)) dl k = visit-Finishes proc r ds dl (k ds refl)

  -- The recursion ends: where no manifest is nested in itself, a fuel above the height of the
  -- manifest is enough.
  pub close_proc_manifest-IsLayered :
      (height : Manifest → ℕ)
      → IsLayered height
      → (fuel : ℕ) (r : Ref) (m : Manifest) (dl : List Chars) → height m < fuel
      → Finishes (close_proc_manifest get fuel r m dl)
  unfolding close_proc_manifest
  close_proc_manifest-IsLayered height v zero r m dl h = absurd (omega arith)
  close_proc_manifest-IsLayered height v (suc fuel) r m dl h =
      and_then-Finishes (visit_index get (close_proc_manifest get fuel) r m.indexer dl)
        (λ l. some (mark_image m.imager l))
        (visit_index-Finishes (close_proc_manifest get fuel) r m.indexer dl (λ ds q d n cm g l.
          close_proc_manifest-IsLayered height v fuel (set_digest r d.digest) cm l
            (omega (arith, v.lower r m cm ds d q n g, h))))
        (λ l. (mark_image m.imager l, refl))
