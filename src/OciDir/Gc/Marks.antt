-- ===== src/OciDir/Gc/Marks.antt =====
-- What `closeProcManifest` marks.
use mathlib.Core.Path.{subst}
use regclient.Base.{
  ℕ, zero, suc, ◌≡◌, refl, sym, ◌∙◌, ◌↔◌, ◌⊎◌, inl, inr, Option, none, some, List, [], ◌∷◌,
  some-injective, In,
}
use regclient.Base.Text.{Chars}
use regclient.Errs.{Result, ok, err}
use regclient.Ref.{Ref, set_digest}
use regclient.Descriptor.{Descriptor}
use regclient.OciDir.Gc.{
  Image, Manifest, mark_image, visit, visit_index, Proc, visit_entry, close_proc_manifest,
}
use regclient.OciDir.Gc.Reach.{
  Reach, listed, nested, config, layer, and_then-ok, ok_inj, err_ok, Own, mark_image-marks,
}

module _ (get : Ref → Result Manifest) where
  -- What an entry refers to.
  abbrev Leads : Ref → Descriptor → Chars → Type 0
  Leads r d x =
      (x ≡ d.digest)
      ⊎ ((cm : Manifest) × (get (set_digest r d.digest) ≡ ok cm)
          × Reach get x (set_digest r d.digest) cm)

  abbrev Below : Ref → List Descriptor → Chars → Type 0
  Below r ds x = (d : Descriptor) × In d ds × Leads r d x

  -- A call adds what its manifest refers to.
  abbrev Marks : Proc → Type 0
  Marks proc =
      (r : Ref) (m : Manifest) (dl dl' : List Chars) (x : Chars)
      → proc r m dl ≡ some (ok dl')
      → In x dl' ↔ (In x dl ⊎ Reach get x r m)

  set_digest_digest : (r : Ref) (d : Chars) → (set_digest r d).digest ≡ d
  unfolding set_digest
  set_digest_digest r d = refl

  visit_entry-Marks :
      (proc : Proc)
      → Marks proc
      → (r : Ref) (d : Descriptor) (dl dl' : List Chars) (x : Chars) (g : Result Manifest)
      → get (set_digest r d.digest) ≡ g
      → visit_entry proc (set_digest r d.digest) g dl ≡ some (ok dl')
      → In x dl' ↔ (In x dl ⊎ Leads r d x)
  visit_entry-Marks proc p r d dl dl' x (err e) q h =
      let cr = set_digest r d.digest in
      let s : cr.digest ≡ d.digest = set_digest_digest r d.digest in
      let l : cr.digest ∷ dl ≡ dl' = ok_inj (cr.digest ∷ dl) dl' (some-injective h) in
      (
        λ k. elim (subst (In x) (sym l) k) [ inl e ↦ inr (inl (e ∙ s)) | inr old ↦ inl old ],
        λ k. subst (In x) l (elim k [
          | inl old ↦ inr old
          | inr (inl e) ↦ inl (e ∙ sym s)
          | inr (inr (cm, q', _)) ↦ absurd (err_ok e cm (sym q ∙ q'))
        ]),
      )
  visit_entry-Marks proc p r d dl dl' x (ok cm) q h =
      let cr = set_digest r d.digest in
      let s : cr.digest ≡ d.digest = set_digest_digest r d.digest in
      let (to, from) = p cr cm (cr.digest ∷ dl) dl' x h in
      (
        λ k. elim (to k) [
          | inl (inl e) ↦ inr (inl (e ∙ s))
          | inl (inr old) ↦ inl old
          | inr t ↦ inr (inr (cm, q, t))
        ],
        λ k. elim k [
          | inl old ↦ from (inl (inr old))
          | inr (inl e) ↦ from (inl (inl (e ∙ sym s)))
          | inr (inr (cm', q', t)) ↦
              from (inr (subst (Reach get x cr) (ok_inj cm' cm (sym q' ∙ q)) t))
        ],
      )

  visit-Marks :
      (proc : Proc)
      → Marks proc
      → (r : Ref) (ds : List Descriptor) (dl dl' : List Chars) (x : Chars)
      → visit get proc r ds dl ≡ some (ok dl')
      → In x dl' ↔ (In x dl ⊎ Below r ds x)
  unfolding visit
  visit-Marks proc p r [] dl dl' x h =
      let e : dl ≡ dl' = ok_inj dl dl' (some-injective h) in
      (
        λ k. inl (subst (In x) (sym e) k),
        λ k. elim k [ inl old ↦ subst (In x) e old | inr (d, n, _) ↦ elim n [ ] ],
      )
  visit-Marks proc p r (d ∷ ds) dl dl' x h =
      let cr = set_digest r d.digest in
      let (dl1, a, b) =
        and_then-ok (visit_entry proc cr (get cr) dl) (λ l. visit get proc r ds l) dl' h in
      let (to_e, from_e) = visit_entry-Marks proc p r d dl dl1 x (get cr) refl a in
      let (to_r, from_r) = visit-Marks proc p r ds dl1 dl' x b in
      (
        λ k. elim (to_r k) [
          | inl j ↦ elim (to_e j) [ inl old ↦ inl old | inr t ↦ inr (d, inl refl, t) ]
          | inr (d', n, t) ↦ inr (d', inr n, t)
        ],
        λ k. elim k [
          | inl old ↦ from_r (inl (from_e (inl old)))
          | inr (d', inl e, t) ↦
              from_r (inl (from_e (inr (subst (λ (c : Descriptor). Leads r c x) e t))))
          | inr (d', inr n, t) ↦ from_r (inr (d', n, t))
        ],
      )

  abbrev Nested : Ref → Option (Result (List Descriptor)) → Chars → Type 0
  Nested r o x = (ds : List Descriptor) × (o ≡ some (ok ds)) × Below r ds x

  visit_index-Marks :
      (proc : Proc)
      → Marks proc
      → (r : Ref) (o : Option (Result (List Descriptor))) (dl dl' : List Chars) (x : Chars)
      → visit_index get proc r o dl ≡ some (ok dl')
      → In x dl' ↔ (In x dl ⊎ Nested r o x)
  unfolding visit_index
  visit_index-Marks proc p r none dl dl' x h =
      let e : dl ≡ dl' = ok_inj dl dl' (some-injective h) in
      (
        λ k. inl (subst (In x) (sym e) k),
        λ k. elim k [ inl old ↦ subst (In x) e old | inr (ds, n, _) ↦ absurd cc ],
      )
  visit_index-Marks proc p r (some (err e)) dl dl' x h = absurd (err_ok e dl' (some-injective h))
  visit_index-Marks proc p r (some (ok ds)) dl dl' x h =
      let (to, from) = visit-Marks proc p r ds dl dl' x h in
      (
        λ k. elim (to k) [ inl old ↦ inl old | inr b ↦ inr (ds, refl, b) ],
        λ k. elim k [
          | inl old ↦ from (inl old)
          | inr (ds', q, b) ↦
              from (inr (subst (λ l. Below r l x) (ok_inj ds' ds (sym (some-injective q))) b))
        ],
      )

  -- What a manifest refers to: below its index, or by its own image.
  Reach-cases :
      (r : Ref) (m : Manifest) (x : Chars) → Reach get x r m → Nested r m.indexer x ⊎ Own m.imager x
  Reach-cases r m x (listed ds d q n e) = inl (ds, q, (d, n, inl e))
  Reach-cases r m x (nested ds d cm q n g t) = inl (ds, q, (d, n, inr (cm, g, t)))
  Reach-cases r m x (config i d q c e) = inr (subst (λ o. Own o x) (sym q) (inl (d, c, e)))
  Reach-cases r m x (layer i ds d q l n e) =
      inr (subst (λ o. Own o x) (sym q) (inr (ds, l, (d, n, e))))

  Nested-Reach : (r : Ref) (m : Manifest) (x : Chars) → Nested r m.indexer x → Reach get x r m
  Nested-Reach r m x (ds, q, (d, n, inl e)) = listed ds d q n e
  Nested-Reach r m x (ds, q, (d, n, inr (cm, g, t))) = nested ds d cm q n g t

  Own-Reach :
      (r : Ref) (m : Manifest) (x : Chars) (o : Option Image)
      → m.imager ≡ o
      → Own o x
      → Reach get x r m
  Own-Reach r m x none q n = elim n [ ]
  Own-Reach r m x (some i) q (inl (d, c, e)) = config i d q c e
  Own-Reach r m x (some i) q (inr (ds, l, (d, n, e))) = layer i ds d q l n e

  -- A call that returns the digest list has added exactly the digests that its manifest refers to,
  -- through indexes that are nested to any depth.
  pub close_proc_manifest-Reach :
      (fuel : ℕ) (r : Ref) (m : Manifest) (dl dl' : List Chars) (x : Chars)
      → close_proc_manifest get fuel r m dl ≡ some (ok dl')
      → In x dl' ↔ (In x dl ⊎ Reach get x r m)
  unfolding close_proc_manifest
  close_proc_manifest-Reach zero r m dl dl' x h = absurd cc
  close_proc_manifest-Reach (suc fuel) r m dl dl' x h =
      let (dl1, a, b) =
        and_then-ok (visit_index get (close_proc_manifest get fuel) r m.indexer dl)
          (λ l. some (mark_image m.imager l)) dl' h in
      let (to_v, from_v) =
        visit_index-Marks (close_proc_manifest get fuel) (close_proc_manifest-Reach fuel) r
          m.indexer dl dl1 x a in
      let (to_i, from_i) = mark_image-marks m.imager dl1 dl' x (some-injective b) in
      (
        λ k. elim (to_i k) [
          | inl j ↦ elim (to_v j) [ inl old ↦ inl old | inr n ↦ inr (Nested-Reach r m x n) ]
          | inr o ↦ inr (Own-Reach r m x m.imager refl o)
        ],
        λ k. elim k [
          | inl old ↦ from_i (inl (from_v (inl old)))
          | inr t ↦ elim (Reach-cases r m x t) [
            | inl n ↦ from_i (inl (from_v (inr n)))
            | inr o ↦ from_i (inr o)
          ]
        ],
      )
