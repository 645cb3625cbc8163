-- ===== src/OciDir/Gc/Reach.antt =====
-- What a manifest refers to, and what `closeProcManifest` marks for an image.
use mathlib.Core.Path.{subst}
use regclient.Base.{
  ◌≡◌, refl, sym, ap, ◌∙◌, ◌↔◌, ◌⊎◌, inl, inr, Option, none, some, List, [], ◌∷◌, In, Nowhere,
}
use regclient.Base.Text.{Chars}
use regclient.Errs.{Error, Result, ok, err, Result-cases}
use regclient.Ref.{Ref, set_digest}
use regclient.Descriptor.{Descriptor}
use regclient.OciDir.Gc.{Image, Manifest, mark_all, mark_image, and_then}

-- A manifest that is named `r` refers to a digest: it lists it, it lists an index or an image that
-- can be read and refers to it, or it is an image with it as the config or a layer.
pub data Reach (get : Ref → Result Manifest) (x : Chars) : Ref → Manifest → Type 0 where
  listed :
      {r : Ref} {m : Manifest} (ds : List Descriptor) (d : Descriptor)
      → m.indexer ≡ some (ok ds)
      → In d ds
      → x ≡ d.digest
      → Reach get x r m
  nested :
      {r : Ref} {m : Manifest} (ds : List Descriptor) (d : Descriptor) (cm : Manifest)
      → m.indexer ≡ some (ok ds)
      → In d ds
      → get (set_digest r d.digest) ≡ ok cm
      → Reach get x (set_digest r d.digest) cm
      → Reach get x r m
  config :
      {r : Ref} {m : Manifest} (i : Image) (d : Descriptor)
      → m.imager ≡ some i
      → i.config ≡ ok d
      → x ≡ d.digest
      → Reach get x r m
  layer :
      {r : Ref} {m : Manifest} (i : Image) (ds : List Descriptor) (d : Descriptor)
      → m.imager ≡ some i
      → i.layers ≡ ok ds
      → In d ds
      → x ≡ d.digest
      → Reach get x r m

pub and_then-ok :
    {A B : Type 0} (o : Option (Result A)) (f : A → Option (Result B)) (b : B)
    → and_then o f ≡ some (ok b)
    → (a : A) × (o ≡ some (ok a)) × (f a ≡ some (ok b))
and_then-ok none f b h = absurd cc
and_then-ok (some (err e)) f b h = absurd cc
and_then-ok (some (ok a)) f b h = (a, refl, h)

abbrev value_or {ℓ} : {A : Type ℓ} → A → Result A → A
value_or a (ok b) = b
value_or a (err e) = a

pub ok_inj {ℓ} : {A : Type ℓ} (a b : A) → ok a ≡ ok b → a ≡ b
ok_inj a b h = ap (value_or a) h

pub err_ok {ℓ} : {A : Type ℓ} (e : Error) (a : A) → ¬ (err e ≡ ok a)
err_ok e a h = absurd cc

-- What is marked for a list of descriptors.
abbrev pub Named : List Descriptor → Chars → Type 0
Named ds x = (d : Descriptor) × In d ds × (x ≡ d.digest)

mark_all-marks :
    (ds : List Descriptor) (dl : List Chars) (x : Chars)
    → In x (mark_all ds dl) ↔ (In x dl ⊎ Named ds x)
unfolding mark_all
mark_all-marks [] dl x = (inl, λ h. elim h [ inl k ↦ k | inr (d, n, e) ↦ elim n [ ] ])
mark_all-marks (d ∷ ds) dl x =
    let (to, from) = mark_all-marks ds (d.digest ∷ dl) x in
    (
      λ h. elim (to h) [
        | inl (inl e) ↦ inr (d, inl refl, e)
        | inl (inr k) ↦ inl k
        | inr (d', k, e) ↦ inr (d', inr k, e)
      ],
      λ h. elim h [
        | inl k ↦ from (inl (inr k))
        | inr (d', inl q, e) ↦ from (inl (inl (e ∙ ap (λ (c : Descriptor). c.digest) q)))
        | inr (d', inr k, e) ↦ from (inr (d', k, e))
      ],
    )

-- What an image refers to itself.
abbrev pub Own : Option Image → Chars → Type 0
Own none x = Nowhere
Own (some i) x =
    ((d : Descriptor) × (i.config ≡ ok d) × (x ≡ d.digest))
    ⊎ ((ds : List Descriptor) × (i.layers ≡ ok ds) × Named ds x)

abbrev with_config : Result Descriptor → List Chars → List Chars
with_config c dl = elim c [ ok d ↦ d.digest ∷ dl | err e ↦ dl ]

with_config-marks :
    (c : Result Descriptor) (dl : List Chars) (x : Chars)
    → In x (with_config c dl) ↔ (In x dl ⊎ ((d : Descriptor) × (c ≡ ok d) × (x ≡ d.digest)))
with_config-marks (ok d) dl x = (
  λ h. elim h [ inl e ↦ inr (d, refl, e) | inr k ↦ inl k ],
  λ h. elim h [
    | inl k ↦ inr k
    | inr (d', q, e) ↦ inl (e ∙ sym (ap (λ (c : Descriptor). c.digest) (ok_inj d d' q)))
  ],
)
with_config-marks (err e) dl x = (inl, λ h. elim h [ inl k ↦ k | inr (d, q, _) ↦ absurd cc ])

mark_image_step :
    (i : Image) (dl dl' : List Chars)
    → mark_image (some i) dl ≡ ok dl'
    → (ds : List Descriptor) × (i.layers ≡ ok ds) × (mark_all ds (with_config i.config dl) ≡ dl')
unfolding mark_image
mark_image_step i dl dl' h = elim (Result-cases i.layers) [
  | inl (ds, e) ↦ (ds, e, ok_inj (mark_all ds (with_config i.config dl)) dl' (rw e at h))
  | inr (e, q) ↦ absurd (err_ok e dl' (rw q at h))
]

pub mark_image-marks :
    (o : Option Image) (dl dl' : List Chars) (x : Chars)
    → mark_image o dl ≡ ok dl'
    → In x dl' ↔ (In x dl ⊎ Own o x)
unfolding mark_image
mark_image-marks none dl dl' x h =
    let e : dl ≡ dl' = ok_inj dl dl' h in
    (
      λ k. inl (subst (In x) (sym e) k),
      λ k. elim k [ inl j ↦ subst (In x) e j | inr n ↦ elim n [ ] ],
    )
mark_image-marks (some i) dl dl' x h =
    let (ds, q, e) = mark_image_step i dl dl' h in
    let (to, from) = mark_all-marks ds (with_config i.config dl) x in
    let (to_c, from_c) = with_config-marks i.config dl x in
    (
      λ k. elim (to (subst (In x) (sym e) k)) [
        | inl j ↦ elim (to_c j) [ inl old ↦ inl old | inr c ↦ inr (inl c) ]
        | inr n ↦ inr (inr (ds, q, n))
      ],
      λ k. subst (In x) e (elim k [
        | inl old ↦ from (inl (from_c (inl old)))
        | inr (inl c) ↦ from (inl (from_c (inr c)))
        | inr (inr (ds', q', n)) ↦
            from (inr (subst (λ l. Named l x) (ok_inj ds' ds (sym q' ∙ q)) n))
      ]),
    )
