-- ===== src/OciDir/Gc/Sweep.antt =====
-- What a garbage collection removes.
use mathlib.Core.Path.{subst}
use regclient.Base.{
  ◌≡◌, refl, sym, ap, ◌∙◌, ◌↔◌, ◌⊎◌, inl, inr, Bool, true, false, Option, none, some, List, [], ◌∷◌,
  ◌++◌, arith, Bool-cases, In,
}
use regclient.Base.Text.{Chars, chars_eq, chars_eq_iff}
use regclient.Errs.{Error, Result, ok, err}
use regclient.Descriptor.{same}
use regclient.OciDir.Gc.{
  marked, BlobDir, digest_of, Swept, sweep_files, sweep, sweep_file, then_sweep, sweep_read,
  sweep_dir,
}
use regclient.OciDir.Gc.Reach.{ok_inj, err_ok}

pub marked-In : (dl : List Chars) (x : Chars) → (marked dl x ≡ true) ↔ In x dl
unfolding marked
marked-In [] x = (λ h. absurd cc, λ n. elim n [ ])
marked-In (y ∷ ys) x =
    let (to, from) = marked-In ys x in
    let (eq, back) = chars_eq_iff y x in
    (
      λ h. elim (Bool-cases (chars_eq y x)) [
        | inl e ↦ inl (sym (eq e))
        | inr n ↦ inr (to (ground (arith, h, n)))
      ],
      λ k. elim k [ inl e ↦ ground (arith, back (sym e)) | inr n ↦ ground (arith, from n) ],
    )

In-append : (x : Chars) (xs ys : List Chars) → In x (xs ++ ys) ↔ (In x xs ⊎ In x ys)
In-append x [] ys = (inr, λ k. elim k [ inl n ↦ elim n [ ] | inr j ↦ j ])
In-append x (z ∷ zs) ys =
    let (to, from) = In-append x zs ys in
    (
      λ k. elim k [
        | inl e ↦ inl (inl e)
        | inr j ↦ elim (to j) [ inl n ↦ inl (inr n) | inr n ↦ inr n ]
      ],
      λ k. elim k [
        | inl (inl e) ↦ inl e
        | inl (inr n) ↦ inr (from (inl n))
        | inr n ↦ inr (from (inr n))
      ],
    )

pub true-false : ¬ (true ≡ false)
true-false h = absurd cc

-- A sweep of files: what it removes is not marked and is one of them; where it succeeds, what is
-- not marked is removed.
pub record IsSweep (dl : List Chars) (Has : Chars → Type 0) (s : Swept) : Type 0 where
  pub unmarked : (x : Chars) → In x s.1 → (marked dl x ≡ false) × Has x
  pub complete : s.0 ≡ ok tt → (x : Chars) → Has x → marked dl x ≡ false → In x s.1

abbrev pub HasFile : BlobDir → List Chars → Chars → Type 0
HasFile dir fs x = (f : Chars) × In f fs × (x ≡ digest_of dir f)

-- A file that a directory of blobs lists.
abbrev pub HasBlob : List BlobDir → Chars → Type 0
HasBlob dirs x =
    (dir : BlobDir) × In dir dirs
    × (dir.is_dir ≡ true)
    × ((fs : List Chars) × (dir.files ≡ ok fs) × HasFile dir fs x)

module _ (dl : List Chars) where
  IsSweep-same :
      (Has Has' : Chars → Type 0) (s : Swept)
      → ((x : Chars) → Has x ↔ Has' x)
      → IsSweep dl Has s
      → IsSweep dl Has' s
  IsSweep-same Has Has' s same v = record {
    unmarked = λ x n. let (m, h) = v.unmarked x n in (m, (same x).0 h);
    complete = λ e x h m. v.complete e x ((same x).1 h) m;
  }

  IsSweep-done : (Has : Chars → Type 0) → ((x : Chars) → ¬ Has x) → IsSweep dl Has (ok tt, [])
  IsSweep-done Has k = record { unmarked = λ x n. elim n [ ]; complete = λ e x h m. absurd (k x h) }

  IsSweep-failed : (Has : Chars → Type 0) (e : Error) → IsSweep dl Has (err e, [])
  IsSweep-failed Has e = record {
    unmarked = λ x n. elim n [ ];
    complete = λ q x h m. absurd (err_ok e tt q);
  }

  sweep_file-IsSweep :
      (Has : Chars → Type 0) (x : Chars) (m : Bool) (failure : Option Error) (rest : Swept)
      → marked dl x ≡ m
      → IsSweep dl Has rest
      → IsSweep dl (λ y. (y ≡ x) ⊎ Has y) (sweep_file x m failure rest)
  sweep_file-IsSweep Has x true failure rest q v = record {
    unmarked = λ y n. let (k, h) = v.unmarked y n in (k, inr h);
    complete = λ e y h k. elim h [
      | inl p ↦ absurd (true-false (sym q ∙ ap (marked dl) (sym p) ∙ k))
      | inr h' ↦ v.complete e y h' k
    ];
  }
  sweep_file-IsSweep Has x false (some e) rest q v = IsSweep-failed (λ y. (y ≡ x) ⊎ Has y) e
  sweep_file-IsSweep Has x false none rest q v = record {
    unmarked = λ y n. elim n [
      | inl p ↦ (ap (marked dl) p ∙ q, inl p)
      | inr n' ↦ let (k, h) = v.unmarked y n' in (k, inr h)
    ];
    complete = λ e y h k. elim h [ inl p ↦ inl p | inr h' ↦ inr (v.complete e y h' k) ];
  }

  HasFile-cons :
      (dir : BlobDir) (f : Chars) (fs : List Chars) (x : Chars)
      → ((x ≡ digest_of dir f) ⊎ HasFile dir fs x) ↔ HasFile dir (f ∷ fs) x
  HasFile-cons dir f fs x = (
    λ k. elim k [ inl e ↦ (f, inl refl, e) | inr (g, n, e) ↦ (g, inr n, e) ],
    λ (g, n, e). elim n [ inl p ↦ inl (e ∙ ap (digest_of dir) p) | inr n' ↦ inr (g, n', e) ],
  )

  sweep_files-IsSweep :
      (remove : Chars → Option Error) (dir : BlobDir) (fs : List Chars)
      → IsSweep dl (HasFile dir fs) (sweep_files remove dl dir fs)
  unfolding sweep_files
  sweep_files-IsSweep remove dir [] = IsSweep-done (HasFile dir []) (λ x h. elim h.1 [ ])
  sweep_files-IsSweep remove dir (f ∷ fs) =
      let x = digest_of dir f in
      IsSweep-same (λ y. (y ≡ x) ⊎ HasFile dir fs y) (HasFile dir (f ∷ fs))
        (sweep_files remove dl dir (f ∷ fs)) (HasFile-cons dir f fs)
        (sweep_file-IsSweep (HasFile dir fs) x (marked dl x) (remove x)
          (sweep_files remove dl dir fs) refl (sweep_files-IsSweep remove dir fs))

  then_sweep-IsSweep :
      (Has Has' : Chars → Type 0) (o : Result (Unit {0})) (removed : List Chars) (later : Swept)
      → IsSweep dl Has (o, removed)
      → IsSweep dl Has' later
      → IsSweep dl (λ x. Has x ⊎ Has' x) (then_sweep o removed later)
  then_sweep-IsSweep Has Has' (ok done) removed later v w = record {
    unmarked = λ x n. elim ((In-append x removed later.1).0 n) [
      | inl n' ↦ let (k, h) = v.unmarked x n' in (k, inl h)
      | inr n' ↦ let (k, h) = w.unmarked x n' in (k, inr h)
    ];
    complete = λ e x h k.
        (In-append x removed later.1).1
          (elim h [ inl h' ↦ inl (v.complete refl x h' k) | inr h' ↦ inr (w.complete e x h' k) ]);
  }
  then_sweep-IsSweep Has Has' (err e) removed later v w = record {
    unmarked = λ x n. let (k, h) = v.unmarked x n in (k, inl h);
    complete = λ q x h k. absurd (err_ok e tt q);
  }

  abbrev HasRead : BlobDir → Bool → Result (List Chars) → Chars → Type 0
  HasRead dir b files x = (b ≡ true) × ((fs : List Chars) × (files ≡ ok fs) × HasFile dir fs x)

  sweep_read-IsSweep :
      (remove : Chars → Option Error) (dir : BlobDir) (b : Bool) (files : Result (List Chars))
      → IsSweep dl (HasRead dir b files) (sweep_read remove dl dir b files)
  sweep_read-IsSweep remove dir false files =
      IsSweep-done (HasRead dir false files) (λ x h. true-false (sym h.0))
  sweep_read-IsSweep remove dir true (err e) = IsSweep-failed (HasRead dir true (err e)) e
  sweep_read-IsSweep remove dir true (ok fs) =
      IsSweep-same (HasFile dir fs) (HasRead dir true (ok fs)) (sweep_files remove dl dir fs)
        (λ x. (
          λ h. (refl, (fs, refl, h)),
          λ h. subst (λ l. HasFile dir l x) (sym (ok_inj fs h.1.0 h.1.1)) h.1.2,
        ))
        (sweep_files-IsSweep remove dir fs)

  -- What a sweep removes is not marked and is a file of a directory; where it succeeds, what is not
  -- marked is removed.
  pub sweep-IsSweep :
      (remove : Chars → Option Error) (dirs : List BlobDir)
      → IsSweep dl (HasBlob dirs) (sweep remove dl dirs)
  unfolding sweep sweep_dir
  sweep-IsSweep remove [] = IsSweep-done (HasBlob []) (λ x h. elim h.1 [ ])
  sweep-IsSweep remove (dir ∷ dirs) =
      let one = sweep_dir remove dl dir in
      IsSweep-same (λ x. HasRead dir dir.is_dir dir.files x ⊎ HasBlob dirs x) (HasBlob (dir ∷ dirs))
        (sweep remove dl (dir ∷ dirs))
        (λ x. (
          λ h. elim h [ inl (b, w) ↦ (dir, inl refl, b, w) | inr (d, n, b, w) ↦ (d, inr n, b, w) ],
          λ (d, n, b, w). elim n [
            | inl p ↦ inl (subst (λ (c : BlobDir). HasRead c c.is_dir c.files x) p (b, w))
            | inr n' ↦ inr (d, n', b, w)
          ],
        ))
        (then_sweep-IsSweep (HasRead dir dir.is_dir dir.files) (HasBlob dirs) one.0 one.1
          (sweep remove dl dirs) (sweep_read-IsSweep remove dir dir.is_dir dir.files)
          (sweep-IsSweep remove dirs))
