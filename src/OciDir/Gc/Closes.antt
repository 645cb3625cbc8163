-- ===== src/OciDir/Gc/Closes.antt =====
-- What `Close` removes of a layout.
use mathlib.Core.Path.{subst}
use regclient.Base.{
  ℕ, ◌<◌, ◌≡◌, refl, sym, ap, ◌∙◌, ◌↔◌, inl, inr, true, none, some, List, [], Bool-cases, In,
}
use regclient.Base.Text.{chars_eq_inst, Chars, chars_eq, chars_eq_iff}
use regclient.Base.Maps.{lookup, lookup-delete}
use regclient.Errs.{Result, ok, err, ◌>>=◌}
use regclient.Ref.{Ref}
use regclient.OciDir.Gc.{
  Manifest, marked, BlobDir, Swept, sweep, ModRefs, Layout, getter, collect_in, forget,
  close_proc_manifest, collects, mark_from, mark, collect, conclude, close,
}
use regclient.OciDir.Gc.Reach.{Reach, ok_inj, err_ok}
use regclient.OciDir.Gc.Marks.{close_proc_manifest-Reach}
use regclient.OciDir.Gc.Ends.{IsLayered, close_proc_manifest-IsLayered}
use regclient.OciDir.Gc.Sweep.{HasBlob, marked-In, true-false, sweep-IsSweep}

-- What a collection leaves. Only files that the index does not reach are removed; where it succeeds,
-- all of them are, and the layout counts as unmodified.
pub record IsCollection (s : Layout) (r : Ref) (refs' : ModRefs) (swept : Swept) : Type 0 where
  pub safe :
      (x : Chars)
      → In x swept.1
      → (im : Manifest) × ((s.index >>= s.new) ≡ ok im) × ¬ Reach (getter s) x r im
  pub complete :
      swept.0 ≡ ok tt
      → (im : Manifest) → (s.index >>= s.new) ≡ ok im
      → (dirs : List BlobDir) → s.dirs ≡ ok dirs
      → (x : Chars) → HasBlob dirs x
      → ¬ Reach (getter s) x r im
      → In x swept.1
  pub unmodified : swept.0 ≡ ok tt → lookup r.path refs' ≡ none

chars_eq_self : (x : Chars) → chars_eq x x ≡ true
chars_eq_self x = (chars_eq_iff x x).1 refl

forget-lookup :
    (path : Chars) (refs : ModRefs) (o : Result (Unit {0})) (removed : List Chars)
    → o ≡ ok tt
    → lookup path (forget path refs o removed).1 ≡ none
forget-lookup path refs (ok done) removed e =
    lookup-delete path path refs ∙ rw (chars_eq_self path) refl
forget-lookup path refs (err e) removed q = absurd (err_ok e tt q)

forget-swept :
    (path : Chars) (refs : ModRefs) (o : Result (Unit {0})) (removed : List Chars)
    → some (forget path refs o removed) ≡ some ((o, removed), (forget path refs o removed).1)
forget-swept path refs (ok done) removed = refl
forget-swept path refs (err e) removed = refl

-- The collection with a digest list that holds what the index reaches.
collect-IsCollection :
    (s : Layout) (r : Ref) (refs : ModRefs) (im : Manifest) (dl : List Chars)
    (dirs : Result (List BlobDir))
    → (s.index >>= s.new) ≡ ok im
    → s.dirs ≡ dirs
    → ((x : Chars) → In x dl ↔ Reach (getter s) x r im)
    → let swept = collect_in s.remove dl dirs in
      IsCollection s r (forget r.path refs swept.0 swept.1).1 swept
collect-IsCollection s r refs im dl (err e) q d v = record {
  safe = λ x n. elim n [ ];
  complete = λ b m p ds h x k j. absurd (err_ok e tt b);
  unmodified = λ b. absurd (err_ok e tt b);
}
collect-IsCollection s r refs im dl (ok dirs) q d v =
    let swept = sweep s.remove dl dirs in
    let w = sweep-IsSweep dl s.remove dirs in
    record {
      safe = λ x n.
          (im, q, λ t. true-false (sym ((marked-In dl x).1 ((v x).1 t)) ∙ (w.unmarked x n).0));
      complete = λ b im' p ds h x k j.
          let k' : HasBlob dirs x = subst (λ l. HasBlob l x) (ok_inj ds dirs (sym h ∙ d)) k in
          let j' : ¬ Reach (getter s) x r im =
            subst (λ m. ¬ Reach (getter s) x r m) (ok_inj im' im (sym p ∙ q)) j in
          w.complete b x k' (elim (Bool-cases (marked dl x)) [
            | inl m ↦ absurd (j' ((v x).0 ((marked-In dl x).0 m)))
            | inr m ↦ m
          ]);
      unmodified = λ b. forget-lookup r.path refs swept.0 swept.1 b;
    }

-- An outcome of the marking, and what holds of it.
abbrev Marked : Layout → Ref → Result (List Chars) → Type 0
Marked s r (err e) = Unit {0}
Marked s r (ok dl) =
    (im : Manifest) × ((s.index >>= s.new) ≡ ok im)
    × ((x : Chars) → In x dl ↔ Reach (getter s) x r im)

conclude-IsCollection :
    (s : Layout) (r : Ref) (refs : ModRefs) (dl : Result (List Chars))
    → Marked s r dl
    → let swept = collect s dl in IsCollection s r (forget r.path refs swept.0 swept.1).1 swept
unfolding collect
conclude-IsCollection s r refs (err e) v = record {
  safe = λ x n. elim n [ ];
  complete = λ b m p ds h x k j. absurd (err_ok e tt b);
  unmodified = λ b. absurd (err_ok e tt b);
}
conclude-IsCollection s r refs (ok dl) (im, q, v) =
    collect-IsCollection s r refs im dl s.dirs q refl v

-- The digest list of a call that starts with an empty one.
close_proc_manifest-Marked :
    (fuel : ℕ) (s : Layout) (r : Ref) (im : Manifest) (dl : Result (List Chars))
    → (s.index >>= s.new) ≡ ok im
    → close_proc_manifest (getter s) fuel r im [] ≡ some dl
    → Marked s r dl
close_proc_manifest-Marked fuel s r im (err e) q h = tt
close_proc_manifest-Marked fuel s r im (ok dl) q h = (
  im,
  q,
  λ x.
      let (to, from) = close_proc_manifest-Reach (getter s) fuel r im [] dl x h in
      (λ k. elim (to k) [ inl n ↦ elim n [ ] | inr t ↦ t ], λ t. from (inr t)),
)

mark_from-Marked :
    (fuel : ℕ) (s : Layout) (r : Ref) (g : Result Manifest)
    → (s.index >>= s.new) ≡ g
    → (height : Manifest → ℕ) → IsLayered (getter s) height
    → ((im : Manifest) → g ≡ ok im → height im < fuel)
    → (dl : Result (List Chars)) × (mark_from fuel s r g ≡ some dl) × Marked s r dl
unfolding mark_from
mark_from-Marked fuel s r (err e) q height v h = (err e, refl, tt)
mark_from-Marked fuel s r (ok im) q height v h =
    let (dl, e) = close_proc_manifest-IsLayered (getter s) height v fuel r im [] (h im refl) in
    (dl, e, close_proc_manifest-Marked fuel s r im dl q e)

-- `Close` on a modified layout that is not locked comes to an end, whatever it reads of the layout,
-- as long as no manifest is nested in itself and the fuel is above the nesting: whether it succeeds
-- or not, it removes no file that the index reaches; where it succeeds, it removes every file of
-- blobs that the index does not reach, and the layout counts as unmodified.
pub close-IsCollection :
    (fuel : ℕ) (s : Layout) (r : Ref) (refs : ModRefs)
    → collects (lookup r.path refs) ≡ true
    → (height : Manifest → ℕ) → IsLayered (getter s) height
    → ((im : Manifest) → (s.index >>= s.new) ≡ ok im → height im < fuel)
    → (swept : Swept) × (refs' : ModRefs) × (close fuel true s r refs ≡ some (swept, refs'))
      × IsCollection s r refs' swept
unfolding close mark
close-IsCollection fuel s r refs c height v h =
    let (dl, e, m) = mark_from-Marked fuel s r (s.index >>= s.new) refl height v h in
    let swept = collect s dl in
    (
      swept,
      (forget r.path refs swept.0 swept.1).1,
      rw c (ap (conclude s r refs) e ∙ forget-swept r.path refs swept.0 swept.1),
      conclude-IsCollection s r refs dl m,
    )
