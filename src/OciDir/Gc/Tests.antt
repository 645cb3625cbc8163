-- ===== src/OciDir/Gc/Tests.antt =====
-- A layout with an image and a file that nothing refers to, and instances of the theorems on it.
use regclient.Base.{
  ℕ, ◌≡◌, refl, sym, ap, ◌↔◌, ◌⊎◌, inl, inr, Bool, true, false, none, some, List, [], ◌∷◌, arith,
  Bool-cases, In,
}
use regclient.Base.Text.{codes, Chars, chars_eq, chars_eq_inst}
use regclient.Base.Maps.{lookup, delete}
use regclient.Errs.{Result, ok, err, not_found}
use regclient.Ref.{Ref, set_digest}
use regclient.Descriptor.{Descriptor, is_empty}
use regclient.OciDir.{index_get, find, has_digest}
use regclient.OciDir.Gc.{
  Manifest, of_digest, marked, or_latest, open_file, found_or, manifest_get, mark_all, mark_image,
  visit, visit_index, close_proc_manifest, BlobDir, Swept, sweep_files, sweep_dir, sweep, ModRefs,
  Layout, getter, mark_from, mark, collect, close,
}
use regclient.OciDir.Gc.Reach.{ok_inj, err_ok, Reach}
use regclient.OciDir.Gc.Marks.{close_proc_manifest-Reach}
use regclient.OciDir.Gc.Ends.{IsLayered}
use regclient.OciDir.Gc.Closes.{IsCollection, close-IsCollection}
use regclient.OciDir.Gc.Locks.{close-held, locks, modifies, run, held_step, held}

abbrev path : Chars
path = codes "repo"

abbrev layout_ref : Ref
layout_ref = record {
  scheme = codes "ocidir";
  reference = [];
  registry = [];
  repository = [];
  tag = [];
  digest = [];
  path = path;
}

abbrev image : Manifest
image = record {
  indexer = none;
  imager = some (record {
    config = ok (of_digest (codes "sha256:cf"));
    layers = ok (of_digest (codes "sha256:01") ∷ []);
  });
}

abbrev blobs : BlobDir
blobs = record {
  name = codes "sha256";
  is_dir = true;
  files = ok (codes "aa" ∷ codes "cf" ∷ codes "ee" ∷ codes "01" ∷ []);
}

abbrev as_index : List Descriptor → Result Manifest
as_index ds = ok (record { indexer = some (ok ds); imager = none })

abbrev layout : Layout
layout = record {
  index = ok (of_digest (codes "sha256:aa") ∷ []);
  dirs = ok (blobs ∷ []);
  new = as_index;
  valid = λ d. true;
  read = λ d. ok image;
  remove = λ x. none;
}

abbrev modified : ModRefs
modified = (path, record { is_mod = true; locks = 0 }) ∷ []

removes_orphan :
    close 2 true layout layout_ref modified ≡ some ((ok tt, codes "sha256:ee" ∷ []), [])
unfolding close mark mark_from close_proc_manifest visit_index visit mark_image mark_all
    manifest_get open_file set_digest index_get marked sweep sweep_dir sweep_files collect lookup
    delete chars_eq find has_digest
removes_orphan = refl

abbrev index_image : Manifest
index_image = record { indexer = some (ok (of_digest (codes "sha256:aa") ∷ [])); imager = none }

abbrev height : Manifest → ℕ
height m = elim m.indexer [ none ↦ 0 | some ds ↦ 1 ]

open_file-image :
    (d : Descriptor) (m : Manifest) → open_file layout.valid layout.read d ≡ ok m → image ≡ m
unfolding open_file
open_file-image d m h = elim (Bool-cases (is_empty d.digest)) [
  | inl e ↦ absurd (err_ok not_found m (rw e at h))
  | inr e ↦ ok_inj image m (rw e at h)
]

found :
    (g : Result Descriptor) (e : Bool) (x : Chars) (m : Manifest)
    → found_or layout.valid layout.read g e x ≡ ok m
    → image ≡ m
found (ok d) e x m h = open_file-image d m h
found (err f) true x m h = absurd (err_ok f m h)
found (err f) false x m h = open_file-image (of_digest x) m h

getter-image : (r : Ref) (m : Manifest) → getter layout r ≡ ok m → image ≡ m
unfolding manifest_get
getter-image r m h =
    found (index_get (of_digest (codes "sha256:aa") ∷ []) (or_latest r)) (is_empty r.digest)
      r.digest m h

layout-IsLayered : IsLayered (getter layout) height
layout-IsLayered = record {
  lower = λ r m cm ds d q n h.
      let e : height cm ≡ 0 = ap height (sym (getter-image (set_digest r d.digest) cm h)) in
      let f : height m ≡ 1 = rw q refl in omega (arith, e, f);
}

close-IsCollection_example :
    (swept : Swept) × (refs' : ModRefs) × (close 2 true layout layout_ref modified
      ≡ some (swept, refs'))
    × IsCollection layout layout_ref refs' swept
unfolding lookup chars_eq
close-IsCollection_example =
    close-IsCollection 2 layout layout_ref modified refl height layout-IsLayered
      (λ im h. omega (arith, ap height (sym (ok_inj (index_image) im h))))

close-held_example :
    close 2 true layout layout_ref (run [] (locks path ∷ modifies path ∷ []))
    ≡ some ((ok tt, []), run [] (locks path ∷ modifies path ∷ []))
unfolding held held_step chars_eq
close-held_example =
    close-held (locks path ∷ modifies path ∷ []) 2 true layout layout_ref (omega arith)

-- The config, the layer and the image are marked.
abbrev marks : List Chars
marks = codes "sha256:01" ∷ codes "sha256:cf" ∷ codes "sha256:aa" ∷ []

close_proc_manifest-Reach_example :
    In (codes "sha256:cf") marks
    ↔ (In (codes "sha256:cf") [] ⊎ Reach (getter layout) (codes "sha256:cf") layout_ref index_image)
unfolding close_proc_manifest visit_index visit mark_image mark_all manifest_get open_file
    set_digest index_get find has_digest chars_eq
close_proc_manifest-Reach_example =
    close_proc_manifest-Reach (getter layout) 2 layout_ref index_image [] marks (codes "sha256:cf")
      refl
