-- ===== src/OciDir/Gc.antt =====
-- scheme/ocidir/close.go, with the locks and the marks of scheme/ocidir/ocidir.go and `manifestGet`
-- of scheme/ocidir/manifest.go: the garbage collection of an OCI layout.
pub mod Reach
pub mod Marks
pub mod Ends
pub mod Sweep
pub mod Closes
pub mod Locks
mod Tests
use regclient.Base.{
  ℕ, zero, suc, ◌+◌, ◌-◌, ◌*◌, ◌/◌, ◌%◌, ◌≤◌, ◌<◌, min, String, ◌≡◌, refl, sym, ap, ◌∙◌, ◌≢◌, ◌↔◌,
  ◌⊎◌, inl, inr, Bool, true, false, not, ◌&&◌, ◌||◌, Option, none, some, List, [], ◌∷◌, ◌++◌, map,
  arith, ltb, leb, ◌==◌, ==_iff, if◌then◌else◌, Bool-cases, Option-cases, some-injective, is_some,
  length, get_elem?, take, drop, length-append, length-take, All, All-append, In, Nowhere, any, all,
}
use regclient.Base.Text.{Chars, codes, chars_eq, chars_eq_inst}
use regclient.Base.Maps.{lookup, insert, delete}
use regclient.Base.Int.{pos}
use regclient.Errs.{Error, Result, ok, err, not_found, other, ◌>>=◌}
use regclient.Ref.{Ref, set_digest}
use regclient.Descriptor.{Descriptor, is_empty}
use regclient.OciDir.{index_get}

-- What a manifest offers to the collection: `GetManifestList` of an `Indexer`, and `GetConfig` and
-- `GetLayers` of an `Imager`.
pub record Image : Type 0 where
  pub config : Result Descriptor
  pub layers : Result (List Descriptor)

pub record Manifest : Type 0 where
  pub indexer : Option (Result (List Descriptor))
  pub imager : Option Image

-- The descriptor that has only a digest.
abbrev pub of_digest : Chars → Descriptor
of_digest d = record {
  media_type = [];
  digest = d;
  size = pos 0;
  urls = none;
  annotations = none;
  content = [];
  platform = none;
  artifact_type = [];
}

-- `contains` of a Go map with the value true.
unfoldable pub marked : List Chars → Chars → Bool
marked dl x = any (λ y. chars_eq y x) dl

-- The default tag.
abbrev pub or_latest : Ref → Ref
or_latest r = if is_empty r.digest && is_empty r.tag then record r { tag = codes "latest" } else r

-- The files of the layout: `Digest.Validate`, and the manifest in the file of a descriptor.
module _ (valid : Chars → Bool) (read : Descriptor → Result Manifest) where
  unfoldable pub open_file : Descriptor → Result Manifest
  open_file d =
      if is_empty d.digest then err not_found else if valid d.digest then read d else err other

  -- The result of `indexGet`; a digest is taken as it stands where it is not in the index.
  abbrev pub found_or : Result Descriptor → Bool → Chars → Result Manifest
  found_or (ok d) no_digest digest = open_file d
  found_or (err e) true digest = err e
  found_or (err e) false digest = open_file (of_digest digest)

  -- `manifestGet` on an index that was read.
  unfoldable pub manifest_get : Result (List Descriptor) → Ref → Result Manifest
  manifest_get (err e) r = err e
  manifest_get (ok index) r = found_or (index_get index (or_latest r)) (is_empty r.digest) r.digest

-- The digests of the descriptors, as they are added to the list.
unfoldable pub mark_all : List Descriptor → List Chars → List Chars
mark_all [] dl = dl
mark_all (d ∷ ds) dl = mark_all ds (d.digest ∷ dl)

-- The part of `closeProcManifest` behind the nested manifests.
unfoldable pub mark_image : Option Image → List Chars → Result (List Chars)
mark_image none dl = ok dl
mark_image (some i) dl =
    let dl' : List Chars = elim i.config [ ok d ↦ d.digest ∷ dl | err e ↦ dl ] in
    elim i.layers [ ok ds ↦ ok (mark_all ds dl') | err e ↦ err e ]

-- A result under fuel; `none` means that the fuel ran out.
abbrev pub and_then {ℓ κ} :
    {A : Type ℓ} {B : Type κ} → Option (Result A) → (A → Option (Result B)) → Option (Result B)
and_then none f = none
and_then (some (err e)) f = some (err e)
and_then (some (ok a)) f = f a

-- The call of `closeProcManifest` for a nested manifest.
abbrev pub Proc : Type 0
Proc = Ref → Manifest → List Chars → Option (Result (List Chars))

-- An entry of an index: it is marked, and the manifest is followed if it can be read.
abbrev pub visit_entry : Proc → Ref → Result Manifest → List Chars → Option (Result (List Chars))
visit_entry proc cr (err e) dl = some (ok (cr.digest ∷ dl))
visit_entry proc cr (ok cm) dl = proc cr cm (cr.digest ∷ dl)

module _ (get : Ref → Result Manifest) where
  -- The loop over the manifests of an index.
  unfoldable pub visit : Proc → Ref → List Descriptor → List Chars → Option (Result (List Chars))
  visit proc r [] dl = some (ok dl)
  visit proc r (d ∷ ds) dl =
      let cr = set_digest r d.digest in
      and_then (visit_entry proc cr (get cr) dl) (λ dl'. visit proc r ds dl')

  unfoldable pub visit_index :
      Proc → Ref → Option (Result (List Descriptor)) → List Chars → Option (Result (List Chars))
  visit_index proc r none dl = some (ok dl)
  visit_index proc r (some (err e)) dl = some (err e)
  visit_index proc r (some (ok ds)) dl = visit proc r ds dl

  -- `closeProcManifest`, with the depth of the nesting as fuel.
  unfoldable pub close_proc_manifest : ℕ → Proc
  close_proc_manifest zero r m dl = none
  close_proc_manifest (suc fuel) r m dl =
      and_then (visit_index (close_proc_manifest fuel) r m.indexer dl)
        (λ dl'. some (mark_image m.imager dl'))

-- An entry of the directory of blobs: its name, whether it is a directory, and the files in it.
pub record BlobDir : Type 0 where
  pub name : Chars
  pub is_dir : Bool
  pub files : Result (List Chars)

abbrev pub digest_of : BlobDir → Chars → Chars
digest_of dir file = dir.name ++ b':' ∷ file

-- The outcome of a sweep, and the digests of the files that it removed.
abbrev pub Swept : Type 0
Swept = Result (Unit {0}) × List Chars

-- A file with a digest: it is marked, or its removal fails or not.
abbrev pub sweep_file : Chars → Bool → Option Error → Swept → Swept
sweep_file x true failure rest = rest
sweep_file x false (some e) rest = (err e, [])
sweep_file x false none rest = (rest.0, x ∷ rest.1)

-- The files of a directory; `remove` says which removals fail.
unfoldable pub sweep_files : (Chars → Option Error) → List Chars → BlobDir → List Chars → Swept
sweep_files remove dl dir [] = (ok tt, [])
sweep_files remove dl dir (f ∷ fs) =
    let x = digest_of dir f in sweep_file x (marked dl x) (remove x) (sweep_files remove dl dir fs)

abbrev pub then_sweep : Result (Unit {0}) → List Chars → Swept → Swept
then_sweep (ok done) removed later = (later.0, removed ++ later.1)
then_sweep (err e) removed later = (err e, removed)

abbrev pub sweep_read :
    (Chars → Option Error) → List Chars → BlobDir → Bool → Result (List Chars) → Swept
sweep_read remove dl dir false files = (ok tt, [])
sweep_read remove dl dir true (err e) = (err e, [])
sweep_read remove dl dir true (ok fs) = sweep_files remove dl dir fs

unfoldable pub sweep_dir : (Chars → Option Error) → List Chars → BlobDir → Swept
sweep_dir remove dl dir = sweep_read remove dl dir dir.is_dir dir.files

unfoldable pub sweep : (Chars → Option Error) → List Chars → List BlobDir → Swept
sweep remove dl [] = (ok tt, [])
sweep remove dl (dir ∷ dirs) =
    let swept = sweep_dir remove dl dir in then_sweep swept.0 swept.1 (sweep remove dl dirs)

-- `ociGC`, and the map of the paths.
pub record OciGc : Type 0 where
  pub is_mod : Bool
  pub locks : ℕ

abbrev pub ModRefs : Type 0
ModRefs = List (Chars × OciGc)

abbrev pub lock_entry : Chars → ModRefs → Option OciGc → ModRefs
lock_entry path refs (some gc) = insert path (record gc { locks = gc.locks + 1 }) refs
lock_entry path refs none = insert path (record { is_mod = false; locks = 1 }) refs

-- `GCLock`.
unfoldable pub gc_lock : Chars → ModRefs → ModRefs
gc_lock path refs = lock_entry path refs (lookup path refs)

abbrev pub unlock_entry : Chars → ModRefs → Option OciGc → ModRefs
unlock_entry path refs (some gc) =
    if ltb 0 gc.locks then insert path (record gc { locks = gc.locks - 1 }) refs else refs
unlock_entry path refs none = refs

-- `GCUnlock`.
unfoldable pub gc_unlock : Chars → ModRefs → ModRefs
gc_unlock path refs = unlock_entry path refs (lookup path refs)

abbrev pub mod_entry : Chars → ModRefs → Option OciGc → ModRefs
mod_entry path refs (some gc) = insert path (record gc { is_mod = true }) refs
mod_entry path refs none = insert path (record { is_mod = true; locks = 0 }) refs

-- `refMod`.
unfoldable pub ref_mod : Chars → ModRefs → ModRefs
ref_mod path refs = mod_entry path refs (lookup path refs)

-- The guard of `Close`.
abbrev pub collects : Option OciGc → Bool
collects none = false
collects (some gc) = gc.is_mod && not (ltb 0 gc.locks)

-- What `Close` reads of the layout: the index, the directory of blobs, the manifest that
-- `manifest.New` makes of an index, and what the files hold.
pub record Layout : Type 0 where
  pub index : Result (List Descriptor)
  pub dirs : Result (List BlobDir)
  pub new : List Descriptor → Result Manifest
  pub valid : Chars → Bool
  pub read : Descriptor → Result Manifest
  pub remove : Chars → Option Error

abbrev pub getter : Layout → Ref → Result Manifest
getter s r = manifest_get s.valid s.read s.index r

-- The digest list of a layout, from the manifest of its index.
unfoldable pub mark_from : ℕ → Layout → Ref → Result Manifest → Option (Result (List Chars))
mark_from fuel s r (err e) = some (err e)
mark_from fuel s r (ok im) = close_proc_manifest (getter s) fuel r im []

unfoldable pub mark : ℕ → Layout → Ref → Option (Result (List Chars))
mark fuel s r = mark_from fuel s r (s.index >>= s.new)

-- The collection: the digest list, and the removal of what is not in it.
abbrev pub collect_in : (Chars → Option Error) → List Chars → Result (List BlobDir) → Swept
collect_in remove dl (err e) = (err e, [])
collect_in remove dl (ok dirs) = sweep remove dl dirs

unfoldable pub collect : Layout → Result (List Chars) → Swept
collect s (err e) = (err e, [])
collect s (ok dl) = collect_in s.remove dl s.dirs

-- The map behind a collection.
abbrev pub forget : Chars → ModRefs → Result (Unit {0}) → List Chars → Swept × ModRefs
forget path refs (ok done) removed = ((ok done, removed), delete path refs)
forget path refs (err e) removed = ((err e, removed), refs)

-- A collection with a digest list; `none` means that the fuel ran out.
abbrev pub conclude :
    Layout → Ref → ModRefs → Option (Result (List Chars)) → Option (Swept × ModRefs)
conclude s r refs none = none
conclude s r refs (some dl) = let swept = collect s dl in some (forget r.path refs swept.0 swept.1)

-- `Close`; `gc` is the setting of the client.
unfoldable pub close : ℕ → Bool → Layout → Ref → ModRefs → Option (Swept × ModRefs)
close fuel gc s r refs =
    if gc && collects (lookup r.path refs)
    then conclude s r refs (mark fuel s r)
    else some ((ok tt, []), refs)
