-- ===== src/OciDir.antt =====
-- scheme/ocidir/ocidir.go: the entries of the index of an OCI layout.
pub mod Set
pub mod Lookup
pub mod Gc
mod Tests
use regclient.Base.{
  ℕ, zero, suc, ◌+◌, ◌-◌, ◌*◌, ◌/◌, ◌%◌, ◌≤◌, ◌<◌, min, String, ◌≡◌, refl, sym, ap, ◌∙◌, ◌≢◌, ◌↔◌,
  ◌⊎◌, inl, inr, Bool, true, false, not, ◌&&◌, ◌||◌, Option, none, some, List, [], ◌∷◌, ◌++◌, map,
  arith, ltb, leb, ◌==◌, ==_iff, if◌then◌else◌, Bool-cases, Option-cases, some-injective, is_some,
  length, get_elem?, take, drop, length-append, length-take, All, All-append, In, Nowhere, any, all,
}
use regclient.Base.Text.{Chars, codes, chars_eq, chars_eq_inst}
use regclient.Base.Maps.{lookup, insert}
use regclient.Errs.{Result, ok, err, not_found, other}
use regclient.Ref.{Ref}
use regclient.Descriptor.{Descriptor, is_empty}

-- `aOCIRefName`.
abbrev pub ref_name : Chars
ref_name = codes "org.opencontainers.image.ref.name"

-- `name, ok := im.Annotations[aOCIRefName]`; a nil map has no key.
unfoldable pub name_of : Descriptor → Option Chars
name_of d = elim d.annotations [ none ↦ none | some m ↦ lookup ref_name m ]

-- The variable `name`, empty where there is no annotation.
unfoldable pub name_or_empty : Descriptor → Chars
name_or_empty d = elim (name_of d) [ none ↦ [] | some n ↦ n ]

-- `strings.HasSuffix`.
unfoldable pub has_suffix : Chars → Chars → Bool
has_suffix [] suffix = is_empty suffix
has_suffix (c ∷ cs) suffix =
    let rest = has_suffix cs suffix in if chars_eq (c ∷ cs) suffix then true else rest

-- The first entry that passes a test.
unfoldable pub find : (Descriptor → Bool) → List Descriptor → Result Descriptor
find p [] = err not_found
find p (d ∷ ds) = if p d then ok d else find p ds

abbrev pub has_digest : Chars → Descriptor → Bool
has_digest digest d = chars_eq d.digest digest

unfoldable pub has_tag : Chars → Descriptor → Bool
has_tag tag d = elim (name_of d) [ none ↦ false | some n ↦ chars_eq n tag ]

unfoldable pub has_full_name : Chars → Descriptor → Bool
has_full_name tag d = elim (name_of d) [ none ↦ false | some n ↦ has_suffix n (b':' ∷ tag) ]

abbrev or_else : Result Descriptor → Result Descriptor → Result Descriptor
or_else (ok d) r = ok d
or_else (err e) r = r

-- `indexGet` on the entries of an index.
unfoldable pub index_get : List Descriptor → Ref → Result Descriptor
index_get ms r =
    let tag = if is_empty r.digest && is_empty r.tag then codes "latest" else r.tag in
    if not (is_empty r.digest)
    then find (has_digest r.digest) ms
    else if not (is_empty tag)
    then or_else (find (has_tag tag) ms) (find (has_full_name tag) ms)
    else err not_found

-- `d.Annotations[aOCIRefName] = r.Tag`, with a new map for a nil one.
unfoldable pub annotate : Descriptor → Chars → Descriptor
annotate d tag = if is_empty tag then d else record d {
  annotations = some (insert ref_name tag (elim d.annotations [ none ↦ [] | some m ↦ m ]));
}

-- The test of an entry that is replaced or pruned.
unfoldable pub replaces : Chars → Chars → Descriptor → Bool
replaces tag digest e =
    (is_empty (name_or_empty e) && chars_eq e.digest digest)
    || (not (is_empty tag) && chars_eq (name_or_empty e) tag)

-- The loop that prunes the entries behind the replaced one.
unfoldable pub prune : Chars → Chars → List Descriptor → List Descriptor
prune tag digest [] = []
prune tag digest (e ∷ es) =
    let rest = prune tag digest es in if replaces tag digest e then rest else e ∷ rest

-- The loop that searches an entry, with what follows it in either case.
unfoldable pub replace_first : Chars → Descriptor → List Descriptor → List Descriptor
replace_first tag d [] = d ∷ []
replace_first tag d (e ∷ es) =
    let rest = replace_first tag d es in
    if replaces tag d.digest e then d ∷ prune tag d.digest es else e ∷ rest

-- `indexSet` on the entries of an index that is not nil. The caller's descriptor, whose map of
-- annotations is changed in place, is not looked at again.
unfoldable pub index_set : List Descriptor → Ref → Descriptor → List Descriptor
index_set ms r d = replace_first r.tag (annotate d r.tag) ms
