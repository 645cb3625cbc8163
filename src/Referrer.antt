-- ===== src/Referrer.antt =====
-- types/referrer/referrer.go: the list of the manifests that refer to a subject, where the client
-- manages it.
pub mod RoundTrip
mod Tests
use regclient.Base.{
  ℕ, zero, suc, ◌+◌, ◌-◌, ◌*◌, ◌/◌, ◌%◌, ◌≤◌, ◌<◌, min, String, ◌≡◌, refl, sym, ap, ◌∙◌, ◌≢◌, ◌↔◌,
  ◌⊎◌, inl, inr, Bool, true, false, not, ◌&&◌, ◌||◌, Option, none, some, List, [], ◌∷◌, ◌++◌, map,
  arith, ltb, leb, ◌==◌, ==_iff, if◌then◌else◌, Bool-cases, Option-cases, some-injective, is_some,
  length, get_elem?, take, drop, length-append, length-take, All, All-append, In, Nowhere, any, all,
}
use regclient.Base.Text.{Chars, chars_eq}
use regclient.Errs.{Error, Result, ok, err, not_found, unsupported_media_type, other}
use regclient.Descriptor.{Descriptor, is_empty}

-- `GetOrig` of a manifest: the annotations and the artifact type, and the media type of the config of
-- an image.
pub data Orig : Type 0 where
  artifact index : Option (List (Chars × Chars)) → Chars → Orig
  image : Option (List (Chars × Chars)) → Chars → Chars → Orig
  unsupported_orig : Orig

pub record Manifest : Type 0 where
  pub desc : Descriptor
  pub orig : Orig

-- `ReferrerList`: the entries of the manifest, none where it is not an OCI index, and the list that
-- is shown.
pub record ReferrerList : Type 0 where
  pub manifest : Option (List Descriptor)
  pub descriptors : List Descriptor

unfoldable pub has_digest : Chars → List Descriptor → Bool
has_digest digest ds = any (λ d. chars_eq d.digest digest) ds

-- The descriptor of a referrer, with the artifact type and the annotations pulled up.
abbrev pub pull_up_orig : Descriptor → Orig → Option Descriptor
pull_up_orig d (artifact annotations artifact_type) =
    some (record d { annotations = annotations; artifact_type = artifact_type })
pull_up_orig d (index annotations artifact_type) =
    some (record d { annotations = annotations; artifact_type = artifact_type })
pull_up_orig d (image annotations artifact_type config_type) = some (record d {
  annotations = annotations;
  artifact_type = if is_empty artifact_type then config_type else artifact_type;
})
pull_up_orig d unsupported_orig = none

unfoldable pub pull_up : Manifest → Option Descriptor
pull_up m = pull_up_orig m.desc m.orig

abbrev pub outcome : Option Error → Result (Unit {0})
outcome none = ok tt
outcome (some e) = err e

-- The entries are set in the manifest and in the list; `update` says whether the descriptor of the
-- manifest can be computed for them.
unfoldable pub set_entries :
    (List Descriptor → Option Error) → List Descriptor → Result (Unit {0}) × ReferrerList
set_entries update ds = (outcome (update ds), record { manifest = some ds; descriptors = ds })

abbrev pub append_entry :
    (List Descriptor → Option Error)
    → ReferrerList
    → List Descriptor
    → Bool
    → Option Descriptor
    → Result (Unit {0}) × ReferrerList
append_entry update rl ds true d = (ok tt, rl)
append_entry update rl ds false none = (err unsupported_media_type, rl)
append_entry update rl ds false (some d) = set_entries update (ds ++ d ∷ [])

abbrev pub add_to :
    (List Descriptor → Option Error)
    → ReferrerList
    → Manifest
    → Option (List Descriptor)
    → Result (Unit {0}) × ReferrerList
add_to update rl m none = (err other, rl)
add_to update rl m (some ds) = append_entry update rl ds (has_digest m.desc.digest ds) (pull_up m)

-- `Add`.
unfoldable pub add :
    (List Descriptor → Option Error) → ReferrerList → Manifest → Result (Unit {0}) × ReferrerList
add update rl m = add_to update rl m rl.manifest

-- The loop over the entries, from the last one on.
unfoldable pub remove_digest : Chars → List Descriptor → List Descriptor
remove_digest digest [] = []
remove_digest digest (d ∷ ds) =
    let rest = remove_digest digest ds in if chars_eq d.digest digest then rest else d ∷ rest

abbrev pub delete_found :
    (List Descriptor → Option Error)
    → ReferrerList
    → List Descriptor
    → Bool
    → Result (Unit {0}) × ReferrerList
delete_found update rl ds true = set_entries update ds
delete_found update rl ds false = (err not_found, rl)

abbrev pub delete_from :
    (List Descriptor → Option Error)
    → ReferrerList
    → Chars
    → Option (List Descriptor)
    → Result (Unit {0}) × ReferrerList
delete_from update rl digest none = (err other, rl)
delete_from update rl digest (some ds) =
    delete_found update rl (remove_digest digest ds) (has_digest digest ds)

-- `Delete`.
unfoldable pub delete :
    (List Descriptor → Option Error) → ReferrerList → Manifest → Result (Unit {0}) × ReferrerList
delete update rl m = delete_from update rl m.desc.digest rl.manifest

-- `IsEmpty`.
unfoldable pub is_empty_list : ReferrerList → Bool
is_empty_list rl = elim rl.manifest [ none ↦ true | some ds ↦ is_empty ds ]
