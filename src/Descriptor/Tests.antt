-- ===== src/Descriptor/Tests.antt =====
-- Instances of the theorems on descriptors.
use regclient.Base.{◌≡◌, refl, inl, inr, true, false, none, some, List, [], ◌∷◌, arith, In}
use regclient.Base.Int.{pos}
use regclient.Base.Text.{codes, chars_eq}
use regclient.Errs.{ok}
use regclient.Descriptor.{
  Descriptor, MatchOpt, match, match_annotations, match_platforms, choose, filter_matches,
  descriptor_list_filter, equal, descriptor_list_search,
}
use regclient.Descriptor.Media.{oci1_manifest}
use regclient.Descriptor.Same.{equal-asymmetric}
use regclient.Descriptor.Search.{descriptor_list_search-match, descriptor_list_search-found}

abbrev sbom : Descriptor
sbom = record {
  media_type = oci1_manifest;
  digest = codes "sha256:aa";
  size = pos 4;
  urls = none;
  annotations = none;
  content = [];
  platform = none;
  artifact_type = codes "sbom";
}

abbrev signature : Descriptor
signature = record sbom { digest = codes "sha256:bb"; artifact_type = codes "signature" }

abbrev signatures : MatchOpt
signatures = record {
  platform = none;
  artifact_type = codes "signature";
  annotations = [];
  sort_annotation = [];
  sort_desc = false;
}

abbrev unsorted : MatchOpt → List Descriptor → List Descriptor
unsorted opt l = l

search-signature : descriptor_list_search unsorted (sbom ∷ signature ∷ []) signatures ≡ ok signature
unfolding descriptor_list_search descriptor_list_filter filter_matches match match_annotations
    match_platforms chars_eq choose
search-signature = refl

signature-matches : match signature signatures ≡ true
unfolding match match_annotations match_platforms chars_eq
signature-matches = refl

equal-asymmetric_example :
    (equal
        (record sbom { annotations = some ((codes "a", []) ∷ []) })
        (record sbom { annotations = some ((codes "b", codes "x") ∷ []) })
      ≡ true)
    × (equal
          (record sbom { annotations = some ((codes "b", codes "x") ∷ []) })
          (record sbom { annotations = some ((codes "a", []) ∷ []) })
        ≡ false)
equal-asymmetric_example = equal-asymmetric sbom (codes "a") (codes "b") b'x' [] (λ e. ground arith)

descriptor_list_search-match_example :
    In signature (sbom ∷ signature ∷ []) × (match signature signatures ≡ true)
descriptor_list_search-match_example =
    descriptor_list_search-match unsorted (λ opt l d. (λ h. h, λ h. h)) (sbom ∷ signature ∷ [])
      signatures signature search-signature

descriptor_list_search-found_example :
    (r : Descriptor) × (descriptor_list_search unsorted (sbom ∷ signature ∷ []) signatures ≡ ok r)
descriptor_list_search-found_example =
    descriptor_list_search-found unsorted (λ opt l d. (λ h. h, λ h. h)) (sbom ∷ signature ∷ [])
      signatures signature (inr (inl refl)) signature-matches tt
