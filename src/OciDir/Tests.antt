-- ===== src/OciDir/Tests.antt =====
-- A run of the index operations, and instances of their theorems.
use regclient.Base.{◌≡◌, refl, none, List, [], arith}
use regclient.Base.Int.{pos}
use regclient.Base.Text.{codes}
use regclient.Errs.{ok}
use regclient.Ref.{Ref, ocidir}
use regclient.Descriptor.{Descriptor}
use regclient.Descriptor.Media.{oci1_manifest}
use regclient.OciDir.{index_get, index_set, annotate}
use regclient.OciDir.Set.{tag_count, index_set-tags}
use regclient.OciDir.Lookup.{index_get-index_set_other}

abbrev layout : Ref
layout = record {
  scheme = ocidir;
  reference = [];
  registry = [];
  repository = [];
  tag = codes "v1";
  digest = [];
  path = codes "repo";
}

abbrev layout_v2 : Ref
layout_v2 = record layout { tag = codes "v2" }

abbrev layout_digest : Ref
layout_digest = record layout { tag = []; digest = codes "sha256:aa" }

abbrev manifest : Descriptor
manifest = record {
  media_type = oci1_manifest;
  digest = codes "sha256:aa";
  size = pos 9;
  urls = none;
  annotations = none;
  content = [];
  platform = none;
  artifact_type = [];
}

abbrev newer : Descriptor
newer = record manifest { digest = codes "sha256:bb" }

abbrev entries : List Descriptor
entries = index_set [] layout manifest

index_set-tags_example : tag_count (codes "v1") (index_set entries layout newer) ≡ 1
index_set-tags_example = (index_set-tags entries layout newer refl).0

index_get-index_set_other_example :
    index_get (index_set entries layout_v2 newer) layout ≡ ok (annotate manifest (codes "v1"))
index_get-index_set_other_example =
    index_get-index_set_other entries layout_v2 layout newer (annotate manifest (codes "v1")) refl
      refl (λ e. ground arith) refl (index_set-tags [] layout manifest refl).1
