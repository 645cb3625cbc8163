-- ===== src/Descriptor/Media.antt =====
-- types/mediatype/mediatype.go and the map `mtToOCI` of types/descriptor/descriptor.go.
use regclient.Base.{none, some, List, [], ◌∷◌}
use regclient.Base.Text.{Chars, codes, chars_eq_inst}
use regclient.Base.Maps.{lookup}

abbrev pub docker2_manifest : Chars
docker2_manifest = codes "application/vnd.docker.distribution.manifest.v2+json"

abbrev pub docker2_manifest_list : Chars
docker2_manifest_list = codes "application/vnd.docker.distribution.manifest.list.v2+json"

abbrev pub docker2_image_config : Chars
docker2_image_config = codes "application/vnd.docker.container.image.v1+json"

abbrev pub oci1_manifest : Chars
oci1_manifest = codes "application/vnd.oci.image.manifest.v1+json"

abbrev pub oci1_manifest_list : Chars
oci1_manifest_list = codes "application/vnd.oci.image.index.v1+json"

abbrev pub oci1_image_config : Chars
oci1_image_config = codes "application/vnd.oci.image.config.v1+json"

abbrev pub docker2_layer : Chars
docker2_layer = codes "application/vnd.docker.image.rootfs.diff.tar"

abbrev pub docker2_layer_gzip : Chars
docker2_layer_gzip = codes "application/vnd.docker.image.rootfs.diff.tar.gzip"

abbrev pub docker2_layer_zstd : Chars
docker2_layer_zstd = codes "application/vnd.docker.image.rootfs.diff.tar.zstd"

abbrev pub oci1_layer : Chars
oci1_layer = codes "application/vnd.oci.image.layer.v1.tar"

abbrev pub oci1_layer_gzip : Chars
oci1_layer_gzip = codes "application/vnd.oci.image.layer.v1.tar+gzip"

abbrev pub oci1_layer_zstd : Chars
oci1_layer_zstd = codes "application/vnd.oci.image.layer.v1.tar+zstd"

-- The map `mtToOCI`.
abbrev pub table : List (Chars × Chars)
table =
    (docker2_manifest_list, oci1_manifest_list)
    ∷ (docker2_manifest, oci1_manifest)
    ∷ (docker2_image_config, oci1_image_config)
    ∷ (docker2_layer, oci1_layer)
    ∷ (docker2_layer_gzip, oci1_layer_gzip)
    ∷ (docker2_layer_zstd, oci1_layer_zstd)
    ∷ (oci1_manifest_list, oci1_manifest_list)
    ∷ (oci1_manifest, oci1_manifest)
    ∷ (oci1_image_config, oci1_image_config)
    ∷ (oci1_layer, oci1_layer)
    ∷ (oci1_layer_gzip, oci1_layer_gzip)
    ∷ (oci1_layer_zstd, oci1_layer_zstd)
    ∷ []

-- `mtToOCI[mt]`, the empty text for a media type that is not there.
unfoldable pub mt_to_oci : Chars → Chars
mt_to_oci mt = elim (lookup mt table) [ none ↦ [] | some oci ↦ oci ]
