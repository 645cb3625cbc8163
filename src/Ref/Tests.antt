-- ===== src/Ref/Tests.antt =====
-- Runs of the operations on references, and instances of their theorems.
use regclient.Base.{◌≡◌, refl, inl, arith}
use regclient.Base.Text.{codes, chars_eq}
use regclient.Ref.{Ref, reg, prefix, suffix, common_name, is_set, is_set_repo, set_tag}
use regclient.Ref.Equal.{set_tag-set_digest}
use regclient.Ref.Names.{read_reg, read_reg-common_name}

abbrev alpine : Ref
alpine = record {
  scheme = reg;
  reference = codes "";
  registry = codes "docker.io";
  repository = codes "library/alpine";
  tag = codes "3.18";
  digest = codes "sha256:ab";
  path = codes "";
}

common_name-alpine : common_name alpine ≡ codes "docker.io/library/alpine:3.18@sha256:ab"
unfolding common_name prefix suffix chars_eq
common_name-alpine = refl

read_reg-common_name_example :
    read_reg (common_name alpine)
    ≡ (codes "docker.io", codes "library/alpine", codes "3.18", codes "sha256:ab")
read_reg-common_name_example = read_reg-common_name alpine (record {
  scheme_reg = refl;
  registry_set = refl;
  registry_chars = ground arith;
  repository_set = refl;
  repository_chars = ground arith;
  tag_chars = ground arith;
})

set_tag-set_digest_example : is_set (set_tag alpine (codes "edge")) ≡ is_set_repo alpine
set_tag-set_digest_example = (set_tag-set_digest alpine b'e' (codes "dge") (inl refl)).8
