-- ===== src/Platform/Normal.antt =====
-- Normalizing a platform twice.
use regclient.Base.{String, ◌≡◌, refl, ◌⊎◌, arith}
use regclient.Base.Text.{eq_iff}
use regclient.Platform.{
  Platform, normal_os, normal_arch, arm_variant, amd64_variant, arm64_variant, normal_variant,
  normalize,
}

normal_os_twice : (os : String) → normal_os (normal_os os) ≡ normal_os os
unfolding normal_os
normal_os_twice os = ground arith

arm_variant_cases :
    (v : String)
    → (arm_variant v ≡ "v7")
      ⊎ (arm_variant v ≡ "v5")
      ⊎ (arm_variant v ≡ "v6")
      ⊎ (arm_variant v ≡ "v8")
      ⊎ (arm_variant v ≡ v)
unfolding arm_variant
arm_variant_cases v = ground arith

arm_variant_fixed :
    (arm_variant "v7" ≡ "v7")
    × (arm_variant "v5" ≡ "v5")
    × (arm_variant "v6" ≡ "v6")
    × (arm_variant "v8" ≡ "v8")
unfolding arm_variant
arm_variant_fixed = (refl, refl, refl, refl)

arm_variant_twice : (v : String) → arm_variant (arm_variant v) ≡ arm_variant v
arm_variant_twice v = ground (arith, arm_variant_cases v, arm_variant_fixed)

amd64_variant_twice : (v : String) → amd64_variant (amd64_variant v) ≡ amd64_variant v
unfolding amd64_variant
amd64_variant_twice v = ground arith

arm64_variant_fixed : arm64_variant "" ≡ ""
unfolding arm64_variant
arm64_variant_fixed = refl

arm64_variant_cases : (v : String) → (arm64_variant v ≡ "") ⊎ (arm64_variant v ≡ v)
unfolding arm64_variant
arm64_variant_cases v = ground arith

arm64_variant_twice : (v : String) → arm64_variant (arm64_variant v) ≡ arm64_variant v
arm64_variant_twice v = ground (arith, arm64_variant_cases v, arm64_variant_fixed)

-- Architecture and variant behind the second switch.
abbrev Arches : String → String → String → String → Type 0
Arches a v arch variant =
    ((arch ≡ "386") × (variant ≡ ""))
    ⊎ ((arch ≡ "amd64") × (variant ≡ amd64_variant v))
    ⊎ ((arch ≡ "arm64") × (variant ≡ arm64_variant v))
    ⊎ ((arch ≡ "arm") × ((variant ≡ "v7") ⊎ (variant ≡ "v6") ⊎ (variant ≡ arm_variant v)))
    ⊎ ((arch ≡ a) × (variant ≡ v))

arch_cases : (a v : String) → Arches a v (normal_arch a) (normal_variant a v)
unfolding normal_arch normal_variant
arch_cases a v = ground (arith, eq_iff a "arm")

arch_fixed :
    (v : String)
    → (normal_arch "386" ≡ "386")
      × (normal_arch "amd64" ≡ "amd64")
      × (normal_arch "arm64" ≡ "arm64")
      × (normal_arch "arm" ≡ "arm")
      × (normal_variant "386" v ≡ v)
      × (normal_variant "amd64" v ≡ amd64_variant v)
      × (normal_variant "arm64" v ≡ arm64_variant v)
      × (normal_variant "arm" v ≡ arm_variant v)
unfolding normal_arch normal_variant
arch_fixed v = (refl, refl, refl, refl, refl, refl, refl, refl)

normal_arch_twice : (arch variant : String) → normal_arch (normal_arch arch) ≡ normal_arch arch
normal_arch_twice arch variant = ground (arith, arch_cases arch variant, arch_fixed variant)

normal_variant_twice :
    (arch variant : String)
    → normal_variant (normal_arch arch) (normal_variant arch variant) ≡ normal_variant arch variant
normal_variant_twice arch variant = ground (
  arith,
  arch_cases arch variant,
  arch_fixed (normal_variant arch variant),
  arm_variant_fixed,
  arm_variant_twice variant,
  amd64_variant_twice variant,
  arm64_variant_twice variant,
)

-- `normalize` is idempotent: the aliases of systems, architectures and variants are all gone after
-- one call.
pub normalize-normalize : (p : Platform) → normalize (normalize p) ≡ normalize p
unfolding normalize
normalize-normalize p = ground (
  arith,
  normal_os_twice p.os,
  normal_arch_twice p.architecture p.variant,
  normal_variant_twice p.architecture p.variant,
)
