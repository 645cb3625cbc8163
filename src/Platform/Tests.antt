-- ===== src/Platform/Tests.antt =====
-- Runs of the comparisons, and instances of the theorems.
use regclient.Base.{◌≡◌, refl, ◌⊎◌, true, false}
use regclient.Platform.{
  Platform, zero_platform, normalize, compatible, match, better, new_compare, normal_os,
  normal_arch, normal_variant, arm_variant, match_to, is_compatible, compatible_to, better_than,
  favour, better_variant, better_version,
}
use regclient.Platform.Version.{variant_compatible, variant_ver}
use regclient.Platform.Order.{better_asym}
use regclient.Platform.Match.{compatible-arch}

abbrev arm_v7 : Platform
arm_v7 = record zero_platform { os = "linux"; architecture = "armhf" }

abbrev arm_v6 : Platform
arm_v6 = record zero_platform { os = "linux"; architecture = "arm"; variant = "6" }

abbrev arm_v7_long : Platform
arm_v7_long = record zero_platform { os = "linux"; architecture = "arm"; variant = "v7" }

arm_v7-normal : normalize arm_v7 ≡ arm_v7_long
unfolding normalize normal_os normal_arch normal_variant
arm_v7-normal = refl

arm_v7-match : match arm_v7 arm_v7_long ≡ true
unfolding match match_to new_compare normalize normal_os normal_arch normal_variant arm_variant
arm_v7-match = refl

arm_v6-compatible : compatible arm_v7 arm_v6 ≡ true
unfolding compatible is_compatible compatible_to new_compare normalize normal_os normal_arch
    normal_variant arm_variant variant_compatible
arm_v6-compatible = refl

arm_v7-better : better (new_compare arm_v7) arm_v7 arm_v6 ≡ true
unfolding better better_than favour better_variant variant_ver better_version compatible
    is_compatible compatible_to new_compare normalize normal_os normal_arch normal_variant
    arm_variant variant_compatible
arm_v7-better = refl

better_asym_example : better (new_compare arm_v7) arm_v6 arm_v7 ≡ false
better_asym_example = better_asym (new_compare arm_v7) arm_v7 arm_v6 arm_v7-better

compatible-arch_example :
    ((normalize arm_v7).architecture ≡ (normalize arm_v6).architecture)
    × (((normalize arm_v7).os ≡ (normalize arm_v6).os)
        ⊎ (((normalize arm_v6).os ≡ "linux")
            × (((normalize arm_v7).os ≡ "windows") ⊎ ((normalize arm_v7).os ≡ "darwin"))))
    × (variant_compatible (normalize arm_v7).variant (normalize arm_v6).variant ≡ true)
compatible-arch_example = compatible-arch arm_v7 arm_v6 arm_v6-compatible
