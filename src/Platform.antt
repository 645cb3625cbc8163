-- ===== src/Platform.antt =====
-- types/platform/platform.go and compare.go. Field values are only compared; versions and variants
-- are read as lists of code points.
pub mod Version
pub mod Normal
pub mod Order
pub mod Match
mod Tests
use regclient.Base.{
  ℕ, zero, suc, ◌+◌, ◌-◌, ◌*◌, ◌/◌, ◌%◌, ◌≤◌, ◌<◌, min, String, ◌≡◌, refl, sym, ap, ◌∙◌, ◌≢◌, ◌↔◌,
  ◌⊎◌, inl, inr, Bool, true, false, not, ◌&&◌, ◌||◌, Option, none, some, List, [], ◌∷◌, ◌++◌, map,
  arith, ltb, leb, ◌==◌, ==_iff, if◌then◌else◌, Bool-cases, Option-cases, is_some, length,
  get_elem?, take, drop, length-append, length-take, All, All-append, any, all,
}
use regclient.Base.Text.{codes, str_eq, str_slice_eq, chars_eq}
use regclient.Base.Int.{ltb_ℤ}
use Version.{
  variant_ver, variant_compatible, os_ver_compatible, os_ver_semver, semver_cmp, Sign, less, same,
}

pub record Platform : Type 0 where
  pub architecture : String
  pub os : String
  pub os_version : String
  pub os_features : List String
  pub variant : String
  pub features : List String

-- The zero value.
abbrev pub zero_platform : Platform
zero_platform = record {
  architecture = "";
  os = "";
  os_version = "";
  os_features = [];
  variant = "";
  features = [];
}

-- The first switch of `normalize`.
unfoldable pub normal_os : String → String
normal_os os = if str_eq os "macos" then "darwin" else os

-- The second switch, as it sets the architecture.
unfoldable pub normal_arch : String → String
normal_arch arch =
    if str_eq arch "i386"
    then "386"
    else if str_eq arch "x86_64"
    then "amd64"
    else if str_eq arch "x86-64"
    then "amd64"
    else if str_eq arch "amd64"
    then "amd64"
    else if str_eq arch "aarch64"
    then "arm64"
    else if str_eq arch "arm64"
    then "arm64"
    else if str_eq arch "armhf"
    then "arm"
    else if str_eq arch "armel"
    then "arm"
    else arch

-- The variant, at the case of `arm`.
unfoldable pub arm_variant : String → String
arm_variant variant =
    if str_eq variant ""
    then "v7"
    else if str_eq variant "7"
    then "v7"
    else if str_eq variant "5"
    then "v5"
    else if str_eq variant "6"
    then "v6"
    else if str_eq variant "8"
    then "v8"
    else variant

-- The variant, at the case of `amd64`.
unfoldable pub amd64_variant : String → String
amd64_variant variant = if str_eq variant "v1" then "" else variant

-- The variant, at the case of `arm64`.
unfoldable pub arm64_variant : String → String
arm64_variant variant =
    if str_eq variant "8" then "" else if str_eq variant "v8" then "" else variant

-- The second switch, as it sets the variant.
unfoldable pub normal_variant : String → String → String
normal_variant arch variant =
    if str_eq arch "i386"
    then ""
    else if str_eq arch "x86_64"
    then amd64_variant variant
    else if str_eq arch "x86-64"
    then amd64_variant variant
    else if str_eq arch "amd64"
    then amd64_variant variant
    else if str_eq arch "aarch64"
    then arm64_variant variant
    else if str_eq arch "arm64"
    then arm64_variant variant
    else if str_eq arch "armhf"
    then "v7"
    else if str_eq arch "armel"
    then "v6"
    else if str_eq arch "arm"
    then arm_variant variant
    else variant

unfoldable pub normalize : Platform → Platform
normalize p = record p {
  os = normal_os p.os;
  architecture = normal_arch p.architecture;
  variant = normal_variant p.architecture p.variant;
}

-- `compare`: a host whose fields are normalized by `NewCompare`.
pub record Compare : Type 0 where
  pub host : Platform

unfoldable pub new_compare : Platform → Compare
new_compare host = record { host = normalize host }

-- `compare.Compatible` behind the normalization of the target.
unfoldable pub compatible_to : Platform → Platform → Bool
compatible_to host target =
    let arch = str_eq host.architecture target.architecture in
    let variant = variant_compatible host.variant target.variant in
    if str_eq host.os "linux"
    then str_eq host.os target.os && arch && variant
    else if str_eq host.os "windows"
    then if str_eq target.os "windows"
      then arch && variant && os_ver_compatible host.os_version target.os_version
      else if str_eq target.os "linux"
      then arch && variant
      else false
    else if str_eq host.os "darwin"
    then (str_eq target.os "darwin" || str_eq target.os "linux") && arch && variant
    else str_eq host.os target.os
      && arch
      && variant
      && str_eq host.os_version target.os_version
      && str_slice_eq host.os_features target.os_features
      && str_slice_eq host.features target.features

-- The method `Compatible`.
unfoldable pub is_compatible : Compare → Platform → Bool
is_compatible c target = compatible_to c.host (normalize target)

-- The function `Compatible`.
unfoldable pub compatible : Platform → Platform → Bool
compatible host target = is_compatible (new_compare host) target

-- `compare.Match` behind the normalization of the target.
unfoldable pub match_to : Platform → Platform → Bool
match_to host target =
    let arch = str_eq host.architecture target.architecture in
    let variant = str_eq host.variant target.variant in
    if not (str_eq host.os target.os)
    then false
    else if str_eq host.os "linux"
    then arch && variant
    else if str_eq host.os "windows"
    then arch
      && variant
      && chars_eq (os_ver_semver host.os_version) (os_ver_semver target.os_version)
    else arch
      && variant
      && str_eq host.os_version target.os_version
      && str_slice_eq host.os_features target.os_features
      && str_slice_eq host.features target.features

-- The function `Match`.
unfoldable pub match : Platform → Platform → Bool
match a b = match_to (new_compare a).host (normalize b)

-- One comparison of `Better`: `same` where the values agree, else the value of the host wins, else
-- the rest decides.
unfoldable pub favour : String → String → String → Bool → Bool → Bool
favour host target prev agree differ =
    if str_eq prev target
    then agree
    else if str_eq target host
    then true
    else if str_eq prev host
    then false
    else differ

unfoldable pub better_version : String → String → Bool
better_version target prev = elim (semver_cmp prev target) [ less ↦ true | _ ↦ false ]

unfoldable pub better_variant : String → String → Bool → Bool
better_variant target prev next =
    if ltb_ℤ (variant_ver prev) (variant_ver target)
    then true
    else if ltb_ℤ (variant_ver target) (variant_ver prev)
    then false
    else next

-- The chain of comparisons in `Better`, on normalized platforms.
unfoldable pub better_than : Platform → Platform → Platform → Bool
better_than host target prev =
    let version =
      favour host.os_version target.os_version prev.os_version false
        (better_version target.os_version prev.os_version) in
    let variant =
      favour host.variant target.variant prev.variant version
        (better_variant target.variant prev.variant version) in
    let arch = favour host.architecture target.architecture prev.architecture variant variant in
    favour host.os target.os prev.os arch arch

-- The method `Better`.
unfoldable pub better : Compare → Platform → Platform → Bool
better c target prev =
    if not (compatible c.host target)
    then false
    else better_than c.host (normalize target) (normalize prev)
