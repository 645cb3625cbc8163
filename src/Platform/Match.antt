-- ===== src/Platform/Match.antt =====
-- `Match` as an equality of platforms, and what it says of `Compatible`.
use regclient.Base.{String, ◌≡◌, refl, ◌↔◌, ◌⊎◌, inr, true, false, arith}
use regclient.Base.Text.{eq_iff, str_slice_eq_iff, chars_eq_iff}
use regclient.Base.Int.{ℤ, pos, negsuc, ltb_ℤ}
use regclient.Platform.{
  Platform, normalize, new_compare, compatible_to, is_compatible, compatible, match_to, match,
}
use regclient.Platform.Version.{variant_ver, variant_compatible, os_ver_semver, os_ver_compatible}

-- What two normalized platforms that match have in common.
abbrev Same : Platform → Platform → Type 0
Same a b =
    (a.os ≡ b.os)
    × (a.architecture ≡ b.architecture)
    × (a.variant ≡ b.variant)
    × ((a.os ≡ "linux")
        ⊎ ((a.os ≡ "windows") × (os_ver_semver a.os_version ≡ os_ver_semver b.os_version))
        ⊎ ((a.os_version ≡ b.os_version)
            × (a.os_features ≡ b.os_features)
            × (a.features ≡ b.features)))

Same-iff : (a b : Platform) → (match_to a b ≡ true) ↔ Same a b
unfolding match_to
Same-iff a b = (λ h. forth h, λ s. back s)
  where
    forth : match_to a b ≡ true → Same a b
    forth h = ground (
      arith,
      eq_iff a.os b.os,
      eq_iff a.architecture b.architecture,
      eq_iff a.variant b.variant,
      eq_iff a.os "linux",
      eq_iff a.os "windows",
      eq_iff a.os_version b.os_version,
      chars_eq_iff (os_ver_semver a.os_version) (os_ver_semver b.os_version),
      str_slice_eq_iff a.os_features b.os_features,
      str_slice_eq_iff a.features b.features,
    )

    back : Same a b → match_to a b ≡ true
    back s = ground (
      arith,
      eq_iff a.os b.os,
      eq_iff a.architecture b.architecture,
      eq_iff a.variant b.variant,
      eq_iff a.os "linux",
      eq_iff a.os "windows",
      eq_iff a.os_version b.os_version,
      chars_eq_iff (os_ver_semver a.os_version) (os_ver_semver b.os_version),
      str_slice_eq_iff a.os_features b.os_features,
      str_slice_eq_iff a.features b.features,
    )

match_iff : (a b : Platform) → (match a b ≡ true) ↔ Same (normalize a) (normalize b)
unfolding match new_compare
match_iff a b = Same-iff (normalize a) (normalize b)

Same-sym : (a b : Platform) → Same a b → Same b a
Same-sym a b s = ground arith

Same-trans : (a b c : Platform) → Same a b → Same b c → Same a c
Same-trans a b c s t = ground arith

-- `Match` is an equivalence of platforms: reflexive, symmetric and transitive.
pub match_equivalence :
    ((a : Platform) → match a a ≡ true)
    × ((a b : Platform) → match a b ≡ true → match b a ≡ true)
    × ((a b c : Platform) → match a b ≡ true → match b c ≡ true → match a c ≡ true)
match_equivalence = (
  λ a. (match_iff a a).1 (refl, refl, refl, inr (inr (refl, refl, refl))),
  λ a b h. (match_iff b a).1 (Same-sym (normalize a) (normalize b) ((match_iff a b).0 h)),
  λ a b c h k. (match_iff a c).1 (
      Same-trans (normalize a) (normalize b) (normalize c) ((match_iff a b).0 h)
        ((match_iff b c).0 k)),
)

ltb_ℤ_self : (n : ℤ) → ltb_ℤ n n ≡ false
ltb_ℤ_self (pos n) = ground arith
ltb_ℤ_self (negsuc n) = ground arith

variant_compatible_self : (v : String) → variant_compatible v v ≡ true
unfolding variant_compatible
variant_compatible_self v = rw (ltb_ℤ_self (variant_ver v))

os_ver_compatible_self :
    (v w : String) → os_ver_semver v ≡ os_ver_semver w → os_ver_compatible v w ≡ true
unfolding os_ver_compatible
os_ver_compatible_self v w h = ground (arith, chars_eq_iff (os_ver_semver v) (os_ver_semver w))

Same-compatible_to : (a b : Platform) → Same a b → compatible_to a b ≡ true
unfolding compatible_to
Same-compatible_to a b s = ground (
  arith,
  eq_iff a.os b.os,
  eq_iff a.architecture b.architecture,
  eq_iff a.os "linux",
  eq_iff a.os "windows",
  eq_iff b.os "windows",
  eq_iff a.os "darwin",
  eq_iff b.os "darwin",
  eq_iff a.os_version b.os_version,
  str_slice_eq_iff a.os_features b.os_features,
  str_slice_eq_iff a.features b.features,
  variant_compatible_self a.variant,
  os_ver_compatible_self a.os_version b.os_version,
)

-- A platform that matches the host is one that the host can run.
pub match-compatible : (a b : Platform) → match a b ≡ true → compatible a b ≡ true
unfolding compatible new_compare is_compatible
match-compatible a b h = Same-compatible_to (normalize a) (normalize b) ((match_iff a b).0 h)

compatible_to-arch :
    (a b : Platform)
    → compatible_to a b ≡ true
    → (a.architecture ≡ b.architecture)
      × ((a.os ≡ b.os) ⊎ ((b.os ≡ "linux") × ((a.os ≡ "windows") ⊎ (a.os ≡ "darwin"))))
      × (variant_compatible a.variant b.variant ≡ true)
unfolding compatible_to
compatible_to-arch a b h = ground (
  arith,
  eq_iff a.os b.os,
  eq_iff a.architecture b.architecture,
  eq_iff a.os "windows",
  eq_iff b.os "windows",
  eq_iff a.os "darwin",
  eq_iff b.os "darwin",
  eq_iff b.os "linux",
)

-- A host runs images for its own architecture only, and for its own system or Linux only, whatever
-- names of them the two platforms use; the variant that the image asks for is covered.
pub compatible-arch :
    (a b : Platform)
    → compatible a b ≡ true
    → ((normalize a).architecture ≡ (normalize b).architecture)
      × (((normalize a).os ≡ (normalize b).os)
          ⊎ (((normalize b).os ≡ "linux")
              × (((normalize a).os ≡ "windows") ⊎ ((normalize a).os ≡ "darwin"))))
      × (variant_compatible (normalize a).variant (normalize b).variant ≡ true)
unfolding compatible new_compare is_compatible
compatible-arch a b h = compatible_to-arch (normalize a) (normalize b) h
