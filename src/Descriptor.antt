-- ===== src/Descriptor.antt =====
-- types/descriptor/descriptor.go, and the media types of types/mediatype/mediatype.go that it maps.
pub mod Media
pub mod Same
pub mod Search
mod Tests
use regclient.Base.{
  ℕ, zero, suc, ◌+◌, ◌-◌, ◌*◌, ◌/◌, ◌%◌, ◌≤◌, ◌<◌, min, String, ◌≡◌, refl, sym, ap, ◌∙◌, ◌≢◌, ◌↔◌,
  ◌⊎◌, inl, inr, Bool, true, false, not, ◌&&◌, ◌||◌, Option, none, some, List, [], ◌∷◌, ◌++◌, map,
  arith, ltb, leb, ◌==◌, ==_iff, if◌then◌else◌, Bool-cases, Option-cases, is_some, length,
  get_elem?, take, drop, length-append, length-take, All, All-append, any, all,
}
use regclient.Base.Int.{ℤ, pos, negsuc}
use regclient.Base.Text.{Chars, codes, chars_eq, chars_eq_inst}
use regclient.Base.Maps.{lookup}
use regclient.Errs.{Result, ok, err, not_found}
use regclient.Platform.{
  Platform, zero_platform, Compare, new_compare, match as match_platform, compatible, better,
}
use Media.{mt_to_oci}

-- `Descriptor`. A nil slice, map or pointer is `none`; `digestAlgo` is not used here.
pub record Descriptor : Type 0 where
  pub media_type : Chars
  pub digest : Chars
  pub size : ℤ
  pub urls : Option (List Chars)
  pub annotations : Option (List (Chars × Chars))
  pub content : Chars
  pub platform : Option Platform
  pub artifact_type : Chars

abbrev pub is_empty {ℓ} : {A : Type ℓ} → List A → Bool
is_empty [] = true
is_empty (x ∷ xs) = false

abbrev size_eq : ℤ → ℤ → Bool
size_eq (pos a) (pos b) = a == b
size_eq (pos a) (negsuc b) = false
size_eq (negsuc a) (pos b) = false
size_eq (negsuc a) (negsuc b) = a == b

-- The test on media types in `Same`.
unfoldable pub same_media : Chars → Chars → Bool
same_media a b =
    chars_eq a b || (chars_eq (mt_to_oci a) (mt_to_oci b) && not (is_empty (mt_to_oci a)))

-- `Same`.
unfoldable pub same : Descriptor → Descriptor → Bool
same d d2 =
    if not (chars_eq d.digest d2.digest) || not (size_eq d.size d2.size)
    then false
    else same_media d.media_type d2.media_type

-- `m[k]`, the empty text for a missing key.
unfoldable pub value_at : List (Chars × Chars) → Chars → Chars
value_at m k = elim (lookup k m) [ none ↦ [] | some v ↦ v ]

unfoldable pub platform_eq : Option Platform → Option Platform → Bool
platform_eq none none = true
platform_eq none (some q) = false
platform_eq (some p) none = false
platform_eq (some p) (some q) = match_platform p q

-- The elements of two slices of one length.
unfoldable pub all_eq : List Chars → List Chars → Bool
all_eq [] bs = true
all_eq (a ∷ as') [] = false
all_eq (a ∷ as') (b ∷ bs) = chars_eq a b && all_eq as' bs

unfoldable pub urls_eq : Option (List Chars) → Option (List Chars) → Bool
urls_eq none none = true
urls_eq none (some bs) = false
urls_eq (some as') none = false
urls_eq (some as') (some bs) = if not (length as' == length bs) then false else all_eq as' bs

-- The comparison of annotations in `Equal`: the lengths, then the value at each key of the first map.
unfoldable pub annotations_eq : Option (List (Chars × Chars)) → Option (List (Chars × Chars)) → Bool
annotations_eq none none = true
annotations_eq none (some n) = false
annotations_eq (some m) none = false
annotations_eq (some m) (some n) =
    if not (length m == length n)
    then false
    else all (λ e. chars_eq (value_at m e.0) (value_at n e.0)) m

-- `Equal`.
unfoldable pub equal : Descriptor → Descriptor → Bool
equal d d2 =
    if not (same d d2)
    then false
    else if not (chars_eq d.media_type d2.media_type)
    then false
    else if not (chars_eq d.artifact_type d2.artifact_type)
    then false
    else if not (platform_eq d.platform d2.platform)
    then false
    else if not (urls_eq d.urls d2.urls)
    then false
    else annotations_eq d.annotations d2.annotations

pub record MatchOpt : Type 0 where
  pub platform : Option Platform
  pub artifact_type : Chars
  pub annotations : List (Chars × Chars)
  pub sort_annotation : Chars
  pub sort_desc : Bool

-- One round of the loop over `opt.Annotations`.
unfoldable pub has_annotation : List (Chars × Chars) → Chars → Chars → Bool
has_annotation m k v = elim (lookup k m) [ none ↦ false | some dv ↦ is_empty v || chars_eq v dv ]

unfoldable pub match_annotations : Option (List (Chars × Chars)) → List (Chars × Chars) → Bool
match_annotations none wanted = is_empty wanted
match_annotations (some m) wanted = all (λ e. has_annotation m e.0 e.1) wanted

unfoldable pub match_platforms : Option Platform → Option Platform → Bool
match_platforms none p = true
match_platforms (some want) none = false
match_platforms (some want) (some p) = compatible want p

-- `Match`.
unfoldable pub match : Descriptor → MatchOpt → Bool
match d opt =
    if not (is_empty opt.artifact_type) && not (chars_eq d.artifact_type opt.artifact_type)
    then false
    else if not (match_annotations d.annotations opt.annotations)
    then false
    else match_platforms opt.platform d.platform

-- The loop of `DescriptorListFilter`.
unfoldable pub filter_matches : List Descriptor → MatchOpt → List Descriptor
filter_matches [] opt = []
filter_matches (d ∷ dl) opt =
    let rest = filter_matches dl opt in if match d opt then d ∷ rest else rest

-- The loop of `DescriptorListSearch`, with `ret` (if `found`) and `retPlat`.
unfoldable pub scan : Compare → List Descriptor → Option Descriptor → Platform → Option Descriptor
scan comp [] ret ret_plat = ret
scan comp (d ∷ dl) ret ret_plat = elim d.platform [
  | none ↦ scan comp dl ret ret_plat
  | some p ↦
      let next = scan comp dl (some d) p in
      let stay = scan comp dl ret ret_plat in if better comp p ret_plat then next else stay
]

-- The end of `DescriptorListSearch`, on the list that was filtered if need be.
unfoldable pub choose : List Descriptor → Option Platform → Result Descriptor
choose [] want = err not_found
choose (d ∷ dl) none = ok d
choose (d ∷ dl) (some want) = elim (scan (new_compare want) (d ∷ dl) none zero_platform) [
  | none ↦ err not_found
  | some r ↦ ok r
]

-- The test whether `DescriptorListSearch` calls `DescriptorListFilter`.
abbrev pub filters : MatchOpt → Bool
filters opt =
    not (is_empty opt.artifact_type)
    || not (is_empty opt.sort_annotation)
    || not (is_empty opt.annotations)

module _ (sort : MatchOpt → List Descriptor → List Descriptor) where
  -- `DescriptorListFilter`. How `sort.Slice` orders the matches by an annotation is a parameter.
  unfoldable pub descriptor_list_filter : List Descriptor → MatchOpt → List Descriptor
  descriptor_list_filter dl opt =
      let matches = filter_matches dl opt in
      if is_empty opt.sort_annotation then matches else sort opt matches

  unfoldable pub descriptor_list_search : List Descriptor → MatchOpt → Result Descriptor
  descriptor_list_search dl opt =
      choose (if filters opt then descriptor_list_filter dl opt else dl) opt.platform
