-- ===== src/Descriptor/Same.antt =====
-- `Same` and `Equal` as relations.
use regclient.Base.{
  ℕ, ◌≡◌, refl, ◌∙◌, ◌≢◌, ◌↔◌, ◌⊎◌, inl, true, false, Option, none, some, List, [], ◌∷◌, arith,
}
use regclient.Base.Int.{ℤ, pos, negsuc}
use regclient.Base.Text.{Chars, chars_eq, chars_eq_iff}
use regclient.Base.Maps.{lookup}
use regclient.Platform.{Platform}
use regclient.Platform.Match.{match_equivalence}
use regclient.Descriptor.{
  Descriptor, is_empty, size_eq, same_media, same, value_at, platform_eq, all_eq, urls_eq,
  annotations_eq, equal,
}
use regclient.Descriptor.Media.{mt_to_oci}

size_eq_iff : (a b : ℤ) → (size_eq a b ≡ true) ↔ (a ≡ b)
size_eq_iff (pos a) (pos b) = (λ h. ground arith, λ h. ground arith)
size_eq_iff (pos a) (negsuc b) = (λ h. cc, λ h. cc)
size_eq_iff (negsuc a) (pos b) = (λ h. cc, λ h. cc)
size_eq_iff (negsuc a) (negsuc b) = (λ h. ground arith, λ h. ground arith)

-- Media types that stand for one kind of content.
abbrev pub SameMedia : Chars → Chars → Type 0
SameMedia a b = (a ≡ b) ⊎ ((mt_to_oci a ≡ mt_to_oci b) × (mt_to_oci a ≢ []))

is_empty_iff : (s : Chars) → (is_empty s ≡ true) ↔ (s ≡ [])
is_empty_iff [] = (λ h. refl, λ h. refl)
is_empty_iff (c ∷ s) = (λ h. cc, λ h. cc)

same_media_iff : (a b : Chars) → (same_media a b ≡ true) ↔ SameMedia a b
unfolding same_media
same_media_iff a b = (
  λ h. ground (
    arith,
    chars_eq_iff a b,
    chars_eq_iff (mt_to_oci a) (mt_to_oci b),
    is_empty_iff (mt_to_oci a),
  ),
  λ s. ground (
    arith,
    chars_eq_iff a b,
    chars_eq_iff (mt_to_oci a) (mt_to_oci b),
    is_empty_iff (mt_to_oci a),
  ),
)

-- What `Same` compares.
abbrev pub SameContent : Descriptor → Descriptor → Type 0
SameContent d e = (d.digest ≡ e.digest) × (d.size ≡ e.size) × SameMedia d.media_type e.media_type

-- `Same` holds exactly of descriptors with one digest and one size whose media types are equal or
-- are converted to one OCI media type.
pub same_iff : (d e : Descriptor) → (same d e ≡ true) ↔ SameContent d e
unfolding same
same_iff d e = (
  λ h. ground (
    arith,
    chars_eq_iff d.digest e.digest,
    size_eq_iff d.size e.size,
    same_media_iff d.media_type e.media_type,
  ),
  λ s. ground (
    arith,
    chars_eq_iff d.digest e.digest,
    size_eq_iff d.size e.size,
    same_media_iff d.media_type e.media_type,
  ),
)

SameContent-sym : (d e : Descriptor) → SameContent d e → SameContent e d
SameContent-sym d e s = ground arith

SameContent-trans : (d e f : Descriptor) → SameContent d e → SameContent e f → SameContent d f
SameContent-trans d e f s t = ground arith

-- `Same` is an equivalence: a descriptor converted from Docker to OCI media types, and back, is
-- the same all along.
pub same_equivalence :
    ((d : Descriptor) → same d d ≡ true)
    × ((d e : Descriptor) → same d e ≡ true → same e d ≡ true)
    × ((d e f : Descriptor) → same d e ≡ true → same e f ≡ true → same d f ≡ true)
same_equivalence = (
  λ d. (same_iff d d).1 (refl, refl, inl refl),
  λ d e h. (same_iff e d).1 (SameContent-sym d e ((same_iff d e).0 h)),
  λ d e f h k. (same_iff d f).1 (SameContent-trans d e f ((same_iff d e).0 h) ((same_iff e f).0 k)),
)

platform_eq_self : (p : Option Platform) → platform_eq p p ≡ true
unfolding platform_eq
platform_eq_self none = refl
platform_eq_self (some p) = match_equivalence.0 p

all_eq_self : (xs : List Chars) → all_eq xs xs ≡ true
unfolding all_eq
all_eq_self [] = refl
all_eq_self (x ∷ xs) = ground (arith, chars_eq_iff x x, all_eq_self xs)

urls_eq_self : (u : Option (List Chars)) → urls_eq u u ≡ true
unfolding urls_eq
urls_eq_self none = refl
urls_eq_self (some u) = ground (arith, all_eq_self u)

-- `equal` behind the comparisons that a change of annotations leaves alone.
equal-annotations :
    (d : Descriptor) (m n : Option (List (Chars × Chars)))
    → equal (record d { annotations = m }) (record d { annotations = n }) ≡ annotations_eq m n
unfolding equal
equal-annotations d m n = ground (
  arith,
  same_equivalence.0 d,
  (same_iff (record d { annotations = m }) (record d { annotations = n })).1 (refl, refl, inl refl),
  chars_eq_iff d.media_type d.media_type,
  chars_eq_iff d.artifact_type d.artifact_type,
  platform_eq_self d.platform,
  urls_eq_self d.urls,
)

chars_eq_nil : (c : ℕ) (v : Chars) → (chars_eq [] [] ≡ true) × (chars_eq (c ∷ v) [] ≡ false)
unfolding chars_eq
chars_eq_nil c v = (refl, refl)

annotations_eq-missing :
    (k k' : Chars) (c : ℕ) (v : Chars)
    → k ≢ k'
    → (annotations_eq (some ((k, []) ∷ [])) (some ((k', c ∷ v) ∷ [])) ≡ true)
      × (annotations_eq (some ((k', c ∷ v) ∷ [])) (some ((k, []) ∷ [])) ≡ false)
unfolding annotations_eq value_at lookup
annotations_eq-missing k k' c v ne = ground (
  arith,
  chars_eq_iff k k',
  chars_eq_iff k' k,
  chars_eq_iff k k,
  chars_eq_iff k' k',
  chars_eq_nil c v,
)

-- A defect. `Equal` compares the annotations at the keys of its receiver only, and reads a missing
-- key as an empty value: a descriptor with one empty annotation is `Equal` to the one that has,
-- in its place, another key with any other value, though not the other way round.
pub equal-asymmetric :
    (d : Descriptor) (k k' : Chars) (c : ℕ) (v : Chars)
    → k ≢ k'
    → let e = record d { annotations = some ((k, []) ∷ []) } in
      let f = record d { annotations = some ((k', c ∷ v) ∷ []) } in
      (equal e f ≡ true) × (equal f e ≡ false)
equal-asymmetric d k k' c v ne =
    let (p, q) = annotations_eq-missing k k' c v ne in
    (equal-annotations d _ _ ∙ p, equal-annotations d _ _ ∙ q)
