-- ===== src/Ref/Equal.antt =====
-- References to one registry and to one repository.
use regclient.Base.{ℕ, ◌≡◌, refl, ◌↔◌, ◌⊎◌, true, false, [], ◌∷◌, arith}
use regclient.Base.Text.{Chars, chars_eq, chars_eq_iff}
use regclient.Ref.{
  Ref, reg, ocidir, is_empty, common_name, is_set_repo, is_set, set_digest, set_tag, equal_registry,
  equal_repository,
}

-- The schemes that the comparisons know.
abbrev pub IsKnown : Chars → Type 0
IsKnown s = (s ≡ reg) ⊎ (s ≡ ocidir) ⊎ (s ≡ [])

-- What two references to one repository have in common.
abbrev pub SameRepository : Ref → Ref → Type 0
SameRepository a b =
    (a.scheme ≡ b.scheme)
    × (((a.scheme ≡ reg) × (a.registry ≡ b.registry) × (a.repository ≡ b.repository))
        ⊎ ((a.scheme ≡ ocidir) × (a.path ≡ b.path))
        ⊎ (a.scheme ≡ []))

nil-ne-known :
    (chars_eq [] reg ≡ false) × (chars_eq [] ocidir ≡ false) × (chars_eq ocidir reg ≡ false)
unfolding chars_eq
nil-ne-known = (refl, refl, refl)

is_empty_iff : (s : Chars) → (is_empty s ≡ true) ↔ (s ≡ [])
is_empty_iff [] = (λ h. refl, λ h. refl)
is_empty_iff (c ∷ s) = (λ h. cc, λ h. cc)

equal_repository_iff : (a b : Ref) → (equal_repository a b ≡ true) ↔ SameRepository a b
unfolding equal_repository
equal_repository_iff a b = (
  λ h. ground (
    arith,
    chars_eq_iff a.scheme b.scheme,
    chars_eq_iff a.scheme reg,
    chars_eq_iff a.scheme ocidir,
    chars_eq_iff a.registry b.registry,
    chars_eq_iff a.repository b.repository,
    chars_eq_iff a.path b.path,
    is_empty_iff a.scheme,
  ),
  λ s. ground (
    arith,
    chars_eq_iff a.scheme b.scheme,
    chars_eq_iff a.registry b.registry,
    chars_eq_iff a.repository b.repository,
    chars_eq_iff a.path b.path,
    chars_eq_iff reg reg,
    chars_eq_iff ocidir ocidir,
    nil-ne-known,
  ),
)

SameRepository-sym : (a b : Ref) → SameRepository a b → SameRepository b a
SameRepository-sym a b s = ground arith

SameRepository-trans : (a b c : Ref) → SameRepository a b → SameRepository b c → SameRepository a c
SameRepository-trans a b c s t = ground arith

known : (a : Ref) → SameRepository a a → IsKnown a.scheme
known a s = ground arith

itself : (a : Ref) → IsKnown a.scheme → SameRepository a a
itself a k = ground arith

equal_repository-registry : (a b : Ref) → equal_repository a b ≡ true → equal_registry a b ≡ true
unfolding equal_repository equal_registry
equal_repository-registry a b h = ground arith

-- `EqualRepository` is symmetric and transitive, and it holds of a reference and itself exactly if
-- the scheme is `reg`, `ocidir` or unset; where it holds, `EqualRegistry` does too.
pub equal_repository_equivalence :
    ((a b : Ref) → equal_repository a b ≡ true → equal_repository b a ≡ true)
    × ((a b c : Ref)
        → equal_repository a b ≡ true
        → equal_repository b c ≡ true
        → equal_repository a c ≡ true)
    × ((a : Ref) → (equal_repository a a ≡ true) ↔ IsKnown a.scheme)
    × ((a b : Ref) → equal_repository a b ≡ true → equal_registry a b ≡ true)
equal_repository_equivalence = (
  λ a b h. (equal_repository_iff b a).1 (SameRepository-sym a b ((equal_repository_iff a b).0 h)),
  λ a b c h k. (equal_repository_iff a c).1 (
      SameRepository-trans a b c ((equal_repository_iff a b).0 h) ((equal_repository_iff b c).0 k)),
  λ a. (
    λ h. known a ((equal_repository_iff a a).0 h),
    λ k. (equal_repository_iff a a).1 (itself a k),
  ),
  equal_repository-registry,
)

-- `SetTag` and `SetDigest` stay in the repository of the reference, set one of tag and digest and
-- clear the other, and store the common name of the result; with a value that is not empty the
-- result is complete exactly if the repository is set.
pub set_tag-set_digest :
    (r : Ref) (c : ℕ) (cs : Chars)
    → IsKnown r.scheme
    → let t = set_tag r (c ∷ cs) in
      let d = set_digest r (c ∷ cs) in
      (equal_repository t r ≡ true)
      × (equal_repository d r ≡ true)
      × (t.tag ≡ c ∷ cs)
      × (t.digest ≡ [])
      × (d.digest ≡ c ∷ cs)
      × (d.tag ≡ [])
      × (t.reference ≡ common_name t)
      × (d.reference ≡ common_name d)
      × (is_set t ≡ is_set_repo r)
      × (is_set d ≡ is_set_repo r)
unfolding set_tag set_digest is_set is_set_repo common_name
set_tag-set_digest r c cs k =
    let t = set_tag r (c ∷ cs) in
    let d = set_digest r (c ∷ cs) in
    (
      (equal_repository_iff t r).1 (itself r k),
      (equal_repository_iff d r).1 (itself r k),
      refl,
      refl,
      refl,
      refl,
      refl,
      refl,
      ground arith,
      ground arith,
    )
