-- ===== src/Auth/Scope/Actions.antt =====
-- Lists of actions: their extension and their inclusion.
use mathlib.Core.Path.{subst}
use regclient.Base.{
  ◌≡◌, refl, ◌∙◌, inl, inr, true, false, ◌&&◌, ◌||◌, List, [], ◌∷◌, ◌++◌, arith, Bool-cases, all,
}
use regclient.Base.Text.{Chars, chars_eq, chars_eq_iff, chars_eq_inst}
use regclient.Auth.Scope.{is_empty, contains, all_known, extend}

pub contains-append :
    (xs ys : List Chars) (a : Chars) → contains (xs ++ ys) a ≡ (contains xs a || contains ys a)
contains-append [] ys a = refl
contains-append (x ∷ xs) ys a = ground (arith, contains-append xs ys a)

pub contains-extend :
    (cur new : List Chars) (a : Chars)
    → contains (extend cur new) a ≡ (contains cur a || contains new a)
unfolding extend
contains-extend cur [] a = ground arith
contains-extend cur (x ∷ xs) a = elim (Bool-cases (contains cur x)) [
  | inl known ↦ rw known (contains-extend cur xs a ∙ ground (arith, chars_eq_iff x a, known))
  | inr new ↦
      rw new (contains-extend (cur ++ x ∷ []) xs a ∙ ground (arith, contains-append cur (x ∷ []) a))
]

all_known-append : (xs ys : List Chars) → all_known (xs ++ ys) ≡ (all_known xs && all_known ys)
all_known-append [] ys = refl
all_known-append (x ∷ xs) ys = ground (arith, all_known-append xs ys)

pub all_known-extend :
    (cur new : List Chars)
    → all_known cur ≡ true
    → all_known new ≡ true
    → all_known (extend cur new) ≡ true
unfolding extend
all_known-extend cur [] h k = h
all_known-extend cur (x ∷ xs) h k = elim (Bool-cases (contains cur x)) [
  | inl known ↦ rw known (all_known-extend cur xs h (ground arith))
  | inr new ↦ rw new (
      all_known-extend (cur ++ x ∷ []) xs (ground (arith, all_known-append cur (x ∷ [])))
        (ground arith))
]

pub is_empty-extend :
    (cur new : List Chars) → is_empty cur ≡ false → is_empty (extend cur new) ≡ false
unfolding extend
is_empty-extend cur [] h = h
is_empty-extend [] (x ∷ xs) h = cc
is_empty-extend (c ∷ cur) (x ∷ xs) h = elim (Bool-cases (contains (c ∷ cur) x)) [
  | inl known ↦ rw known (is_empty-extend (c ∷ cur) xs h)
  | inr new ↦ rw new (is_empty-extend (c ∷ cur ++ x ∷ []) xs refl)
]

-- The loop over the actions that are searched is an inclusion.
pub all-contains :
    (zs xs : List Chars)
    → ((a : Chars) → contains xs a ≡ true → contains zs a ≡ true)
    → all (contains zs) xs ≡ true
all-contains zs [] h = refl
all-contains zs (x ∷ xs) h =
    ground (arith, h x, chars_eq_iff x x, all-contains zs xs (λ a k. h a (ground (arith, k))))

pub contains-all :
    (zs xs : List Chars) (a : Chars)
    → all (contains zs) xs ≡ true
    → contains xs a ≡ true
    → contains zs a ≡ true
contains-all zs [] a h k = cc
contains-all zs (x ∷ xs) a h k = elim (Bool-cases (chars_eq x a)) [
  | inl here ↦ subst (λ y. contains zs y ≡ true) ((chars_eq_iff x a).0 here) (ground arith)
  | inr there ↦ contains-all zs xs a (ground arith) (ground arith)
]
