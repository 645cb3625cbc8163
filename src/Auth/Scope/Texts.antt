-- ===== src/Auth/Scope/Texts.antt =====
-- Texts that are cut, split and joined at separators.
use regclient.Base.{
  ℕ, ◌≡◌, refl, ap, ◌∙◌, ◌⊎◌, inl, inr, false, some, List, [], ◌∷◌, ◌++◌, arith, ◌==◌, ==_iff,
  Bool-cases, All,
}
use regclient.Base.Text.{Chars, split, join, chars_eq, chars_eq_inst}
use regclient.Auth.Scope.{is_empty, has_prefix, cut}

-- No separator stands in the text.
abbrev pub Free : ℕ → Chars → Type 0
Free sep s = All (λ c. c == sep ≡ false) s

pub cut_at : (sep : ℕ) (a b : Chars) → Free sep a → cut sep (a ++ (sep ∷ b)) ≡ (a, some b)
unfolding cut
cut_at sep [] b h = ground arith
cut_at sep (c ∷ a) b h = rw (cut_at sep a b h.1, h.0) refl

pub cut-Free : (sep : ℕ) (s : Chars) → Free sep (cut sep s).0
unfolding cut
cut-Free sep [] = tt
cut-Free sep (c ∷ s) = elim (Bool-cases (c == sep)) [
  | inl here ↦ rw here tt
  | inr there ↦ rw there (there, cut-Free sep s)
]

pub cut-some : (sep : ℕ) (s b : Chars) → (cut sep s).1 ≡ some b → s ≡ (cut sep s).0 ++ (sep ∷ b)
unfolding cut
cut-some sep [] b h = cc
cut-some sep (c ∷ s) b h = ground (arith, cut-some sep s b, ==_iff c sep)

pub has_prefix-append : (p s t : Chars) → has_prefix (p ++ s) (p ++ t) ≡ has_prefix s t
unfolding has_prefix
has_prefix-append [] s t = refl
has_prefix-append (c ∷ p) s t = ground (arith, has_prefix-append p s t)

-- A text with a separator behind it is a prefix only where the two first parts are equal.
pub has_prefix_part :
    (sep : ℕ) (a b t : Chars)
    → Free sep a
    → Free sep b
    → has_prefix (a ++ sep ∷ []) (b ++ (sep ∷ t)) ≡ chars_eq a b
unfolding has_prefix chars_eq
has_prefix_part sep [] [] t h k = ground arith
has_prefix_part sep [] (d ∷ b) t h k = ground arith
has_prefix_part sep (c ∷ a) [] t h k = ground arith
has_prefix_part sep (c ∷ a) (d ∷ b) t h k = ground (arith, has_prefix_part sep a b t h.1 k.1)

Cons-cases : (xs : List Chars) → (xs ≡ []) ⊎ ((p : Chars) × (ps : List Chars) × (xs ≡ p ∷ ps))
Cons-cases [] = inl refl
Cons-cases (p ∷ ps) = inr (p, ps, refl)

pub split-is_empty : (sep : ℕ) (s : Chars) → is_empty (split sep s) ≡ false
unfolding split
split-is_empty sep [] = refl
split-is_empty sep (c ∷ s) = elim (Cons-cases (split sep s)) [
  | inl e ↦ rw e refl
  | inr (p, ps, e) ↦ rw e (ground arith)
]

split_part : (sep : ℕ) (a : Chars) → Free sep a → split sep a ≡ a ∷ []
unfolding split
split_part sep [] h = refl
split_part sep (c ∷ a) h = rw (split_part sep a h.1, h.0) refl

split-append : (sep : ℕ) (a b : Chars) → Free sep a → split sep (a ++ (sep ∷ b)) ≡ a ∷ split sep b
unfolding split
split-append sep [] b h = ground (arith, split-is_empty sep b)
split-append sep (c ∷ a) b h = rw (split-append sep a b h.1, h.0) refl

-- `strings.Split` reads what `strings.Join` wrote.
pub split-join :
    (sep : ℕ) (xs : List Chars)
    → is_empty xs ≡ false
    → All (Free sep) xs
    → split sep (join sep xs) ≡ xs
unfolding join
split-join sep [] n h = cc
split-join sep (x ∷ []) n h = split_part sep x h.0
split-join sep (x ∷ y ∷ ys) n h =
    split-append sep x (join sep (y ∷ ys)) h.0
    ∙ ap (λ zs. x ∷ zs) (split-join sep (y ∷ ys) refl h.1)
