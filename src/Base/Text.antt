-- ===== src/Base/Text.antt =====
-- Texts: a native `String` where the program only compares, a list of code points where it walks.
use Prim.Native.Nat.{ℕ}
use Prim.Native.Char.{code}
use Prim.Native.String.{String}
use mathlib.Core.Path.{◌≡◌, refl}
use mathlib.Core.Bool.{Bool, true, false, ◌&&◌}
use mathlib.Core.Logic.{◌↔◌}
use mathlib.Core.List.{List, [], ◌∷◌}
use native.Mathlib.Omega.{arith}
pub use text.Mathlib.Text.{◌==◌ as str_eq}
pub use text.Mathlib.TextEquality.{eq_iff}
use mathlib.Core.List.{◌++◌}
use regclient.Base.Tests.{◌==◌, ==_iff, if◌then◌else◌}

abbrev pub Chars : Type 0
Chars = List ℕ

-- The code points of a text.
abbrev pub codes : String → Chars
codes String.[] = []
codes (String.◌∷◌ c s) = code c ∷ codes s

-- Equality that is decided, for keys and for the operands of `==`.
pub record Eq {ℓ} (A : Type ℓ) : Type ℓ where
  pub beq : A → A → Bool
  pub beq_iff : (a b : A) → (beq a b ≡ true) ↔ (a ≡ b)

unfoldable pub chars_eq : Chars → Chars → Bool
chars_eq [] [] = true
chars_eq [] (y ∷ ys) = false
chars_eq (x ∷ xs) [] = false
chars_eq (x ∷ xs) (y ∷ ys) = x == y && chars_eq xs ys

chars_eq→eq : (xs ys : Chars) → chars_eq xs ys ≡ true → xs ≡ ys
unfolding chars_eq
chars_eq→eq [] [] h = refl
chars_eq→eq [] (y ∷ ys) h = ground arith
chars_eq→eq (x ∷ xs) [] h = ground arith
chars_eq→eq (x ∷ xs) (y ∷ ys) h = ground (arith, chars_eq→eq xs ys)

chars_eq_self : (xs : Chars) → chars_eq xs xs ≡ true
unfolding chars_eq
chars_eq_self [] = refl
chars_eq_self (x ∷ xs) = ground (arith, chars_eq_self xs)

pub chars_eq_iff : (xs ys : Chars) → (chars_eq xs ys ≡ true) ↔ (xs ≡ ys)
chars_eq_iff xs ys = (chars_eq→eq xs ys, λ e. rw e (chars_eq_self ys))

instance abbrev pub nat_eq : Eq ℕ
nat_eq = record { beq = ◌==◌; beq_iff = ==_iff }

instance abbrev pub string_eq : Eq String
string_eq = record { beq = str_eq; beq_iff = eq_iff }

instance abbrev pub chars_eq_inst : Eq Chars
chars_eq_inst = record { beq = chars_eq; beq_iff = chars_eq_iff }

-- `strings.Split` at a separator of one character; there is always a first part.
unfoldable pub split : ℕ → Chars → List Chars
split sep [] = [] ∷ []
split sep (c ∷ cs) = elim (split sep cs) [
  | [] ↦ [] ∷ []
  | part ∷ parts ↦ if c == sep then [] ∷ part ∷ parts else (c ∷ part) ∷ parts
]

-- `strings.Join` with a separator of one character.
unfoldable pub join : ℕ → List Chars → Chars
join sep [] = []
join sep (p ∷ []) = p
join sep (p ∷ q ∷ ps) = p ++ (sep ∷ join sep (q ∷ ps))

-- `a[i] == b[i]` for all i, on slices of one length.
unfoldable pub str_slice_eq : List String → List String → Bool
str_slice_eq [] [] = true
str_slice_eq [] (y ∷ ys) = false
str_slice_eq (x ∷ xs) [] = false
str_slice_eq (x ∷ xs) (y ∷ ys) = str_eq x y && str_slice_eq xs ys

str_slice_eq→eq : (xs ys : List String) → str_slice_eq xs ys ≡ true → xs ≡ ys
unfolding str_slice_eq
str_slice_eq→eq [] [] h = refl
str_slice_eq→eq [] (y ∷ ys) h = ground arith
str_slice_eq→eq (x ∷ xs) [] h = ground arith
str_slice_eq→eq (x ∷ xs) (y ∷ ys) h = ground (arith, str_slice_eq→eq xs ys, eq_iff x y)

str_slice_eq_self : (xs : List String) → str_slice_eq xs xs ≡ true
unfolding str_slice_eq
str_slice_eq_self [] = refl
str_slice_eq_self (x ∷ xs) = ground (arith, str_slice_eq_self xs, eq_iff x x)

pub str_slice_eq_iff : (xs ys : List String) → (str_slice_eq xs ys ≡ true) ↔ (xs ≡ ys)
str_slice_eq_iff xs ys = (str_slice_eq→eq xs ys, λ e. rw e (str_slice_eq_self ys))
