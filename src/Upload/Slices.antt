-- ===== src/Upload/Slices.antt =====
-- Slices of lists of bytes, and writes to an array.
use regclient.Base.{
  ℕ, zero, suc, ◌+◌, ◌-◌, ◌≤◌, ◌≡◌, refl, sym, ap, ◌∙◌, List, [], ◌∷◌, ◌++◌, arith, length, take,
  drop, length-append, length-take,
}
use regclient.Upload.Chunks.{slice, write}

pub drop-nil : (n : ℕ) → drop {A = ℕ} n [] ≡ []
drop-nil zero = refl
drop-nil (suc n) = refl

pub take-nil : (n : ℕ) → take {A = ℕ} n [] ≡ []
take-nil zero = refl
take-nil (suc n) = refl

pub length-drop : (n : ℕ) (xs : List ℕ) → length (drop n xs) ≡ length xs - n
length-drop zero xs = omega arith
length-drop (suc n) [] = omega arith
length-drop (suc n) (x ∷ xs) = omega (arith, length-drop n xs)

pub drop-drop : (m n : ℕ) (xs : List ℕ) → drop m (drop n xs) ≡ drop (n + m) xs
drop-drop m zero xs = ap (λ k. drop k xs) (omega arith)
drop-drop m (suc n) [] = drop-nil m ∙ sym (drop-nil (suc n + m))
drop-drop m (suc n) (x ∷ xs) =
    let e : suc (n + m) ≡ suc n + m = omega arith in drop-drop m n xs ∙ ap (λ k. drop k (x ∷ xs)) e

pub drop-all : (n : ℕ) (xs : List ℕ) → length xs ≤ n → drop n xs ≡ []
drop-all n [] h = drop-nil n
drop-all zero (x ∷ xs) h = absurd (omega arith)
drop-all (suc n) (x ∷ xs) h = drop-all n xs (omega arith)

pub take-all : (n : ℕ) (xs : List ℕ) → length xs ≤ n → take n xs ≡ xs
take-all zero [] h = refl
take-all (suc n) [] h = refl
take-all zero (x ∷ xs) h = absurd (omega arith)
take-all (suc n) (x ∷ xs) h = ap (λ ys. x ∷ ys) (take-all n xs (omega arith))

pub take-append : (xs ys : List ℕ) → take (length xs) (xs ++ ys) ≡ xs
take-append [] ys = refl
take-append (x ∷ xs) ys = ap (λ zs. x ∷ zs) (take-append xs ys)

-- A drop of what precedes.
drop-append : (xs ys : List ℕ) → drop (length xs) (xs ++ ys) ≡ ys
drop-append [] ys = refl
drop-append (x ∷ xs) ys = drop-append xs ys

pub take-slice : (a n : ℕ) (xs : List ℕ) → take a xs ++ slice xs a n ≡ take (a + n) xs
take-slice zero n xs = ap (λ k. take k xs) (omega arith)
take-slice (suc a) n [] = take-nil n ∙ sym (take-nil (suc a + n))
take-slice (suc a) n (x ∷ xs) =
    let e : suc (a + n) ≡ suc a + n = omega arith in
    ap (λ ys. x ∷ ys) (take-slice a n xs) ∙ ap (λ k. take k (x ∷ xs)) e

pub take-take : (m n : ℕ) (xs : List ℕ) → m ≤ n → take m (take n xs) ≡ take m xs
take-take zero n xs h = refl
take-take (suc m) zero xs h = absurd (omega arith)
take-take (suc m) (suc n) [] h = refl
take-take (suc m) (suc n) (x ∷ xs) h = ap (λ ys. x ∷ ys) (take-take m n xs (omega arith))

-- The end of a slice.
pub drop-take : (k n : ℕ) (xs : List ℕ) → drop k (take n xs) ≡ take (n - k) (drop k xs)
drop-take zero n xs = ap (λ j. take j xs) (omega arith)
drop-take (suc k) zero xs =
    let e : zero - suc k ≡ 0 = omega arith in
    drop-nil (suc k) ∙ sym (ap (λ j. take j (drop (suc k) xs)) e)
drop-take (suc k) (suc n) [] = sym (take-nil (suc n - suc k))
drop-take (suc k) (suc n) (x ∷ xs) = drop-take k n xs ∙ ap (λ j. take j (drop k xs)) (omega arith)

pub drop-slice : (k a n : ℕ) (xs : List ℕ) → drop k (slice xs a n) ≡ slice xs (a + k) (n - k)
drop-slice k a n xs = drop-take k n (drop a xs) ∙ ap (take (n - k)) (drop-drop k a xs)

pub length-write :
    (xs bytes : List ℕ) (off : ℕ)
    → off + length bytes ≤ length xs
    → length (write xs off bytes) ≡ length xs
length-write xs bytes off h = omega (
  arith,
  length-append (take off xs) (bytes ++ drop (off + length bytes) xs),
  length-append bytes (drop (off + length bytes) xs),
  length-take off xs,
  length-drop (off + length bytes) xs,
)

-- What was written is read.
pub slice-write :
    (xs bytes : List ℕ) (off : ℕ)
    → off ≤ length xs
    → slice (write xs off bytes) off (length bytes) ≡ bytes
slice-write xs bytes off h =
    let later = drop (off + length bytes) xs in
    let n : length (take off xs) ≡ off = omega (arith, length-take off xs) in
    ap (take (length bytes))
      (sym (ap (λ k. drop k (write xs off bytes)) n) ∙ drop-append (take off xs) (bytes ++ later))
    ∙ take-append bytes later
