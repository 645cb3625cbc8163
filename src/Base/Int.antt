-- ===== src/Base/Int.antt =====
-- Go's `int`, and what bounds it at 64 bits. Where the source's arithmetic wraps, the model of it
-- computes with the pattern, modulo `word`.
use Prim.Native.Nat.{ℕ, ◌+◌, ◌*◌, ◌-◌}
use mathlib.Core.Bool.{Bool, true, false, ◌&&◌}
use mathlib.Core.Option.{Option, none, some}
use mathlib.Core.List.{List, [], ◌∷◌}
use regclient.Base.Tests.{ltb, leb, if◌then◌else◌, ◌==◌}

-- `negsuc n` is -(n + 1).
pub data ℤ : Type 0 where
  pos : ℕ → ℤ
  negsuc : ℕ → ℤ

abbrev pub ltb_ℤ : ℤ → ℤ → Bool
ltb_ℤ (pos a) (pos b) = ltb a b
ltb_ℤ (pos a) (negsuc b) = false
ltb_ℤ (negsuc a) (pos b) = true
ltb_ℤ (negsuc a) (negsuc b) = ltb b a

abbrev is_digit : ℕ → Bool
is_digit c = leb b'0' c && leb c b'9'

-- The value of a run of decimal digits behind those already read.
unfoldable pub digits : ℕ → List ℕ → Option ℕ
digits n [] = some n
digits n (c ∷ cs) = let rest = digits (n * 10 + (c - b'0')) cs in if is_digit c then rest else none

abbrev pub max_int : ℕ
max_int = 0x7fff_ffff_ffff_ffff

-- The number of patterns of 64 bits, and the first of those that stand for a number below zero.
abbrev pub word : ℕ
word = 0x1_0000_0000_0000_0000

abbrev pub half : ℕ
half = 0x8000_0000_0000_0000

-- At least one digit.
unfoldable pub number : List ℕ → Option ℕ
unfolding digits
number [] = none
number (c ∷ cs) = digits 0 (c ∷ cs)

abbrev negate : ℕ → Option ℤ
negate n =
    if n == 0 then some (pos 0) else if leb n (max_int + 1) then some (negsuc (n - 1)) else none

-- `strconv.Atoi` at 64 bits: a sign, decimal digits, and a value in range.
unfoldable pub atoi : List ℕ → Option ℤ
unfolding number
atoi [] = none
atoi (c ∷ cs) =
    if c == b'-'
    then elim (number cs) [ none ↦ none | some n ↦ negate n ]
    else elim (number (if c == b'+' then cs else c ∷ cs)) [
      | none ↦ none
      | some n ↦ if leb n max_int then some (pos n) else none
    ]
