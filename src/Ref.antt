-- ===== src/Ref.antt =====
-- types/ref/ref.go, but for the parsing by regular expressions.
pub mod Names
pub mod Equal
mod Tests
use regclient.Base.{
  ℕ, zero, suc, ◌+◌, ◌-◌, ◌*◌, ◌/◌, ◌%◌, ◌≤◌, ◌<◌, min, String, ◌≡◌, refl, sym, ap, ◌∙◌, ◌≢◌, ◌↔◌,
  ◌⊎◌, inl, inr, Bool, true, false, not, ◌&&◌, ◌||◌, Option, none, some, List, [], ◌∷◌, ◌++◌, map,
  arith, ltb, leb, ◌==◌, ==_iff, if◌then◌else◌, Bool-cases, Option-cases, is_some, length,
  get_elem?, take, drop, length-append, length-take, All, All-append, any, all,
}
use regclient.Base.Text.{Chars, codes, chars_eq}

pub record Ref : Type 0 where
  pub scheme : Chars
  pub reference : Chars
  pub registry : Chars
  pub repository : Chars
  pub tag : Chars
  pub digest : Chars
  pub path : Chars

abbrev pub reg : Chars
reg = codes "reg"

abbrev pub ocidir : Chars
ocidir = codes "ocidir"

-- `s == ""`.
abbrev pub is_empty : Chars → Bool
is_empty [] = true
is_empty (c ∷ cs) = false

-- `cn + sep + s`, left out for an empty `s`.
unfoldable pub suffix : ℕ → Chars → Chars
suffix sep [] = []
suffix sep (c ∷ cs) = sep ∷ c ∷ cs

-- The registry and a slash, left out for an empty registry.
unfoldable pub prefix : Chars → Chars
prefix [] = []
prefix (c ∷ cs) = (c ∷ cs) ++ (b'/' ∷ [])

unfoldable pub common_name : Ref → Chars
common_name r =
    if chars_eq r.scheme reg
    then if is_empty r.repository
      then []
      else prefix r.registry ++ (r.repository ++ (suffix b':' r.tag ++ suffix b'@' r.digest))
    else if chars_eq r.scheme ocidir
    then codes "ocidir://" ++ (r.path ++ (suffix b':' r.tag ++ suffix b'@' r.digest))
    else []

unfoldable pub is_set_repo : Ref → Bool
is_set_repo r =
    if chars_eq r.scheme reg
    then not (is_empty r.registry) && not (is_empty r.repository)
    else if chars_eq r.scheme ocidir
    then not (is_empty r.path)
    else false

unfoldable pub is_set : Ref → Bool
is_set r =
    if not (is_set_repo r)
    then false
    else if chars_eq r.scheme reg && is_empty r.tag && is_empty r.digest
    then false
    else true

unfoldable pub is_zero : Ref → Bool
is_zero r =
    is_empty r.scheme
    && is_empty r.registry
    && is_empty r.repository
    && is_empty r.path
    && is_empty r.tag
    && is_empty r.digest

unfoldable pub set_digest : Ref → Chars → Ref
set_digest r digest =
    let r' = record r { digest = digest; tag = [] } in record r' { reference = common_name r' }

unfoldable pub set_tag : Ref → Chars → Ref
set_tag r tag =
    let r' = record r { tag = tag; digest = [] } in record r' { reference = common_name r' }

unfoldable pub equal_registry : Ref → Ref → Bool
equal_registry a b =
    if not (chars_eq a.scheme b.scheme)
    then false
    else if chars_eq a.scheme reg
    then chars_eq a.registry b.registry
    else if chars_eq a.scheme ocidir
    then chars_eq a.path b.path
    else is_empty a.scheme

unfoldable pub equal_repository : Ref → Ref → Bool
equal_repository a b =
    if not (chars_eq a.scheme b.scheme)
    then false
    else if chars_eq a.scheme reg
    then chars_eq a.registry b.registry && chars_eq a.repository b.repository
    else if chars_eq a.scheme ocidir
    then chars_eq a.path b.path
    else is_empty a.scheme
