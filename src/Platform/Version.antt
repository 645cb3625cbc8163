-- ===== src/Platform/Version.antt =====
-- Versions and variants in types/platform/compare.go.
use regclient.Base.{
  Option, String, Bool, true, false, not, ◌&&◌, ◌||◌, none, some, List, [], ◌∷◌, ltb, ◌==◌,
  if◌then◌else◌, length, take,
}
use regclient.Base.Text.{Chars, codes, str_eq, split, join, chars_eq}
use regclient.Base.Int.{ℤ, pos, ltb_ℤ, atoi}

-- `strings.TrimPrefix(v, "v")`.
unfoldable pub trim_v : Chars → Chars
trim_v [] = []
trim_v (c ∷ cs) = if c == b'v' then cs else c ∷ cs

unfoldable pub variant_ver : String → ℤ
unfolding trim_v atoi
variant_ver v = elim (atoi (trim_v (codes v))) [ none ↦ pos 0 | some n ↦ n ]

abbrev is_one : ℤ → Bool
is_one (pos n) = n == 1
is_one _ = false

unfoldable pub variant_compatible : String → String → Bool
unfolding variant_ver
variant_compatible host target =
    not (ltb_ℤ (variant_ver host) (variant_ver target))
    || (is_one (variant_ver host) && str_eq target "")
    || (str_eq host "" && is_one (variant_ver target))

-- The first three parts of a version that has four or more.
unfoldable pub os_ver_semver : String → Chars
unfolding split join
os_ver_semver ver =
    let parts = split b'.' (codes ver) in
    if ltb (length parts) 4 then codes ver else join b'.' (take 3 parts)

unfoldable pub os_ver_compatible : String → String → Bool
unfolding os_ver_semver chars_eq
os_ver_compatible host target =
    if str_eq host "" then true else chars_eq (os_ver_semver host) (os_ver_semver target)

-- The results -1, 0 and 1 of `semverCmp`.
pub data Sign : Type 0 where
  less same more : Sign

-- One round of the loop, on the parts as numbers; `rest` is the result of the later rounds.
unfoldable pub part_cmp : Option ℤ → Option ℤ → Sign → Sign
part_cmp none none rest = same
part_cmp none (some y) rest = less
part_cmp (some x) none rest = more
part_cmp (some x) (some y) rest = if ltb_ℤ x y then less else if ltb_ℤ y x then more else rest

-- The loop over the parts.
unfoldable pub parts_cmp : List Chars → List Chars → Sign
unfolding atoi part_cmp
parts_cmp [] bs = same
parts_cmp (a ∷ as') [] = more
parts_cmp (a ∷ as') (b ∷ bs) = part_cmp (atoi a) (atoi b) (parts_cmp as' bs)

unfoldable pub semver_cmp : String → String → Sign
unfolding split parts_cmp
semver_cmp a b = parts_cmp (split b'.' (codes a)) (split b'.' (codes b))
