-- ===== src/Platform/Order.antt =====
-- `Better` as an order on the targets of one host.
use regclient.Base.{
  Option, none, some, String, ◌≡◌, refl, Bool, true, false, Option, none, some, List, [], ◌∷◌,
  arith,
}
use regclient.Base.Text.{Chars, codes, split, eq_iff}
use regclient.Base.Int.{ℤ, pos, negsuc, ltb_ℤ, atoi}
use regclient.Platform.{
  Platform, Compare, normalize, favour, better_version, better_variant, better_than, better,
}
use regclient.Platform.Version.{variant_ver, Sign, less, more, part_cmp, parts_cmp, semver_cmp}

pub ltb_ℤ_asym : (a b : ℤ) → ltb_ℤ a b ≡ true → ltb_ℤ b a ≡ false
ltb_ℤ_asym (pos a) (pos b) h = ground arith
ltb_ℤ_asym (pos a) (negsuc b) h = cc
ltb_ℤ_asym (negsuc a) (pos b) h = refl
ltb_ℤ_asym (negsuc a) (negsuc b) h = ground arith

part_cmp_asym :
    (x y : Option ℤ) (rest rest' : Sign)
    → (rest ≡ less → rest' ≡ more)
    → part_cmp x y rest ≡ less
    → part_cmp y x rest' ≡ more
unfolding part_cmp
part_cmp_asym none none rest rest' f h = cc
part_cmp_asym none (some y) rest rest' f h = refl
part_cmp_asym (some x) none rest rest' f h = cc
part_cmp_asym (some x) (some y) rest rest' f h = ground (arith, ltb_ℤ_asym x y, ltb_ℤ_asym y x)

parts_cmp_asym : (as' bs : List Chars) → parts_cmp as' bs ≡ less → parts_cmp bs as' ≡ more
unfolding parts_cmp
parts_cmp_asym [] bs h = cc
parts_cmp_asym (a ∷ as') [] h = cc
parts_cmp_asym (a ∷ as') (b ∷ bs) h =
    part_cmp_asym (atoi a) (atoi b) (parts_cmp as' bs) (parts_cmp bs as') (parts_cmp_asym as' bs) h

better_version_asym : (a b : String) → better_version a b ≡ true → better_version b a ≡ false
unfolding better_version semver_cmp
better_version_asym a b h = ground (
  arith,
  parts_cmp_asym (split b'.' (codes b)) (split b'.' (codes a)),
  parts_cmp_asym (split b'.' (codes a)) (split b'.' (codes b)),
)

better_variant_asym :
    (a b : String) (next next' : Bool)
    → (next ≡ true → next' ≡ false)
    → better_variant a b next ≡ true
    → better_variant b a next' ≡ false
unfolding better_variant
better_variant_asym a b next next' f h =
    ground (
      arith,
      ltb_ℤ_asym (variant_ver a) (variant_ver b),
      ltb_ℤ_asym (variant_ver b) (variant_ver a),
    )

-- Swapping target and previous platform swaps each way out of a comparison.
favour_asym :
    (host a b : String) (agree agree' differ differ' : Bool)
    → (agree ≡ true → agree' ≡ false)
    → (differ ≡ true → differ' ≡ false)
    → favour host a b agree differ ≡ true
    → favour host b a agree' differ' ≡ false
unfolding favour
favour_asym host a b agree agree' differ differ' f g h =
    ground (arith, eq_iff a b, eq_iff b a, eq_iff a host, eq_iff b host)

better_than_asym :
    (host a b : Platform) → better_than host a b ≡ true → better_than host b a ≡ false
unfolding better_than
better_than_asym host a b =
    let version =
      favour_asym host.os_version a.os_version b.os_version false false _ _ (λ h. refl)
        (better_version_asym a.os_version b.os_version) in
    let variant =
      favour_asym host.variant a.variant b.variant _ _ _ _ version
        (better_variant_asym a.variant b.variant _ _ version) in
    let arch =
      favour_asym host.architecture a.architecture b.architecture _ _ _ _ variant variant in
    favour_asym host.os a.os b.os _ _ _ _ arch arch

-- No two platforms are each better than the other for a host; in particular no platform is better
-- than itself.
pub better_asym : (c : Compare) (a b : Platform) → better c a b ≡ true → better c b a ≡ false
unfolding better
better_asym c a b h = ground (arith, better_than_asym c.host (normalize a) (normalize b))
