-- ===== src/Httplink/Search.antt =====
-- The link that `Get` finds.
use regclient.Base.{◌≡◌, refl, ap, ◌≢◌, ◌⊎◌, inl, inr, List, [], ◌∷◌, ◌++◌, arith, Bool-cases, All}
use regclient.Base.Text.{Chars, chars_eq, chars_eq_inst, chars_eq_iff}
use regclient.Errs.{ok, err, not_found}
use regclient.Httplink.{Link, value_at, get}

-- The links before the found one.
unfoldable pub Differs : Chars → Chars → Link → Type 0
Differs parm val l = value_at l.param parm ≢ val

-- `Get` splits the links: either it returns the first link whose parameter has the value, and no
-- link before it does, or it fails with `ErrNotFound` and none of the links does.
pub get-cases :
    (links : List Link) (parm val : Chars)
    → ((l : Link) × (before after : List Link) × (links ≡ before ++ l ∷ after)
        × (value_at l.param parm ≡ val)
        × All (Differs parm val) before
        × (get links parm val ≡ ok l))
      ⊎ (All (Differs parm val) links × (get links parm val ≡ err not_found))
unfolding get
get-cases [] parm val = inr (tt, refl)
get-cases (x ∷ xs) parm val = elim (Bool-cases (chars_eq (value_at x.param parm) val)) [
  | inl here ↦
      inl (x, [], xs, refl, (chars_eq_iff (value_at x.param parm) val).0 here, tt, rw here refl)
  | inr other ↦
      let ne : Differs parm val x =
        unfold Differs in λ e. ground (arith, chars_eq_iff (value_at x.param parm) val) in
      elim (get-cases xs parm val) [
        | inl (l, before, after, s, v, d, g) ↦
            inl (l, x ∷ before, after, ap (λ zs. x ∷ zs) s, v, (ne, d), rw other g)
        | inr (d, g) ↦ inr ((ne, d), rw other g)
      ]
]
