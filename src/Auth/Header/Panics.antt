-- ===== src/Auth/Header/Panics.antt =====
-- Which headers make the parser panic.
use regclient.Base.{
  ℕ, ◌≡◌, refl, ◌⊎◌, inl, inr, Bool, true, false, not, List, [], ◌∷◌, ◌++◌, arith, ◌==◌,
  if◌then◌else◌,
}
use regclient.Base.Text.{Chars}
use regclient.Auth.Header.{
  Challenge, Parsed, ◌>>=◌, parsed, failure, panic, State, in_string, in_value, quoted, end_value,
  escape, Parser, is_space, is_token, is_empty, set_param, begin, store, string_start, string_rest,
  step_in, finish, run, initial, parse_auth_header,
}

abbrev pub is_panic {ℓ} : {A : Type ℓ} → Parsed A → Bool
is_panic (parsed a) = false
is_panic failure = false
is_panic panic = true

-- A quoted string ends in the text: a double quote stands there with no backslash before it.
unfoldable pub closes : Bool → Chars → Bool
closes escaped [] = false
closes true (b ∷ bs) = closes false bs
closes false (b ∷ bs) = if b == b'"' then true else closes (b == b'\\') bs

-- The header begins, behind white space, with a quoted string that ends.
unfoldable pub opens_quoted : Chars → Bool
opens_quoted [] = false
opens_quoted (b ∷ bs) =
    if b == b'"' then closes false bs else if is_space b then opens_quoted bs else false

set_param_safe :
    (k v : Chars) (cl : List Challenge)
    → is_empty cl ≡ false
    → (r : List Challenge) × (set_param k v cl ≡ parsed r) × (is_empty r ≡ false)
unfolding set_param
set_param_safe k v [] h = cc
set_param_safe k v (c ∷ []) h = (_, refl, refl)
set_param_safe k v (c ∷ d ∷ cs) h =
    let (r, e, n) = set_param_safe k v (d ∷ cs) refl in (c ∷ r, rw (e, set_param), refl)

-- A step that does not panic and has a challenge in hand.
abbrev safe : Parsed Parser → Bool
safe (parsed q) = not (is_empty q.cl)
safe failure = true
safe panic = false

store-safe : (p : Parser) (s : State) → is_empty p.cl ≡ false → safe (store p s) ≡ true
unfolding store
store-safe p s h = let (r, e, n) = set_param_safe p.kb p.vb p.cl h in rw (e, ◌>>=◌) (rw n)

append_safe : (cl : List Challenge) (c : Challenge) → is_empty (cl ++ c ∷ []) ≡ false
append_safe [] c = refl
append_safe (d ∷ cl) c = refl

begin-safe : (p : Parser) → is_empty (begin p).cl ≡ false
unfolding begin
begin-safe p = append_safe p.cl _

step-safe : (s : State) (p : Parser) (b : ℕ) → is_empty p.cl ≡ false → safe (step_in s p b) ≡ true
unfolding step_in string_start string_rest
step-safe in_string p b h = ground (arith, begin-safe p)
step-safe _ p b h = ground (arith, store-safe p end_value, store-safe p in_string)

finish-safe : (s : State) (p : Parser) → is_empty p.cl ≡ false → is_panic (finish s p) ≡ false
unfolding finish
finish-safe in_string p h = ground arith
finish-safe in_value p h = ground (arith, set_param_safe p.kb p.vb p.cl h)
finish-safe _ p h = refl

Parsed-cases {ℓ} :
    {A : Type ℓ} (r : Parsed A) → ((a : A) × (r ≡ parsed a)) ⊎ (r ≡ failure) ⊎ (r ≡ panic)
Parsed-cases (parsed a) = inl (a, refl)
Parsed-cases failure = inr (inl refl)
Parsed-cases panic = inr (inr refl)

safe→held : (q : Parser) → safe (parsed q) ≡ true → is_empty q.cl ≡ false
safe→held q h = ground arith

run-safe : (bs : Chars) (p : Parser) → is_empty p.cl ≡ false → is_panic (run p bs) ≡ false
unfolding run
run-safe [] p h = finish-safe p.state p h
run-safe (b ∷ bs) p h = elim (Parsed-cases (step_in p.state p b)) [
  | inl (q, e) ↦ rw (e, run) (run-safe bs q (safe→held q (rw e at (step-safe p.state p b h))))
  | inr (inl e) ↦ rw (e, run)
  | inr (inr e) ↦ cc (rw e at (step-safe p.state p b h))
]

-- The machine before its first challenge.
abbrev before : State → Chars → Chars → Parser
before s e v = record { state = s; cl = []; eb = e; atb = []; kb = []; vb = v }

element_safe :
    (bs : Chars) (c : ℕ) (e v : Chars) → is_panic (run (before in_string (c ∷ e) v) bs) ≡ false
unfolding run step_in string_rest finish begin
element_safe [] c e v = refl
element_safe (b ∷ bs) c e v = ground (
  arith,
  element_safe bs c (e ++ b ∷ []) v,
  run-safe bs (begin (before in_string (c ∷ e) v)) refl,
)

mutual
  unfolding run step_in store set_param finish closes

  quoted_panics :
      (bs : Chars) (e v : Chars) → is_panic (run (before quoted e v) bs) ≡ closes false bs
  quoted_panics [] e v = refl
  quoted_panics (b ∷ bs) e v =
      ground (arith, quoted_panics bs e (v ++ b ∷ []), escape_panics bs e v)

  escape_panics :
      (bs : Chars) (e v : Chars) → is_panic (run (before escape e v) bs) ≡ closes true bs
  escape_panics [] e v = refl
  escape_panics (b ∷ bs) e v = quoted_panics bs e (v ++ b ∷ [])

space_not_token : (b : ℕ) → is_token b ≡ true → is_space b ≡ false
unfolding is_token
space_not_token b h = ground arith

start_panics : (bs : Chars) → is_panic (run initial bs) ≡ opens_quoted bs
unfolding run step_in string_start finish opens_quoted
start_panics [] = refl
start_panics (b ∷ bs) =
    ground
      (arith, start_panics bs, element_safe bs b [] [], quoted_panics bs [] [], space_not_token b)

-- A defect. The parser of a `WWW-Authenticate` header dereferences a nil challenge exactly if the
-- header begins, behind white space, with a quoted string that ends; no other header makes it panic.
pub parse_auth_header-panics : (ah : Chars) → is_panic (parse_auth_header ah) ≡ opens_quoted ah
unfolding parse_auth_header
parse_auth_header-panics ah = start_panics ah
