-- ===== src/Auth/Header.antt =====
-- internal/auth/auth.go: `ParseAuthHeaders`. A header is the list of its bytes. The variable `c` is
-- nil or the last element of `cl`, whose map of parameters it shares, so it is not kept apart.
pub mod Panics
pub mod RoundTrip
mod Tests
use regclient.Base.{
  ℕ, zero, suc, ◌+◌, ◌-◌, ◌*◌, ◌/◌, ◌%◌, ◌≤◌, ◌<◌, min, String, ◌≡◌, refl, sym, ap, ◌∙◌, ◌≢◌, ◌↔◌,
  ◌⊎◌, inl, inr, Bool, true, false, not, ◌&&◌, ◌||◌, Option, none, some, List, [], ◌∷◌, ◌++◌, map,
  arith, ltb, leb, ◌==◌, ==_iff, if◌then◌else◌, Bool-cases, Option-cases, is_some, length,
  get_elem?, take, drop, length-append, length-take, All, All-append, any, all,
}
use regclient.Base.Text.{Chars, chars_eq_inst}
use regclient.Base.Maps.{insert}

-- `challenge`.
pub record Challenge : Type 0 where
  pub auth_type : Chars
  pub params : List (Chars × Chars)

-- A result, `ErrParseFailure`, or a run-time panic.
pub data Parsed {ℓ} (A : Type ℓ) : Type ℓ where
  parsed : A → Parsed A
  failure : Parsed A
  panic : Parsed A

infixl 5 ◌>>=◌
abbrev pub ◌>>=◌ {ℓ κ} : {A : Type ℓ} {B : Type κ} → Parsed A → (A → Parsed B) → Parsed B
parsed a >>= f = f a
failure >>= f = failure
panic >>= f = panic

-- The table `charLUs`.
abbrev pub is_space : ℕ → Bool
is_space b = b == b' ' || b == b'\t' || b == b'\r' || b == b'\n'

abbrev within : ℕ → ℕ → ℕ → Bool
within lo hi b = leb lo b && leb b hi

unfoldable pub is_token : ℕ → Bool
is_token b =
    within b'a' b'z' b
    || within b'A' b'Z' b
    || within b'0' b'9' b
    || b == b'-'
    || b == b'.'
    || b == b'_'
    || b == b'~'
    || b == b'+'
    || b == b'/'

-- `strings.ToLower` on token bytes, which are ASCII.
unfoldable pub to_lower : Chars → Chars
to_lower bs = map (λ b. if within b'A' b'Z' b then b + 32 else b) bs

-- The values of the variable `state`.
pub data State : Type 0 where
  in_string in_value quoted end_value escape : State

pub record Parser : Type 0 where
  pub state : State
  pub cl : List Challenge
  pub eb : Chars
  pub atb : Chars
  pub kb : Chars
  pub vb : Chars

abbrev pub is_empty {ℓ} : {A : Type ℓ} → List A → Bool
is_empty [] = true
is_empty (x ∷ xs) = false

-- `c.params[strings.ToLower(string(kb))] = string(vb)`: a nil `c` is a panic.
unfoldable pub set_param : Chars → Chars → List Challenge → Parsed (List Challenge)
unfolding insert to_lower
set_param k v [] = panic
set_param k v (c ∷ []) = parsed (record c { params = insert (to_lower k) v c.params } ∷ [])
set_param k v (c ∷ d ∷ cs) = elim (set_param k v (d ∷ cs)) [
  | parsed r ↦ parsed (c ∷ r)
  | failure ↦ failure
  | panic ↦ panic
]

-- A challenge is begun with the element that was read.
unfoldable pub begin : Parser → Parser
begin p = record p {
  cl = p.cl ++ (record { auth_type = to_lower p.eb; params = [] } ∷ []);
  atb = p.eb;
  eb = [];
}

-- A parameter is stored and the machine goes to `s`.
unfoldable pub store : Parser → State → Parsed Parser
store p s = do
  cl ← set_param p.kb p.vb p.cl
  parsed (record p { state = s; cl = cl; kb = []; vb = [] })

-- The case "string", with no byte of an element and behind one.
unfoldable pub string_start : Parser → ℕ → Parsed Parser
string_start p b =
    if b == b'"'
    then parsed (record p { state = quoted })
    else if is_token b
    then parsed (record p { eb = p.eb ++ b ∷ [] })
    else if is_space b
    then parsed p
    else failure

unfoldable pub string_rest : Parser → ℕ → Parsed Parser
string_rest p b =
    if is_token b
    then parsed (record p { eb = p.eb ++ b ∷ [] })
    else if b == b'=' && not (is_empty p.atb)
    then parsed (record p { state = in_value; kb = p.eb; eb = [] })
    else if is_space b
    then parsed (begin p)
    else failure

-- The body of the loop.
unfoldable pub step_in : State → Parser → ℕ → Parsed Parser
step_in in_string p b = if is_empty p.eb then string_start p b else string_rest p b
step_in in_value p b =
    if is_token b
    then parsed (record p { vb = p.vb ++ b ∷ [] })
    else if b == b'"' && is_empty p.vb
    then parsed (record p { state = quoted })
    else if is_space b || b == b','
    then store p (if b == b',' then in_string else end_value)
    else failure
step_in quoted p b =
    if b == b'"'
    then store p end_value
    else if b == b'\\'
    then parsed (record p { state = escape })
    else parsed (record p { vb = p.vb ++ b ∷ [] })
step_in end_value p b =
    if is_space b
    then parsed p
    else if b == b','
    then parsed (record p { state = in_string })
    else failure
step_in escape p b = parsed (record p { state = quoted; vb = p.vb ++ b ∷ [] })

-- The switch behind the loop.
unfoldable pub finish : State → Parser → Parsed (List Challenge)
finish in_string p = parsed (if is_empty p.eb then p.cl else (begin p).cl)
finish in_value p = if is_empty p.vb then parsed p.cl else set_param p.kb p.vb p.cl
finish quoted p = failure
finish end_value p = parsed p.cl
finish escape p = failure

unfoldable pub run : Parser → Chars → Parsed (List Challenge)
run p [] = finish p.state p
run p (b ∷ bs) = elim (step_in p.state p b) [
  | parsed q ↦ run q bs
  | failure ↦ failure
  | panic ↦ panic
]

abbrev pub initial : Parser
initial = record { state = in_string; cl = []; eb = []; atb = []; kb = []; vb = [] }

unfoldable pub parse_auth_header : Chars → Parsed (List Challenge)
parse_auth_header ah = run initial ah

-- `ParseAuthHeaders`.
unfoldable pub parse_auth_headers : List Chars → Parsed (List Challenge)
parse_auth_headers [] = parsed []
parse_auth_headers (ah ∷ ahl) = do
  c ← parse_auth_header ah
  cl ← parse_auth_headers ahl
  parsed (c ++ cl)
