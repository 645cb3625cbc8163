-- ===== src/Httplink.antt =====
-- internal/httplink/httplink.go: the parser of Link headers and the search of a link. A header is
-- the list of its bytes.
pub mod RoundTrip
pub mod Search
mod Tests
use regclient.Base.{
  ℕ, zero, suc, ◌+◌, ◌-◌, ◌*◌, ◌/◌, ◌%◌, ◌≤◌, ◌<◌, min, String, ◌≡◌, refl, sym, ap, ◌∙◌, ◌≢◌, ◌↔◌,
  ◌⊎◌, inl, inr, Bool, true, false, not, ◌&&◌, ◌||◌, Option, none, some, List, [], ◌∷◌, ◌++◌, map,
  arith, ltb, leb, ◌==◌, ==_iff, if◌then◌else◌, Bool-cases, Option-cases, some-injective, is_some,
  length, get_elem?, take, drop, length-append, length-take, All, All-append, In, Nowhere, any, all,
}
use regclient.Base.Text.{Chars, codes, chars_eq, chars_eq_inst}
use regclient.Base.Maps.{lookup}
use regclient.Errs.{Result, ok, err, not_found, parsing_failed}

-- `Link`. The map of the parameters is an association list.
pub record Link : Type 0 where
  pub uri : Chars
  pub param : List (Chars × Chars)

-- The table `charLUs`.
abbrev pub is_space : ℕ → Bool
is_space b = b == b' ' || b == b'\t' || b == b'\r' || b == b'\n'

abbrev within : ℕ → ℕ → ℕ → Bool
within lo hi b = leb lo b && leb b hi

unfoldable pub is_alpha_num : ℕ → Bool
is_alpha_num b = within b'a' b'z' b || within b'A' b'Z' b || within b'0' b'9' b

abbrev member : ℕ → Chars → Bool
member b [] = false
member b (c ∷ cs) = b == c || member b cs

unfoldable pub is_token : ℕ → Bool
is_token b = is_alpha_num b || member b (codes "!#$%&'()*+-./:<=>?@[]^_`{|}~")

-- The values of the variable `state`.
pub data State : Type 0 where
  init uri uri_quoted field_sep parm_name parm_name_star parm_value parm_value_quoted : State

-- The variables of `Parse`: the links, the state and the buffers.
pub record Parser : Type 0 where
  pub state : State
  pub links : List Link
  pub ub : Chars
  pub pnb : Chars
  pub pvb : Chars
  pub parms : List (Chars × Chars)

abbrev pub is_empty {ℓ} : {A : Type ℓ} → List A → Bool
is_empty [] = true
is_empty (x ∷ xs) = false

-- A parameter is added to the map if its name has no entry there.
unfoldable pub add_parm : Chars → Chars → List (Chars × Chars) → List (Chars × Chars)
add_parm k v m = elim (lookup k m) [ none ↦ m ++ (k, v) ∷ [] | some w ↦ m ]

-- `endLink` and `endParm`.
unfoldable pub end_link : Parser → Parser
end_link p = record p {
  links = p.links ++ (record { uri = p.ub; param = p.parms } ∷ []);
  ub = [];
  pnb = [];
  pvb = [];
  parms = [];
}

unfoldable pub end_parm : Parser → Parser
end_parm p = record p { parms = add_parm p.pnb p.pvb p.parms; pnb = []; pvb = [] }

abbrev go_to : State → Parser → Parser
go_to s p = record p { state = s }

-- The cases of the loop.
unfoldable pub step_init : Parser → ℕ → Result Parser
step_init p b =
    if b == b'<'
    then ok (go_to uri_quoted p)
    else if is_token b
    then ok (record p { state = uri; ub = p.ub ++ b ∷ [] })
    else if is_space b || b == b','
    then ok p
    else err parsing_failed

unfoldable pub step_uri : Parser → ℕ → Result Parser
step_uri p b =
    if is_token b
    then ok (record p { ub = p.ub ++ b ∷ [] })
    else if is_space b
    then ok (go_to field_sep p)
    else if b == b';'
    then ok (go_to parm_name p)
    else if b == b','
    then ok (end_link (go_to init p))
    else err parsing_failed

unfoldable pub step_field_sep : Parser → ℕ → Result Parser
step_field_sep p b =
    if b == b';'
    then ok (go_to parm_name p)
    else if b == b','
    then ok (end_link (go_to init p))
    else if is_space b
    then ok p
    else err parsing_failed

unfoldable pub step_parm_name : Parser → ℕ → Result Parser
step_parm_name p b =
    if not (is_empty p.pnb) && b == b'='
    then ok (go_to parm_value p)
    else if not (is_empty p.pnb) && b == b'*'
    then ok (go_to parm_name_star p)
    else if is_alpha_num b
    then ok (record p { pnb = p.pnb ++ b ∷ [] })
    else if is_empty p.pnb && is_space b
    then ok p
    else err parsing_failed

unfoldable pub step_parm_value : Parser → ℕ → Result Parser
step_parm_value p b =
    if is_token b
    then ok (record p { pvb = p.pvb ++ b ∷ [] })
    else if is_empty p.pvb
    then (if b == b'"' then ok (go_to parm_value_quoted p) else err parsing_failed)
    else if is_space b
    then ok (end_parm (go_to field_sep p))
    else if b == b';'
    then ok (end_parm (go_to parm_name p))
    else if b == b','
    then ok (end_link (end_parm (go_to init p)))
    else err parsing_failed

-- The body of the loop.
unfoldable pub step_in : State → Parser → ℕ → Result Parser
step_in init p b = step_init p b
step_in uri p b = step_uri p b
step_in uri_quoted p b =
    ok (if b == b'>' then go_to field_sep p else record p { ub = p.ub ++ b ∷ [] })
step_in field_sep p b = step_field_sep p b
step_in parm_name p b = step_parm_name p b
step_in parm_name_star p b = if b == b'=' then ok (go_to parm_value p) else err parsing_failed
step_in parm_value p b = step_parm_value p b
step_in parm_value_quoted p b =
    ok (if b == b'"' then end_parm (go_to field_sep p) else record p { pvb = p.pvb ++ b ∷ [] })

-- The switch at the end of a header.
unfoldable pub finish : State → Parser → Result (List Link)
finish init p = ok p.links
finish uri p = ok (end_link p).links
finish uri_quoted p = err parsing_failed
finish field_sep p = ok (end_link p).links
finish parm_name p = err parsing_failed
finish parm_name_star p = err parsing_failed
finish parm_value p = ok (end_link (end_parm p)).links
finish parm_value_quoted p = err parsing_failed

unfoldable pub run : Parser → Chars → Result (List Link)
run p [] = finish p.state p
run p (b ∷ bs) = elim (step_in p.state p b) [ ok q ↦ run q bs | err e ↦ err e ]

-- The variables at the start of a header: the links of the headers before, and empty buffers.
abbrev pub start : List Link → Parser
start links = record { state = init; links = links; ub = []; pnb = []; pvb = []; parms = [] }

-- The loop over the headers.
unfoldable pub parse_from : List Link → List Chars → Result (List Link)
parse_from links [] = ok links
parse_from links (h ∷ hs) = elim (run (start links) h) [
  | ok more ↦ parse_from more hs
  | err e ↦ err e
]

-- `Parse`.
unfoldable pub parse : List Chars → Result (List Link)
parse headers = parse_from [] headers

-- `link.Param[parm]`, the empty text for a missing key. The map of a parsed link is never nil.
unfoldable pub value_at : List (Chars × Chars) → Chars → Chars
value_at m k = elim (lookup k m) [ none ↦ [] | some v ↦ v ]

-- `Get`.
unfoldable pub get : List Link → Chars → Chars → Result Link
get [] parm val = err not_found
get (link ∷ links) parm val =
    let rest = get links parm val in
    if chars_eq (value_at link.param parm) val then ok link else rest
