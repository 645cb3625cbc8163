-- ===== src/Strparse.antt =====
-- internal/strparse/strparse.go. A text is the list of the code points that `range` yields.
pub mod RoundTrip
pub mod Balance
mod Tests
use regclient.Base.{
  ℕ, zero, suc, ◌+◌, ◌-◌, ◌*◌, ◌/◌, ◌%◌, ◌≤◌, ◌<◌, min, String, ◌≡◌, refl, sym, ap, ◌∙◌, ◌≢◌, ◌↔◌,
  ◌⊎◌, inl, inr, Bool, true, false, not, ◌&&◌, ◌||◌, Option, none, some, List, [], ◌∷◌, ◌++◌, map,
  arith, ltb, leb, ◌==◌, ==_iff, if◌then◌else◌, Bool-cases, Option-cases, is_some, length,
  get_elem?, take, drop, length-append, length-take, All, All-append, any, all,
}
use regclient.Base.Text.{Chars, chars_eq_inst}
use regclient.Base.Maps.{insert}
use regclient.Errs.{Result, ok, err, parsing_failed}

-- The values of the variable `state`.
pub data State : Type 0 where
  in_key key_quote key_escape key_escape_quote : State
  in_val val_quote val_escape val_escape_quote : State

-- The variables of `SplitCSKV`.
pub record Parser : Type 0 where
  pub state : State
  pub key : Chars
  pub val : Chars
  pub result : List (Chars × Chars)

-- What `procKV` does to the map: an entry with an empty key is dropped.
unfoldable pub add_entry : Chars → Chars → List (Chars × Chars) → List (Chars × Chars)
unfolding insert
add_entry [] v m = m
add_entry (c ∷ k) v m = insert (c ∷ k) v m

unfoldable pub proc_kv : Parser → Parser
proc_kv p = record { state = in_key; key = []; val = []; result = add_entry p.key p.val p.result }

abbrev add_key : State → Parser → ℕ → Parser
add_key s p c = record p { state = s; key = p.key ++ c ∷ [] }

abbrev add_val : State → Parser → ℕ → Parser
add_val s p c = record p { state = s; val = p.val ++ c ∷ [] }

-- The body of the loop, at each state.
unfoldable pub step_in : State → Parser → ℕ → Parser
unfolding proc_kv
step_in in_key p c =
    if c == b'"'
    then record p { state = key_quote }
    else if c == b'\\'
    then record p { state = key_escape }
    else if c == b'='
    then record p { state = in_val }
    else if c == b','
    then proc_kv p
    else add_key in_key p c
step_in key_quote p c =
    if c == b'"'
    then record p { state = in_key }
    else if c == b'\\'
    then record p { state = key_escape_quote }
    else add_key key_quote p c
step_in key_escape p c = add_key in_key p c
step_in key_escape_quote p c = add_key key_quote p c
step_in in_val p c =
    if c == b'"'
    then record p { state = val_quote }
    else if c == b','
    then proc_kv p
    else if c == b'\\'
    then record p { state = val_escape }
    else add_val in_val p c
step_in val_quote p c =
    if c == b'"'
    then record p { state = in_val }
    else if c == b'\\'
    then record p { state = val_escape_quote }
    else add_val val_quote p c
step_in val_escape p c = add_val in_val p c
step_in val_escape_quote p c = add_val val_quote p c

-- The switch behind the loop.
unfoldable pub finish : State → Parser → Result (List (Chars × Chars))
unfolding proc_kv
finish in_key p = ok (proc_kv p).result
finish in_val p = ok (proc_kv p).result
finish _ p = err parsing_failed

unfoldable pub run : Parser → Chars → Result (List (Chars × Chars))
unfolding finish step_in
run p [] = finish p.state p
run p (c ∷ cs) = run (step_in p.state p c) cs

abbrev pub start : List (Chars × Chars) → Parser
start m = record { state = in_key; key = []; val = []; result = m }

unfoldable pub split_cskv : Chars → Result (List (Chars × Chars))
unfolding run
split_cskv s = run (start []) s
