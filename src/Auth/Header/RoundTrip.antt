-- ===== src/Auth/Header/RoundTrip.antt =====
-- Reading challenges that are written in the form of a `WWW-Authenticate` header.
use mathlib.Core.List.{append-nil, append_assoc}
use regclient.Base.{
  ℕ, ◌≡◌, refl, ap, ◌∙◌, true, false, ◌||◌, List, [], ◌∷◌, ◌++◌, map, arith, ◌==◌, if◌then◌else◌,
  All,
}
use regclient.Base.Text.{Chars, chars_eq_inst}
use regclient.Base.Maps.{insert}
use regclient.Auth.Header.{
  Challenge, parsed, State, in_string, quoted, end_value, Parser, is_token, to_lower, is_empty,
  set_param, begin, store, string_start, string_rest, step_in, finish, run, initial,
  parse_auth_header,
}

-- A value between double quotes.
unfoldable pub quote : Chars → Chars
quote [] = b'"' ∷ []
quote (b ∷ bs) =
    let rest = quote bs in if b == b'"' || b == b'\\' then b'\\' ∷ b ∷ rest else b ∷ rest

-- Parameters, with commas between them.
unfoldable pub render_params : List (Chars × Chars) → Chars
render_params [] = []
render_params ((k, v) ∷ []) = k ++ (b'=' ∷ b'"' ∷ quote v)
render_params ((k, v) ∷ q ∷ qs) = k ++ (b'=' ∷ b'"' ∷ (quote v ++ (b',' ∷ render_params (q ∷ qs))))

-- Challenges as written: a type, a space, parameters; commas between challenges.
unfoldable pub render : List Challenge → Chars
render [] = []
render (c ∷ []) = c.auth_type ++ (b' ' ∷ render_params c.params)
render (c ∷ d ∷ cs) = c.auth_type ++ (b' ' ∷ (render_params c.params ++ (b',' ∷ render (d ∷ cs))))

-- The map of the parameters, by lower-case name; a later one wins.
unfoldable pub collect : List (Chars × Chars) → List (Chars × Chars) → List (Chars × Chars)
collect m [] = m
collect m ((k, v) ∷ qs) = collect (insert (to_lower k) v m) qs

unfoldable pub normal : Challenge → Challenge
normal c = record { auth_type = to_lower c.auth_type; params = collect [] c.params }

-- A token: not empty, and of token bytes only.
abbrev pub IsTokens : Chars → Type 0
IsTokens bs = (is_empty bs ≡ false) × All (λ b. is_token b ≡ true) bs

-- A challenge that the header's grammar can express.
abbrev pub IsWritable : Challenge → Type 0
IsWritable c = IsTokens c.auth_type × (is_empty c.params ≡ false) × All (λ q. IsTokens q.0) c.params

abbrev at : State → List Challenge → Chars → Chars → Chars → Chars → Parser
at s cl e a k v = record { state = s; cl = cl; eb = e; atb = a; kb = k; vb = v }

token_not_quote : (b : ℕ) → is_token b ≡ true → b == b'"' ≡ false
unfolding is_token
token_not_quote b h = ground arith

run-tokens :
    (bs rest : Chars) (cl : List Challenge) (e a : Chars)
    → All (λ b. is_token b ≡ true) bs
    → run (at in_string cl e a [] []) (bs ++ rest) ≡ run (at in_string cl (e ++ bs) a [] []) rest
unfolding run step_in string_start string_rest
run-tokens [] rest cl e a h = rw append-nil
run-tokens (b ∷ bs) rest cl [] a h =
    ground (arith, token_not_quote b h.0, run-tokens bs rest cl (b ∷ []) a h.1)
run-tokens (b ∷ bs) rest cl (x ∷ e) a h =
    ground (arith, run-tokens bs rest cl (x ∷ e ++ b ∷ []) a h.1, append_assoc e (b ∷ []) bs)

run-quote :
    (v rest : Chars) (cl : List Challenge) (a k w : Chars)
    → run (at quoted cl [] a k w) (quote v ++ rest)
      ≡ run (at quoted cl [] a k (w ++ v)) (b'"' ∷ rest)
unfolding run step_in quote
run-quote [] rest cl a k w = rw append-nil
run-quote (b ∷ bs) rest cl a k w =
    ground (arith, run-quote bs rest cl a k (w ++ b ∷ []), append_assoc w (b ∷ []) bs)

abbrev with_param : Challenge → Chars → Chars → Challenge
with_param c k v = record c { params = insert (to_lower k) v c.params }

set_param-append :
    (k v : Chars) (cs : List Challenge) (c : Challenge)
    → set_param k v (cs ++ c ∷ []) ≡ parsed (cs ++ with_param c k v ∷ [])
unfolding set_param
set_param-append k v [] c = refl
set_param-append k v (d ∷ []) c = refl
set_param-append k v (d ∷ e ∷ cs) c = rw (set_param-append k v (e ∷ cs) c, set_param)

-- An equal sign behind a name, and a quoted value.
run-value :
    (k v rest : Chars) (cs : List Challenge) (c : Challenge) (a : Chars)
    → is_empty k ≡ false
    → is_empty a ≡ false
    → run (at in_string (cs ++ c ∷ []) k a [] []) (b'=' ∷ b'"' ∷ (quote v ++ rest))
      ≡ run (at end_value (cs ++ with_param c k v ∷ []) [] a [] []) rest
unfolding run step_in string_rest is_token store
run-value [] v rest cs c a h g = cc
run-value (x ∷ k) v rest cs c [] h g = cc
run-value (x ∷ k) v rest cs c (y ∷ a) h g =
    run-quote v rest (cs ++ c ∷ []) (y ∷ a) (x ∷ k) [] ∙ rw (set_param-append (x ∷ k) v cs c, run)

run-param :
    (k v rest : Chars) (cs : List Challenge) (c : Challenge) (a : Chars)
    → IsTokens k
    → is_empty a ≡ false
    → run (at in_string (cs ++ c ∷ []) [] a [] []) (k ++ (b'=' ∷ b'"' ∷ (quote v ++ rest)))
      ≡ run (at end_value (cs ++ with_param c k v ∷ []) [] a [] []) rest
run-param k v rest cs c a h g =
    run-tokens k (b'=' ∷ b'"' ∷ (quote v ++ rest)) (cs ++ c ∷ []) [] a h.1
    ∙ run-value k v rest cs c a h.0 g

run-comma :
    (bs : Chars) (cl : List Challenge) (a : Chars)
    → run (at end_value cl [] a [] []) (b',' ∷ bs) ≡ run (at in_string cl [] a [] []) bs
unfolding run step_in
run-comma bs cl a = refl

render_params-append :
    (k v : Chars) (q : Chars × Chars) (qs : List (Chars × Chars)) (rest : Chars)
    → render_params ((k, v) ∷ q ∷ qs) ++ rest
      ≡ k ++ (b'=' ∷ b'"' ∷ (quote v ++ (b',' ∷ (render_params (q ∷ qs) ++ rest))))
unfolding render_params
render_params-append k v q qs rest = simp append_assoc

run-params :
    (ps : List (Chars × Chars)) (rest : Chars) (cs : List Challenge) (c : Challenge) (a : Chars)
    → is_empty ps ≡ false
    → All (λ q. IsTokens q.0) ps
    → is_empty a ≡ false
    → run (at in_string (cs ++ c ∷ []) [] a [] []) (render_params ps ++ rest)
      ≡ run (at end_value (cs ++ record c { params = collect c.params ps } ∷ []) [] a [] []) rest
unfolding collect
run-params [] rest cs c a n h g = cc
run-params ((k, v) ∷ []) rest cs c a n h g =
    unfold render_params in
    rw (append_assoc k (b'=' ∷ b'"' ∷ quote v) rest) (run-param k v rest cs c a h.0 g)
run-params ((k, v) ∷ q ∷ qs) rest cs c a n h g =
    let next = with_param c k v in
    let more = render_params (q ∷ qs) ++ rest in
    ap (run (at in_string (cs ++ c ∷ []) [] a [] [])) (render_params-append k v q qs rest)
    ∙ run-param k v (b',' ∷ more) cs c a h.0 g
    ∙ run-comma more (cs ++ next ∷ []) a
    ∙ run-params (q ∷ qs) rest cs next a refl h.1 g

run-begin :
    (t rest : Chars) (cs : List Challenge) (a : Chars)
    → is_empty t ≡ false
    → run (at in_string cs t a [] []) (b' ' ∷ rest)
      ≡ run
          (at in_string (cs ++ record { auth_type = to_lower t; params = [] } ∷ []) [] t [] [])
          rest
unfolding run step_in string_rest is_token begin
run-begin [] rest cs a h = cc
run-begin (x ∷ t) rest cs a h = refl

run-end : (cl : List Challenge) (a : Chars) → run (at end_value cl [] a [] []) [] ≡ parsed cl
unfolding run finish
run-end cl a = refl

run-nothing : run initial (render []) ≡ parsed []
unfolding run finish render
run-nothing = refl

render-one :
    (c : Challenge) → render (c ∷ []) ≡ c.auth_type ++ (b' ' ∷ (render_params c.params ++ []))
unfolding render
render-one c = rw append-nil

render-more :
    (c d : Challenge) (cs : List Challenge)
    → render (c ∷ d ∷ cs)
      ≡ c.auth_type ++ (b' ' ∷ (render_params c.params ++ (b',' ∷ render (d ∷ cs))))
unfolding render
render-more c d cs = refl

-- One challenge, from its first byte to the end of its last value.
run-challenge :
    (c : Challenge) (rest : Chars) (cs : List Challenge) (a : Chars)
    → IsWritable c
    → (a' : Chars) × (run
          (at in_string cs [] a [] [])
          (c.auth_type ++ (b' ' ∷ (render_params c.params ++ rest)))
        ≡ run (at end_value (cs ++ normal c ∷ []) [] a' [] []) rest)
unfolding normal
run-challenge c rest cs a w = (
  c.auth_type,
  run-tokens c.auth_type (b' ' ∷ (render_params c.params ++ rest)) cs [] a w.0.1
      ∙ run-begin c.auth_type (render_params c.params ++ rest) cs a w.0.0
      ∙ run-params c.params rest cs (record { auth_type = to_lower c.auth_type; params = [] })
          c.auth_type w.1 w.2 w.0.0,
)

run-render :
    (c : Challenge) (cs : List Challenge) (done : List Challenge) (a : Chars)
    → All IsWritable (c ∷ cs)
    → run (at in_string done [] a [] []) (render (c ∷ cs)) ≡ parsed (done ++ map normal (c ∷ cs))
run-render c [] done a w =
    let (a', e) = run-challenge c [] done a w.0 in
    ap (run (at in_string done [] a [] [])) (render-one c) ∙ e ∙ run-end (done ++ normal c ∷ []) a'
run-render c (d ∷ cs) done a w =
    let (a', e) = run-challenge c (b',' ∷ render (d ∷ cs)) done a w.0 in
    ap (run (at in_string done [] a [] [])) (render-more c d cs)
    ∙ e
    ∙ run-comma (render (d ∷ cs)) (done ++ normal c ∷ []) a'
    ∙ run-render d cs (done ++ normal c ∷ []) a' w.1
    ∙ ap parsed (append_assoc done (normal c ∷ []) (map normal (d ∷ cs)))

-- A header that is written from challenges is read back: for challenges with a type and at least one
-- parameter, whose types and parameter names are tokens, in any number, the parser returns these
-- challenges in order, with types and names in lower case and, whatever bytes the quoted values
-- hold, with the values as they were; of parameters with one name the last one counts.
pub parse_auth_header-render :
    (cs : List Challenge)
    → All IsWritable cs
    → parse_auth_header (render cs) ≡ parsed (map normal cs)
unfolding parse_auth_header
parse_auth_header-render [] w = run-nothing
parse_auth_header-render (c ∷ cs) w = run-render c cs [] [] w
