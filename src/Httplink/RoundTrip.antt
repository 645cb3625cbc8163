-- ===== src/Httplink/RoundTrip.antt =====
-- Reading links that are written in the form of Link headers.
use mathlib.Core.List.{append-nil, append_assoc}
use regclient.Base.{
  ℕ, ◌≡◌, refl, sym, ap, ◌∙◌, inl, inr, true, false, List, [], ◌∷◌, ◌++◌, map, arith, ◌==◌,
  if◌then◌else◌, Option-cases, is_some, All,
}
use regclient.Base.Text.{Chars, chars_eq_inst}
use regclient.Base.Maps.{lookup}
use regclient.Errs.{ok}
use regclient.Httplink.{
  Link, State, uri_quoted, field_sep, parm_name, parm_value_quoted, Parser, is_alpha_num, is_token,
  is_empty, add_parm, end_link, end_parm, step_init, step_field_sep, step_parm_name,
  step_parm_value, step_in, finish, run, start, parse_from, parse,
}

-- Parameters, each behind a semicolon and with its value between quotes.
unfoldable pub render_params : List (Chars × Chars) → Chars → Chars
render_params [] rest = rest
render_params ((k, v) ∷ ps) rest =
    b';' ∷ b' ' ∷ (k ++ (b'=' ∷ b'"' ∷ (v ++ (b'"' ∷ render_params ps rest))))

-- A link, and what follows it in the header.
unfoldable pub render_link : Link → Chars → Chars
render_link l rest = b'<' ∷ (l.uri ++ (b'>' ∷ render_params l.param rest))

-- The links of one header, with commas between them.
unfoldable pub render : List Link → Chars
render [] = []
render (l ∷ []) = render_link l []
render (l ∷ m ∷ ls) = render_link l (b',' ∷ b' ' ∷ render (m ∷ ls))

-- The map of the parameters: those whose names did not come before.
unfoldable pub keep_first : Chars → Chars → List (Chars × Chars) → List (Chars × Chars)
keep_first k v m = if is_some (lookup k m) then m else m ++ (k, v) ∷ []

unfoldable pub collect : List (Chars × Chars) → List (Chars × Chars) → List (Chars × Chars)
collect m [] = m
collect m ((k, v) ∷ ps) = collect (keep_first k v m) ps

add_parm-keep_first : (k v : Chars) (m : List (Chars × Chars)) → add_parm k v m ≡ keep_first k v m
unfolding add_parm keep_first
add_parm-keep_first k v m = elim (Option-cases (lookup k m)) [
  | inl new ↦ rw (new, add_parm) refl
  | inr (w, known) ↦ rw (known, add_parm) refl
]

unfoldable pub normal : Link → Link
normal l = record { uri = l.uri; param = collect [] l.param }

-- The links of all headers.
unfoldable pub normal_all : List (List Link) → List Link
normal_all [] = []
normal_all (ls ∷ lss) = map normal ls ++ normal_all lss

-- A parameter with a name of letters and digits and a value without a double quote.
abbrev pub IsParm : (Chars × Chars) → Type 0
IsParm (k, v) =
    (is_empty k ≡ false) × All (λ b. is_alpha_num b ≡ true) k × All (λ b. b == b'"' ≡ false) v

-- A link whose address has no `>`.
abbrev pub IsWritable : Link → Type 0
IsWritable l = All (λ b. b == b'>' ≡ false) l.uri × All IsParm l.param

abbrev at : State → List Link → Chars → Chars → Chars → List (Chars × Chars) → Parser
at s ls u k v m = record { state = s; links = ls; ub = u; pnb = k; pvb = v; parms = m }

run-uri :
    (bs rest : Chars) (ls : List Link) (u : Chars)
    → All (λ b. b == b'>' ≡ false) bs
    → run (at uri_quoted ls u [] [] []) (bs ++ (b'>' ∷ rest))
      ≡ run (at field_sep ls (u ++ bs) [] [] []) rest
unfolding run step_in
run-uri [] rest ls u h = rw append-nil
run-uri (b ∷ bs) rest ls u h =
    ground (arith, run-uri bs rest ls (u ++ b ∷ []) h.1, append_assoc u (b ∷ []) bs)

alpha_num_plain : (b : ℕ) → is_alpha_num b ≡ true → (b == b'=' ≡ false) × (b == b'*' ≡ false)
unfolding is_alpha_num
alpha_num_plain b h = ground arith

run-name :
    (bs rest : Chars) (ls : List Link) (u e : Chars) (m : List (Chars × Chars))
    → All (λ b. is_alpha_num b ≡ true) bs
    → run (at parm_name ls u e [] m) (bs ++ rest) ≡ run (at parm_name ls u (e ++ bs) [] m) rest
unfolding run step_in step_parm_name
run-name [] rest ls u e m h = rw append-nil
run-name (b ∷ bs) rest ls u e m h = ground (
  arith,
  alpha_num_plain b h.0,
  run-name bs rest ls u (e ++ b ∷ []) m h.1,
  append_assoc e (b ∷ []) bs,
)

run-text :
    (bs rest : Chars) (ls : List Link) (u k w : Chars) (m : List (Chars × Chars))
    → All (λ b. b == b'"' ≡ false) bs
    → run (at parm_value_quoted ls u k w m) (bs ++ (b'"' ∷ rest))
      ≡ run (at field_sep ls u [] [] (add_parm k (w ++ bs) m)) rest
unfolding run step_in end_parm
run-text [] rest ls u k w m h = rw append-nil
run-text (b ∷ bs) rest ls u k w m h =
    ground (arith, run-text bs rest ls u k (w ++ b ∷ []) m h.1, append_assoc w (b ∷ []) bs)

-- A semicolon and a space behind a link or a parameter.
run-semicolon :
    (rest : Chars) (ls : List Link) (u : Chars) (m : List (Chars × Chars))
    → run (at field_sep ls u [] [] m) (b';' ∷ b' ' ∷ rest) ≡ run (at parm_name ls u [] [] m) rest
unfolding run step_in step_field_sep step_parm_name is_alpha_num
run-semicolon rest ls u m = refl

-- The equal sign and the quote between a name and its value.
run-equals :
    (k rest : Chars) (ls : List Link) (u : Chars) (m : List (Chars × Chars))
    → is_empty k ≡ false
    → run (at parm_name ls u k [] m) (b'=' ∷ b'"' ∷ rest)
      ≡ run (at parm_value_quoted ls u k [] m) rest
unfolding run step_in step_parm_name step_parm_value is_token is_alpha_num
run-equals [] rest ls u m h = cc
run-equals (b ∷ k) rest ls u m h = refl

run-params :
    (ps : List (Chars × Chars)) (rest : Chars) (ls : List Link) (u : Chars)
    (m : List (Chars × Chars))
    → All IsParm ps
    → run (at field_sep ls u [] [] m) (render_params ps rest)
      ≡ run (at field_sep ls u [] [] (collect m ps)) rest
unfolding render_params collect
run-params [] rest ls u m h = refl
run-params ((k, v) ∷ ps) rest ls u m h =
    let tail = render_params ps rest in
    run-semicolon (k ++ (b'=' ∷ b'"' ∷ (v ++ (b'"' ∷ tail)))) ls u m
    ∙ run-name k (b'=' ∷ b'"' ∷ (v ++ (b'"' ∷ tail))) ls u [] m h.0.1
    ∙ run-equals k (v ++ (b'"' ∷ tail)) ls u m h.0.0
    ∙ run-text v tail ls u k [] m h.0.2
    ∙ rw (add_parm-keep_first k v m) (run-params ps rest ls u (keep_first k v m) h.1)

run-open :
    (bs : Chars) (ls : List Link)
    → run (start ls) (b'<' ∷ bs) ≡ run (at uri_quoted ls [] [] [] []) bs
unfolding run step_in step_init
run-open bs ls = refl

-- A link, from its first byte to its last parameter.
run-link :
    (l : Link) (rest : Chars) (ls : List Link)
    → IsWritable l
    → run (start ls) (render_link l rest)
      ≡ run (at field_sep ls l.uri [] [] (collect [] l.param)) rest
unfolding render_link
run-link l rest ls w =
    run-open (l.uri ++ (b'>' ∷ render_params l.param rest)) ls
    ∙ run-uri l.uri (render_params l.param rest) ls [] w.0
    ∙ run-params l.param rest ls l.uri [] w.1

-- A comma and a space behind a link.
run-comma :
    (rest : Chars) (ls : List Link) (u : Chars) (m : List (Chars × Chars))
    → run (at field_sep ls u [] [] m) (b',' ∷ b' ' ∷ rest)
      ≡ run (start (ls ++ record { uri = u; param = m } ∷ [])) rest
unfolding run step_in step_field_sep step_init end_link is_token is_alpha_num
run-comma rest ls u m = refl

run-end :
    (ls : List Link) (u : Chars) (m : List (Chars × Chars))
    → run (at field_sep ls u [] [] m) [] ≡ ok (ls ++ record { uri = u; param = m } ∷ [])
unfolding run finish end_link
run-end ls u m = refl

run-nothing : (ls : List Link) → run (start ls) [] ≡ ok ls
unfolding run finish
run-nothing ls = refl

-- One header.
run-render :
    (ls done : List Link)
    → All IsWritable ls
    → run (start done) (render ls) ≡ ok (done ++ map normal ls)
unfolding render normal
run-render [] done w = run-nothing done ∙ ap ok (sym (append-nil _))
run-render (l ∷ []) done w = run-link l [] done w.0 ∙ run-end done l.uri (collect [] l.param)
run-render (l ∷ m ∷ ls) done w =
    run-link l (b',' ∷ b' ' ∷ render (m ∷ ls)) done w.0
    ∙ run-comma (render (m ∷ ls)) done l.uri (collect [] l.param)
    ∙ run-render (m ∷ ls) (done ++ normal l ∷ []) w.1
    ∙ ap ok (append_assoc done (normal l ∷ []) (map normal (m ∷ ls)))

parse_from-render :
    (lss : List (List Link)) (done : List Link)
    → All (All IsWritable) lss
    → parse_from done (map render lss) ≡ ok (done ++ normal_all lss)
unfolding parse_from normal_all
parse_from-render [] done w = ap ok (sym (append-nil _))
parse_from-render (ls ∷ lss) done w =
    rw (run-render ls done w.0, parse_from)
      (parse_from-render lss (done ++ map normal ls) w.1
        ∙ ap ok (append_assoc done (map normal ls) (normal_all lss)))

-- Headers that are written from links are read back: for any number of headers with any number of
-- links, whose addresses hold no `>`, whose parameter names are made of letters and digits and
-- whose values hold no double quote, the parser returns all the links in order; of parameters with
-- one name the first one counts.
pub parse-render :
    (lss : List (List Link))
    → All (All IsWritable) lss
    → parse (map render lss) ≡ ok (normal_all lss)
unfolding parse
parse-render lss w = parse_from-render lss [] w
