-- ===== src/Strparse/Balance.antt =====
-- Which texts `SplitCSKV` accepts.
use regclient.Base.{
  ℕ, ◌≡◌, refl, ◌∙◌, Bool, true, false, not, ◌&&◌, [], ◌∷◌, arith, ◌==◌, if◌then◌else◌,
}
use regclient.Base.Text.{Chars}
use regclient.Errs.{is_ok}
use regclient.Strparse.{
  State, in_key, key_quote, key_escape, key_escape_quote, val_quote, val_escape, val_escape_quote,
  Parser, step_in, finish, run, split_cskv,
}

-- A scan that keeps two flags only: inside double quotes, and behind a backslash.
unfoldable pub is_closed : Bool → Bool → Chars → Bool
is_closed quoted escaped [] = not quoted && not escaped
is_closed quoted true (c ∷ cs) = is_closed quoted false cs
is_closed quoted false (c ∷ cs) =
    is_closed (if c == b'"' then not quoted else quoted) (c == b'\\') cs

abbrev is_quoted : State → Bool
is_quoted key_quote = true
is_quoted key_escape_quote = true
is_quoted val_quote = true
is_quoted val_escape_quote = true
is_quoted _ = false

abbrev is_escaped : State → Bool
is_escaped key_escape = true
is_escaped key_escape_quote = true
is_escaped val_escape = true
is_escaped val_escape_quote = true
is_escaped _ = false

step-is_closed :
    (q : State) (p : Parser) (c : ℕ) (cs : Chars)
    → is_closed (is_quoted (step_in q p c).state) (is_escaped (step_in q p c).state) cs
      ≡ is_closed (is_quoted q) (is_escaped q) (c ∷ cs)
unfolding step_in is_closed
step-is_closed in_key p c cs = ground arith
step-is_closed _ p c cs = ground arith

finish-is_closed :
    (q : State) (p : Parser) → is_ok (finish q p) ≡ is_closed (is_quoted q) (is_escaped q) []
unfolding finish is_closed
finish-is_closed in_key p = refl
finish-is_closed _ p = refl

run-is_closed :
    (s : Chars) (p : Parser)
    → is_ok (run p s) ≡ is_closed (is_quoted p.state) (is_escaped p.state) s
unfolding run
run-is_closed [] p = finish-is_closed p.state p
run-is_closed (c ∷ cs) p = run-is_closed cs (step_in p.state p c) ∙ step-is_closed p.state p c cs

-- `SplitCSKV` succeeds on a text exactly if no double quote is left open at its end and its last
-- character is not a backslash that escapes nothing; commas and equal signs never make it fail.
pub split_cskv-is_closed : (s : Chars) → is_ok (split_cskv s) ≡ is_closed false false s
unfolding split_cskv
split_cskv-is_closed s = run-is_closed s _
