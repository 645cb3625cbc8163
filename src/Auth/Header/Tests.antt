-- ===== src/Auth/Header/Tests.antt =====
-- Runs of the header parser, and instances of its theorems.
use regclient.Base.{◌≡◌, refl, true, [], ◌∷◌, map, arith}
use regclient.Base.Text.{codes}
use regclient.Auth.Header.{
  Challenge, parsed, parse_auth_header, run, step_in, string_start, string_rest, begin, store,
  set_param, is_token, to_lower, finish,
}
use regclient.Auth.Header.Panics.{is_panic, opens_quoted, closes, parse_auth_header-panics}
use regclient.Auth.Header.RoundTrip.{render, normal, parse_auth_header-render}

abbrev bearer : Challenge
bearer = record {
  auth_type = codes "Bearer";
  params =
      (codes "realm", codes "https://auth.docker.io/token") ∷ (codes "Scope", codes "a\\b\"c") ∷ [];
}

abbrev basic : Challenge
basic = record { auth_type = codes "Basic"; params = (codes "realm", codes "x, y") ∷ [] }

parse-basic :
    parse_auth_header (codes "Basic realm=\"GitHub Package Registry\"")
    ≡ parsed (
        record {
          auth_type = codes "basic";
          params = (codes "realm", codes "GitHub Package Registry") ∷ [];
        }
        ∷ [])
unfolding parse_auth_header run step_in string_start string_rest begin store set_param is_token
    to_lower finish
parse-basic = refl

parse_auth_header-render_example :
    parse_auth_header (render (bearer ∷ basic ∷ [])) ≡ parsed (map normal (bearer ∷ basic ∷ []))
unfolding is_token
parse_auth_header-render_example = parse_auth_header-render (bearer ∷ basic ∷ []) (ground arith)

parse_auth_header-panics_example :
    is_panic (parse_auth_header (codes " \"a\"")) ≡ opens_quoted (codes " \"a\"")
parse_auth_header-panics_example = parse_auth_header-panics (codes " \"a\"")

opens_quoted_run : opens_quoted (codes " \"a\"") ≡ true
unfolding opens_quoted closes
opens_quoted_run = refl
