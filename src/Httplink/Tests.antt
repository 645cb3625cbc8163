-- ===== src/Httplink/Tests.antt =====
-- Runs of the link parser, and instances of its theorems.
use regclient.Base.{◌≡◌, refl, [], ◌∷◌, map, arith}
use regclient.Base.Text.{codes, chars_eq}
use regclient.Base.Maps.{lookup}
use regclient.Errs.{ok}
use regclient.Httplink.{
  Link, parse, parse_from, run, step_in, step_init, step_uri, step_field_sep, step_parm_name,
  step_parm_value, finish, end_link, end_parm, add_parm, is_token, is_alpha_num,
}
use regclient.Httplink.RoundTrip.{render, normal_all, parse-render}

abbrev next : Link
next = record {
  uri = codes "/v2/_catalog?last=b&n=100";
  param = (codes "rel", codes "next") ∷ (codes "title", codes "a; b, c") ∷ [];
}

abbrev plain : Link
plain = record { uri = codes "https://example.com/a"; param = [] }

parse-next :
    parse (codes "a; rel=next; rel=\"prev\", <b>;title*=x" ∷ [])
    ≡ ok (
        record { uri = codes "a"; param = (codes "rel", codes "next") ∷ [] }
        ∷ record { uri = codes "b"; param = (codes "title", codes "x") ∷ [] }
        ∷ [])
unfolding parse parse_from run step_in step_init step_uri step_field_sep step_parm_name
    step_parm_value finish end_link end_parm add_parm is_token is_alpha_num lookup chars_eq
parse-next = refl

parse-render_example :
    parse (map render ((next ∷ plain ∷ []) ∷ [] ∷ (plain ∷ []) ∷ []))
    ≡ ok (normal_all ((next ∷ plain ∷ []) ∷ [] ∷ (plain ∷ []) ∷ []))
unfolding is_alpha_num
parse-render_example = parse-render ((next ∷ plain ∷ []) ∷ [] ∷ (plain ∷ []) ∷ []) (ground arith)
