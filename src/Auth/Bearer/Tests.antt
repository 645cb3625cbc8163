-- ===== src/Auth/Bearer/Tests.antt =====
-- Runs of the bearer handler, and instances of its theorems.
use regclient.Base.{◌*◌, ◌≡◌, refl, true, false, none, some, [], ◌∷◌, arith}
use regclient.Base.Int.{pos, negsuc}
use regclient.Base.Text.{codes, split, join, chars_eq}
use regclient.Base.Maps.{lookup}
use regclient.Auth.Header.{Challenge}
use regclient.Auth.Scope.{
  scope_exists, find_scope, actions_for, parse_scope, parse_repo, parse_actions, cut, has_prefix,
  add_to_scopes, try_extend_existing_scope, extend_first, extend,
}
use regclient.Auth.Bearer.{
  BearerToken, Bearer, add_scope, second, seconds_bits, is_expired, is_later, settle, accept,
  process_challenge, store_token,
}
use regclient.Auth.Bearer.Handler.{
  IsAccepted, process_challenge-IsAccepted, store_token-is_expired, store_token-overflow,
}

abbrev token : BearerToken
token = record {
  token = codes "t";
  access_token = [];
  expires_in = negsuc 4;
  issued_at = some 0;
  refresh_token = [];
}

abbrev handler : Bearer
handler = record {
  realm = [];
  service = [];
  scopes = codes "repository:a:pull" ∷ [];
  token = token;
}

abbrev challenge : Challenge
challenge = record {
  auth_type = codes "bearer";
  params =
      (codes "realm", codes "https://r")
      ∷ (codes "service", codes "s")
      ∷ (codes "scope", codes "repository:a:push")
      ∷ [];
}

abbrev after : Bearer
after = record {
  realm = codes "https://r";
  service = codes "s";
  scopes = codes "repository:a:pull,push" ∷ [];
  token = record token { token = [] };
}

run-challenge : process_challenge 9 handler challenge ≡ (none, after)
unfolding process_challenge accept settle add_scope is_expired seconds_bits lookup scope_exists
    find_scope actions_for parse_scope parse_repo parse_actions cut has_prefix add_to_scopes
    try_extend_existing_scope extend_first extend chars_eq split join
run-challenge = refl

process_challenge-IsAccepted_example :
    IsAccepted handler after (codes "https://r") (codes "s") (codes "repository:a:push")
unfolding lookup chars_eq
process_challenge-IsAccepted_example =
    process_challenge-IsAccepted 9 handler after challenge run-challenge

store_token-is_expired_example :
    let t = store_token (100 * second) (100 * second) (101 * second) token in
    (is_expired (100 * second) t ≡ false)
    × (is_later (101 * second) t ≡ false)
    × (t.token ≡ codes "t")
store_token-is_expired_example =
    store_token-is_expired (100 * second) (100 * second) (101 * second) token refl (ground arith)
      (ground arith)

-- Three hundred years.
abbrev long_token : BearerToken
long_token = record token { expires_in = pos 9467280000 }

store_token-overflow_example : is_expired 9 (store_token 7 8 9 long_token) ≡ true
store_token-overflow_example =
    store_token-overflow 7 8 9 9 9467280000 long_token refl (omega arith) (omega arith)
      (omega arith) (omega arith)
