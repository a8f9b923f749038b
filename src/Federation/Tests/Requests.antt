-- ===== src/Federation/Tests/Requests.antt =====
-- The theorems on nonces and signed requests at concrete data.
use runvard.Base.{
  prefix, text_length, ℕ, ◌≡◌, ◌≢◌, refl, none, some, List, [], ◌∷◌, ok, reply, after, arith,
  string_dec, ne_of_test,
}
use runvard.Base.Dict
use runvard.Base.Dict.{Dict, NodupKeys}
use runvard.Federation.Crypto.{node_id_from_public_key, verify_payload}
use runvard.Federation.Nonces.{consume, nonce_ttl, nonce_limit}
use runvard.Federation.Nonces.Replay.{Request, after_requests}
use runvard.Federation.Protocol.{
  Headers, envelope, check_clock, check_request, verify_request, sign_request,
}
use runvard.Federation.Protocol.Checks.{
  IsGenuine, verify_request-IsGenuine, verify_request_once, verify_request-sign,
}
use runvard.Federation.Tests.{library, alice, alice-IsKeyPair}

abbrev cache : Dict ℕ
cache = ("kb:n0", 150) ∷ ("kc:n0", 10) ∷ []

cache_distinct : NodupKeys cache
unfolding Dict.get string_dec
cache_distinct = (refl, (refl, tt))

abbrev between : List Request
between = record { sender = "kb"; nonce = "n1"; time = 210 } ∷ []

fresh : reply (consume 120 3 "ka" "n1" 200) cache ≡ ok tt
unfolding consume Dict.prune Dict.pop_all Dict.keys_where Dict.erase Dict.get string_dec
fresh = refl

-- What Alice sends to Bob.
abbrev sent : Headers
sent = record {
  node = "ka";
  target = "kb";
  time = some 200;
  nonce = "n1";
  version = "1";
  signature = "kaPOST/syncn1";
}

let_in : reply (verify_request library sent "ka" "kb" "POST" "/sync" none 205) cache ≡ ok "ka"
unfolding verify_request check_request check_clock verify_payload envelope text_length
    node_id_from_public_key prefix consume Dict.prune Dict.pop_all Dict.keys_where Dict.erase
    Dict.get string_dec
let_in = refl

verify_request-IsGenuine_example :
    (IsGenuine library sent "ka" "kb" "POST" "/sync" none 205) × ("ka" ≡ sent.node)
verify_request-IsGenuine_example =
    verify_request-IsGenuine library sent "ka" "kb" "POST" "/sync" none 205 cache let_in

verify_request_once_example :
    reply (verify_request library sent "ka" "kb" "POST" "/sync" none 230) (
      after_requests nonce_ttl nonce_limit between
        (after (verify_request library sent "ka" "kb" "POST" "/sync" none 205) cache))
    ≢ ok "ka"
verify_request_once_example =
    verify_request_once library sent "ka" "kb" "POST" "/sync" none 205 230 between cache
      cache_distinct (omega arith) (omega arith, tt) let_in

verify_request-sign_example :
    reply
      (verify_request library
        (sign_request library alice "kb" "POST" "/sync" none 200 "n1")
        "ka"
        "kb"
        "POST"
        "/sync"
        none
        230)
      cache
    ≡ ok "ka"
unfolding Dict.prune Dict.pop_all Dict.keys_where Dict.erase Dict.get string_dec text_length
    node_id_from_public_key prefix
verify_request-sign_example =
    verify_request-sign library alice "kb" "POST" "/sync" none 200 230 "n1" cache alice-IsKeyPair
      refl (ne_of_test "ka" "" refl) (omega arith) (omega arith) (omega arith) refl
