-- ===== src/Federation/Tests/Servers.antt =====
-- The theorems on a whole server at concrete data.
use runvard.Base.{
  prefix, ◌≡◌, refl, true, false, none, some, [], ◌∷◌, ok, reply, after, string_dec, List,
}
use runvard.Base.Dict
use runvard.Federation.Crypto.{
  sign_payload, verify_payload, public_key_fingerprint, node_id_from_public_key,
}
use runvard.Federation.Pairing.{consume}
use runvard.Federation.Sso.{Codec}
use runvard.Federation.Urls.{
  UrlLibrary, Url, is_hostname, validate_internal_url, validate_browser_url,
}
use runvard.Federation.Manager.{Env, State, Manager, require_enabled, announce}
use runvard.Federation.Membership.{
  create_event, apply_event, admit, authenticate, issuer_key, event_digest, place, join_node,
  finish,
}
use runvard.Federation.Manager.Pair.{PairRequest, pair_response, check_pair, accept_pair}
use runvard.Federation.Manager.Calls.{Call, perform_all}
use runvard.Federation.Manager.Lasting.{IsLasting, perform_all-IsLasting}
use runvard.Federation.Manager.Access.{IsShut, perform_all-IsShut}
use runvard.Federation.Manager.Limit.{IsAdmitted, accept_pair-IsAdmitted}
use runvard.Federation.Tests.{library, alice, two, joins, node_of}

-- Every URL is taken for the same one, which is in every network.
abbrev url : Url
url = record {
  scheme = "http";
  netloc = "h:80";
  username = none;
  password = none;
  path = "";
  query = "";
  fragment = "";
  hostname = some "h";
  port = ok (some 80);
}

abbrev urls : UrlLibrary
urls = record {
  strip = λ text. text;
  rstrip_slash = λ text. text;
  urlsplit = λ text. url;
  ip_address = λ text. some text;
  ip_network = λ text. some text;
  ip_version = λ text. 4;
  is_in = λ address network. true;
}

abbrev codec : Codec
codec = record { encode = λ t. t.claim.ticket_id; decode = λ text. none }

abbrev env : Env
env = record {
  library = library;
  codec = codec;
  urls = urls;
  identity = alice;
  hostname = "ka";
  version = "1";
}

abbrev state : State
state = record {
  enabled = true;
  settings = record {
    name = "ka";
    internal_url = "http://h:80";
    browser_url = "http://h:80";
    allowed_cidrs = "10.0.0.0/8" ∷ [];
  };
  membership = two;
  peer_status = [];
  pairing = record {
    values = ("right", record { created_at = 100; expires_at = 700; used = false }) ∷ [];
    failures = [];
  };
  tickets = [];
  nonces = [];
}

abbrev server : Manager
server = record { state = state; saved = state }

-- Bob, who was revoked, tries to come back.
abbrev calls : List (Call env)
calls =
    Call.accept_sync (joins "kb" ∷ joins "kc" ∷ [])
    ∷ Call.revoke "kc" 120 "n1"
    ∷ Call.poll_one "kc" 130 (some (joins "kb" ∷ [], true, "up"))
    ∷ []

perform_all-IsLasting_example : IsLasting "kb" two (perform_all env calls server)
perform_all-IsLasting_example = perform_all-IsLasting env "kb" calls server

perform_all-IsShut_example : IsShut env "kb" (perform_all env calls server)
unfolding Dict.get string_dec
perform_all-IsShut_example = perform_all-IsShut env "kb" calls server refl

abbrev request : PairRequest
request = record {
  code = some "right";
  fingerprint = "SHA256:ka";
  node = node_of "kc";
  proof = "kcproof";
}

admitted :
    reply (accept_pair env request "r1" 200 210 "n9") server
    ≡ ok (pair_response env (after (accept_pair env request "r1" 200 210 "n9") server).state)
unfolding accept_pair check_pair require_enabled announce consume verify_payload
    public_key_fingerprint node_id_from_public_key prefix validate_internal_url validate_browser_url
    is_hostname sign_payload create_event apply_event admit authenticate issuer_key event_digest
    place join_node finish Dict.get Dict.insert string_dec
admitted = refl

accept_pair-IsAdmitted_example :
    (IsAdmitted env request "r1" 200 server)
    × ((after (accept_pair env request "r1" 200 210 "n9") server).saved
        ≡ (after (accept_pair env request "r1" 200 210 "n9") server).state)
accept_pair-IsAdmitted_example =
    accept_pair-IsAdmitted env request "r1" 200 210 "n9" server admitted
