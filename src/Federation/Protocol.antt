-- ===== src/Federation/Protocol.antt =====
-- modules/federation/protocol.py: signed requests between peers. Headers are read as texts, an
-- absent one as the empty text; the clock header as `int` reads it, `none` where that raises.
pub mod Checks
use Prim.Native.String
use runvard.Base.{
  text_length, ℕ, suc, ◌+◌, String, Bool, Option, none, some, not, ◌||◌, ltb, ◌==◌, if◌then◌else◌,
  value_error, Result, ok, err, Action, pure, raise_if, lift, ◌>>=◌, ◌>>◌,
}
use runvard.Base.Dict.{Dict}
use runvard.Federation.Types.{Envelope, Payload}
use runvard.Federation.Crypto.{
  Library, NodeIdentity, canonical_json, node_id_from_public_key, sign_payload, verify_payload,
}
use runvard.Federation.Nonces.{consume, nonce_ttl, nonce_limit}

abbrev pub api_version : String
api_version = "1"

abbrev pub max_clock_skew : ℕ
max_clock_skew = 30

pub record Headers : Type 0 where
  pub node : String
  pub target : String
  pub time : Option ℕ
  pub nonce : String
  pub version : String
  pub signature : String

module _ (L : Library) where
  unfoldable pub body_hash : Option Payload → String
  body_hash none = L.sha256_hex ""
  body_hash (some body) = L.sha256_hex (canonical_json L body)

  unfoldable pub envelope : (sender target method path hash : String) → ℕ → String → Envelope
  envelope sender target method path hash timestamp nonce = record {
    body_sha256 = hash;
    method = L.upper method;
    nonce = nonce;
    path = path;
    sender = sender;
    target = target;
    timestamp = timestamp;
    version = api_version;
  }

  -- `now` is the clock and `nonce` the random token.
  unfoldable pub sign_request :
      NodeIdentity → (target method path : String) → Option Payload → ℕ → String → Headers
  sign_request identity target method path body now nonce = record {
    node = identity.node_id;
    target = target;
    time = some now;
    nonce = nonce;
    version = api_version;
    signature = sign_payload L identity (
        Payload.envelope (envelope identity.node_id target method path (body_hash body) now nonce));
  }

  -- The request's clock, if it is near enough to ours: `abs(now - timestamp) <= MAX_CLOCK_SKEW`.
  unfoldable pub check_clock : ℕ → Option ℕ → Result ℕ
  check_clock now none = err (value_error "invalid request clock")
  check_clock now (some timestamp) =
      if ltb (timestamp + max_clock_skew) now || ltb (now + max_clock_skew) timestamp
      then err (value_error "request clock skew is too large")
      else ok timestamp

  -- All that is tested before the nonce is consumed.
  unfoldable pub check_request :
      Headers
      → (public_key expected_target method path : String) → Option Payload
      → ℕ
      → Result (Unit {0})
  check_request headers public_key expected_target method path body now =
      if headers.node == "" || not (headers.node == node_id_from_public_key L public_key)
      then err (value_error "unknown request sender")
      else if not (headers.target == expected_target)
      then err (value_error "wrong request recipient")
      else if not (headers.version == api_version)
      then err (value_error "incompatible federation API")
      else elim (check_clock now headers.time) [
        | err e ↦ err e
        | ok timestamp ↦
            if ltb (text_length headers.nonce) 2
            then err (value_error "missing request nonce")
            else verify_payload L public_key
                (Payload.envelope (
                  envelope headers.node headers.target method path (body_hash body) timestamp
                    headers.nonce))
                headers.signature
      ]

  -- The dict is the nonce cache.
  unfoldable pub verify_request :
      Headers
      → (public_key expected_target method path : String) → Option Payload
      → ℕ
      → Action (Dict ℕ) String
  verify_request headers public_key expected_target method path body now = do
    lift (check_request headers public_key expected_target method path body now)
    consume nonce_ttl nonce_limit headers.node headers.nonce now
    pure headers.node
