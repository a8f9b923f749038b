-- ===== src/Federation/Types.antt =====
-- The dicts that federated servers exchange and store, as records. A field that the code reads with
-- `.get` and that may be absent is an `Option`. Times are whole seconds, as `int(time.time())`.
use runvard.Base.{ℕ, String, Bool, Option, List}
use runvard.Base.Dict.{Dict}

-- What a node says of itself beside its key (`_metadata`).
pub record Info : Type 0 where
  pub name : String
  pub hostname : String
  pub internal_url : String
  pub browser_url : String
  pub api_version : Option ℕ
  pub runvard_version : String

-- A node of the membership, and the subject of an event.
pub record Node : Type 0 where
  pub node_id : Option String
  pub public_key : Option String
  pub info : Info
  pub revoked : Bool
  pub updated_at : Option ℕ
  pub revoked_at : Option ℕ

-- An event without its id and signature (`_unsigned`).
pub record Unsigned : Type 0 where
  pub federation_id : Option String
  pub kind : String
  pub issuer : String
  pub subject : Node
  pub created_at : Option ℕ
  pub nonce : String

pub record Event : Type 0 where
  pub unsigned : Unsigned
  pub open unsigned use *
  pub signature : Option String
  pub event_id : String

-- `empty_membership`
pub record Membership : Type 0 where
  pub federation_id : String
  pub nodes : Dict Node
  pub events : Dict Event

-- What a peer request signs (`_envelope`).
pub record Envelope : Type 0 where
  pub body_sha256 : String
  pub method : String
  pub nonce : String
  pub path : String
  pub sender : String
  pub target : String
  pub timestamp : ℕ
  pub version : String

-- What a sign-in ticket claims.
pub record Claim : Type 0 where
  pub audience : String
  pub expires_at : ℕ
  pub expert : Bool
  pub federation_id : String
  pub issued_at : ℕ
  pub issuer : String
  pub role : String
  pub ticket_id : String
  pub username : String

-- What a joining node proves, and what the existing server answers.
pub record PairProof : Type 0 where
  pub code : Option String
  pub expected_responder_fingerprint : String
  pub node : Node

pub record PairResponse : Type 0 where
  pub federation_id : String
  pub events : List Event
  pub responder : String
  pub responder_public_key : String

-- The values that are put through `canonical_json`.
pub data Payload : Type 0 where
  event : Unsigned → Payload
  signed_event : Unsigned → Option String → Payload
  envelope : Envelope → Payload
  claim : Claim → Payload
  proof : PairProof → Payload
  response : PairResponse → Payload
  sync_body : List Event → Payload
  ticket_body : String → Payload
