-- ===== src/Federation/Tests.antt =====
-- Two servers under toy libraries, for the tests of the federation: a digest is the text itself, and
-- a signature is the key before the message.
pub mod Events
pub mod Codes
pub mod Requests
pub mod SignIn
pub mod Servers
use runvard.Base.{String, ◌<>◌, true, false, none, some, [], ◌∷◌, ◌==◌, ==-refl}
use runvard.Federation.Types.{Node, Unsigned, Event, Membership, Payload}
use runvard.Federation.Crypto.{Library, NodeIdentity, IsKeyPair}

abbrev toy_dumps : Payload → String
toy_dumps (Payload.event u) = "event" <> u.nonce
toy_dumps (Payload.signed_event u signature) = "id" <> u.nonce
toy_dumps (Payload.envelope e) = e.method <> (e.path <> e.nonce)
toy_dumps (Payload.claim c) = "claim" <> c.ticket_id
toy_dumps (Payload.proof p) = "proof"
toy_dumps (Payload.response r) = "response"
toy_dumps (Payload.sync_body events) = "sync"
toy_dumps (Payload.ticket_body ticket) = "ticket"

abbrev pub library : Library
library = record {
  dumps = toy_dumps;
  sign = λ key message. key <> message;
  verify = λ key message signature. signature == (key <> message);
  sha256_hex = λ text. text;
  key_sha256_hex = λ key. key;
  key_sha256_base64 = λ key. key;
  upper = λ text. text;
}

abbrev pub alice : NodeIdentity
alice = record { node_id = "ka"; public_key = "ka"; signing_key = "ka" }

abbrev pub node_of : String → Node
node_of key = record {
  node_id = some key;
  public_key = some key;
  info = record {
    name = key;
    hostname = key;
    internal_url = "http://10.0.0.1:80";
    browser_url = "http://a";
    api_version = some 1;
    runvard_version = "1";
  };
  revoked = false;
  updated_at = some 100;
  revoked_at = none;
}

abbrev pub joins : String → Event
joins key = record {
  unsigned = record {
    federation_id = some "f";
    kind = "node_joined";
    issuer = "ka";
    subject = node_of key;
    created_at = some 100;
    nonce = key;
  };
  signature = some ("kaevent" <> key);
  event_id = "id" <> key;
}

-- Alice founded the federation, and Bob was in it.
abbrev pub two : Membership
two = record {
  federation_id = "f";
  nodes = ("ka", node_of "ka") ∷ ("kb", record (node_of "kb") { revoked = true }) ∷ [];
  events = ("idka", joins "ka") ∷ [];
}

pub alice-IsKeyPair : IsKeyPair library alice
alice-IsKeyPair = record { verifies = λ message. ==-refl ("ka" <> message) }
