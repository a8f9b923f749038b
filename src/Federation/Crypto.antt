-- ===== src/Federation/Crypto.antt =====
-- modules/federation/crypto.py over `json`, `hashlib`, `base64` and PyNaCl, which are parameters.
use runvard.Base.{
  prefix, String, ◌<>◌, ◌≡◌, Bool, true, if◌then◌else◌, Result, ok, err, value_error,
}
use runvard.Federation.Types.{Payload}

-- What the code calls of the libraries. Byte strings are texts. `sign` and `verify` take keys and
-- signatures in their base64 form; `verify` is false where PyNaCl raises.
pub record Library : Type 0 where
  pub dumps : Payload → String
  pub sign : String → String → String
  pub verify : String → String → String → Bool
  pub sha256_hex : String → String
  pub key_sha256_hex : String → String
  pub key_sha256_base64 : String → String
  pub upper : String → String

pub record NodeIdentity : Type 0 where
  pub node_id : String
  pub public_key : String
  pub signing_key : String

module _ (L : Library) where
  abbrev pub canonical_json : Payload → String
  canonical_json payload = L.dumps payload

  unfoldable pub node_id_from_public_key : String → String
  node_id_from_public_key public_key = prefix 32 (L.key_sha256_hex public_key)

  unfoldable pub public_key_fingerprint : String → String
  public_key_fingerprint public_key = "SHA256:" <> L.key_sha256_base64 public_key

  unfoldable pub sign_payload : NodeIdentity → Payload → String
  sign_payload identity payload = L.sign identity.signing_key (canonical_json payload)

  unfoldable pub verify_payload : String → Payload → String → Result (Unit {0})
  verify_payload public_key payload signature =
      if L.verify public_key (canonical_json payload) signature
      then ok tt
      else err (value_error "invalid signature")

  -- PyNaCl's promise for the key pair of an identity: what it signs, verifies.
  pub record IsKeyPair (identity : NodeIdentity) : Type 0 where
    pub verifies :
        (message : String)
        → L.verify identity.public_key message (L.sign identity.signing_key message) ≡ true

  -- A payload that an identity signed passes under its public key.
  pub verify_payload-sign :
      (identity : NodeIdentity) (payload : Payload)
      → IsKeyPair identity
      → verify_payload identity.public_key payload (sign_payload identity payload) ≡ ok tt
  unfolding verify_payload sign_payload
  verify_payload-sign identity payload pair = rw pair.verifies
