-- ===== src/Server/Session.antt =====
-- Session cookies of server.py: `make_token` and `_parse_token`.
use runvard.Base.{
  ℕ, ◌+◌, ◌<>◌, String, Bool, true, false, Option, none, some, List, [], ◌∷◌, ltb, ◌==◌,
  if◌then◌else◌, split, split_once,
}

-- `base64`, `hmac` under the server's key, `str.encode` and `bytes.decode`, `int` and its printing.
-- Bytes are texts too. `int` is `none` where it raises, and a negative number is read as 0.
pub record Coding : Type 0 where
  pub b64e : String → String
  pub b64d : String → Option String
  pub mac : String → String
  pub encode : String → String
  pub decode : String → Option String
  pub int : String → Option ℕ
  pub decimal : ℕ → String

-- What a token says: `(username, role, expert)`.
pub record Session : Type 0 where
  pub username : String
  pub role : String
  pub expert : Bool

-- The fields of a payload, before its time is tested.
pub record Fields : Type 0 where
  pub username : String
  pub role : String
  pub expert : String
  pub expires : String

abbrev pub session_ttl : ℕ
session_ttl = 28800

abbrev pub session_ttl_remember : ℕ
session_ttl_remember = 2592000

abbrev pub flag_text : Bool → String
flag_text true = "1"
flag_text false = "0"

-- Also of older tokens, without the flag or without the role.
abbrev pub read_fields : List String → Option Fields
read_fields (username ∷ role ∷ expert ∷ expires ∷ []) =
    some (record { username = username; role = role; expert = expert; expires = expires })
read_fields (username ∷ role ∷ expires ∷ []) =
    some (record { username = username; role = role; expert = "0"; expires = expires })
read_fields (username ∷ expires ∷ []) =
    some (record { username = username; role = "admin"; expert = "0"; expires = expires })
read_fields _ = none

module _ (C : Coding) where
  unfoldable pub payload_of : (username role : String) → Bool → ℕ → String
  payload_of username role expert expires =
      username <> ("|" <> (role <> ("|" <> (flag_text expert <> ("|" <> C.decimal expires)))))

  unfoldable pub make_token : (username : String) → (ttl : ℕ) → (role : String) → Bool → ℕ → String
  make_token username ttl role expert now =
      let payload = C.encode (payload_of username role expert (now + ttl)) in
      C.b64e payload <> ("." <> C.b64e (C.mac payload))

  -- The payload of a token whose signature is right.
  unfoldable pub signed_payload : String → Option String
  signed_payload token = elim (split_once "." token) [
    | none ↦ none
    | some (p_b64, s_b64) ↦ elim (C.b64d p_b64) [
      | none ↦ none
      | some payload ↦ elim (C.b64d s_b64) [
        | none ↦ none
        | some signature ↦ if signature == C.mac payload then some payload else none
      ]
    ]
  ]

  -- The session of a payload that has not expired.
  unfoldable pub read_payload : String → ℕ → Option Session
  read_payload payload now = elim (C.decode payload) [
    | none ↦ none
    | some plain ↦ elim (read_fields (split "|" plain)) [
      | none ↦ none
      | some fields ↦ elim (C.int fields.expires) [
        | none ↦ none
        | some expires ↦
            if ltb expires now
            then none
            else some (record {
              username = fields.username;
              role = fields.role;
              expert = fields.expert == "1";
            })
      ]
    ]
  ]

  unfoldable pub parse_token : Option String → ℕ → Option Session
  parse_token none now = none
  parse_token (some token) now = elim (signed_payload token) [
    | none ↦ none
    | some payload ↦ read_payload payload now
  ]

  unfoldable pub verify_token : Option String → ℕ → Option String
  verify_token token now = elim (parse_token token now) [
    | none ↦ none
    | some session ↦ some session.username
  ]
