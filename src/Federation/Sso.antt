-- ===== src/Federation/Sso.antt =====
-- modules/federation/sso.py: short-lived sign-in tickets that keep the user's role. The base64 and
-- JSON forms of a ticket are the parameter `Codec`; an absent field of a claim reads as empty.
pub mod Grant
pub mod Redeem
use runvard.Base.{
  prefix, ℕ, ◌+◌, String, ◌≡◌, Bool, true, false, Option, none, some, not, ◌&&◌, ◌||◌, ltb, ◌==◌,
  if◌then◌else◌, value_error, Result, ok, err, Action, raise, raise_if, pure, modify, ◌>>=◌, ◌>>◌,
}
use runvard.Base.Dict
use runvard.Base.Dict.{Dict}
use runvard.Federation.Types.{Claim, Payload}
use runvard.Federation.Crypto.{Library, NodeIdentity, sign_payload, verify_payload}

abbrev pub ticket_ttl : ℕ
ticket_ttl = 60

pub record Ticket : Type 0 where
  pub claim : Claim
  pub signature : String

-- `_encode` and `_decode`; `none` where the ticket cannot be read.
pub record Codec : Type 0 where
  pub encode : Ticket → String
  pub decode : String → Option Ticket

-- A ticket that was issued here and may be redeemed.
pub record Pending : Type 0 where
  pub expires_at : ℕ
  pub hash : String
  pub redeemed : Bool

-- `role if role in {"admin", "readonly"} else "readonly"`
abbrev pub safe_role : String → String
safe_role role = if role == "admin" || role == "readonly" then role else "readonly"

abbrev pub invalid_ticket : Result Ticket
invalid_ticket = err (value_error "invalid SSO ticket")

module _ (L : Library) (C : Codec) where
  unfoldable pub read_ticket : String → Result Ticket
  read_ticket ticket = elim (C.decode ticket) [ none ↦ invalid_ticket | some value ↦ ok value ]

  -- The claim, before it is trusted.
  unfoldable pub ticket_claim : String → Result Claim
  ticket_claim ticket = elim (read_ticket ticket) [ err e ↦ err e | ok value ↦ ok value.claim ]

  unfoldable pub make_claim :
      NodeIdentity → (target federation_id username role : String) → Bool → ℕ → String → Claim
  make_claim identity target federation_id username role expert now ticket_id = record {
    audience = target;
    expires_at = now + ticket_ttl;
    expert = expert && safe_role role == "admin";
    federation_id = federation_id;
    issued_at = now;
    issuer = identity.node_id;
    role = safe_role role;
    ticket_id = ticket_id;
    username = prefix 128 username;
  }

  abbrev pub signed_ticket : NodeIdentity → Claim → Ticket
  signed_ticket identity claim = record {
    claim = claim;
    signature = sign_payload L identity (Payload.claim claim);
  }

  unfoldable pub make_ticket : NodeIdentity → Claim → String
  make_ticket identity claim = C.encode (signed_ticket identity claim)

  -- `now` is the clock and `ticket_id` the random token; the dict holds the pending tickets.
  unfoldable pub issue_ticket :
      NodeIdentity
      → (target federation_id username role : String) → Bool
      → ℕ
      → String
      → Action (Dict Pending) String
  issue_ticket identity target federation_id username role expert now ticket_id = do
    let claim = make_claim identity target federation_id username role expert now ticket_id
    let ticket = make_ticket identity claim
    let entry : Pending = record {
      expires_at = claim.expires_at;
      hash = L.sha256_hex ticket;
      redeemed = false;
    }
    modify (Dict.insert claim.ticket_id entry)
    pure ticket

  -- Only an administrator keeps the expert flag.
  abbrev pub without_expert : Claim → Claim
  without_expert claim = if claim.role == "admin" then claim else record claim { expert = false }

  unfoldable pub check_claim : Claim → (target federation : String) → ℕ → Result Claim
  check_claim claim target federation current =
      if not (claim.audience == target)
      then err (value_error "wrong SSO audience")
      else if not (claim.federation_id == federation)
      then err (value_error "wrong SSO federation")
      else if ltb claim.expires_at current
      then err (value_error "SSO ticket expired")
      else if ltb (current + 30) claim.issued_at
      then err (value_error "SSO ticket clock is invalid")
      else if not (claim.role == "admin" || claim.role == "readonly")
      then err (value_error "invalid SSO role")
      else ok (without_expert claim)

  unfoldable pub validate_ticket :
      (ticket issuer_public_key target federation : String) → ℕ → Result Claim
  validate_ticket ticket issuer_public_key target federation current = elim (read_ticket ticket) [
    | err e ↦ err e
    | ok value ↦
        elim (verify_payload L issuer_public_key (Payload.claim value.claim) value.signature) [
          | err e ↦ err e
          | ok _ ↦ check_claim value.claim target federation current
        ]
  ]

  unfoldable pub redeem_entry :
      (ticket ticket_id : String) → ℕ → Option Pending → Action (Dict Pending) Bool
  redeem_entry ticket ticket_id current none = raise (value_error "unknown SSO ticket")
  redeem_entry ticket ticket_id current (some entry) = do
    raise_if (not (entry.hash == L.sha256_hex ticket)) (value_error "unknown SSO ticket")
    raise_if entry.redeemed (value_error "SSO ticket already redeemed")
    raise_if (ltb entry.expires_at current) (value_error "SSO ticket expired")
    modify (Dict.insert ticket_id (record entry { redeemed = true }))
    pure true

  unfoldable pub redeem_ticket : String → ℕ → Action (Dict Pending) Bool
  redeem_ticket ticket current pending = elim (read_ticket ticket) [
    | err e ↦ (err e, pending)
    | ok value ↦
        let ticket_id = value.claim.ticket_id in
        redeem_entry ticket ticket_id current (Dict.get ticket_id pending) pending
  ]
