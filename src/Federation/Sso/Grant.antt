-- ===== src/Federation/Sso/Grant.antt =====
-- What a ticket grants: never more than its issuer's role, and for a minute.
use runvard.Base.{
  prefix, ℕ, ◌+◌, ◌≤◌, String, ◌≡◌, ◌≢◌, ◌∙◌, ne_of_test, ◌⊎◌, refl, Bool, true, Option, none, some,
  ◌&&◌, ltb, ◌==◌, if◌then◌else◌, value_error, ok, err, reply, arith, string_dec,
}
use runvard.Base.Dict.{Dict}
use runvard.Federation.Types.{Claim, Payload}
use runvard.Federation.Crypto.{
  Library, NodeIdentity, IsKeyPair, canonical_json, verify_payload, verify_payload-sign,
}
use runvard.Federation.Sso.{
  Codec, Ticket, Pending, read_ticket, make_claim, make_ticket, signed_ticket, check_claim,
  validate_ticket, issue_ticket,
}

readonly_ne_admin : ◌≢◌ {A = String} "readonly" "admin"
unfolding string_dec
readonly_ne_admin = ne_of_test "readonly" "admin" refl

-- The claim of a ticket issued at `now`: an unknown role is read-only, and only an administrator is
-- an expert.
abbrev pub granted :
    NodeIdentity → (target federation username role ticket_id : String) → Bool → ℕ → Claim
granted identity target federation username role ticket_id expert now = record {
  audience = target;
  expires_at = now + 60;
  expert = expert && role == "admin";
  federation_id = federation;
  issued_at = now;
  issuer = identity.node_id;
  role = if role == "admin" then "admin" else "readonly";
  ticket_id = ticket_id;
  username = prefix 128 username;
}

module _ (L : Library) (C : Codec) where
  -- What a validated ticket has shown.
  pub record IsGranted (ticket issuer_public_key target federation : String) (current : ℕ)
      (claim : Claim) : Type 0 where
    pub value : Ticket
    pub decoded : C.decode ticket ≡ some value
    pub signed :
        L.verify issuer_public_key (canonical_json L (Payload.claim value.claim)) value.signature
        ≡ true
    pub same_user : claim.username ≡ value.claim.username
    pub same_role : claim.role ≡ value.claim.role
    pub audience : value.claim.audience ≡ target
    pub federated : value.claim.federation_id ≡ federation
    pub alive : current ≤ value.claim.expires_at
    pub begun : value.claim.issued_at ≤ current + 30
    pub known_role : (claim.role ≡ "admin") ⊎ (claim.role ≡ "readonly")
    pub expert_only : claim.expert ≡ true → (claim.role ≡ "admin") × (value.claim.expert ≡ true)

  -- A ticket is validated only if it was signed under the issuer's key for this node and this
  -- federation and has not expired. The claim then has the ticket's user and role, which is one of
  -- the two known roles, and the expert flag only if the ticket has it and the role is admin.
  pub validate_ticket-IsGranted :
      (ticket issuer_public_key target federation : String) (current : ℕ) (claim : Claim)
      → validate_ticket L C ticket issuer_public_key target federation current ≡ ok claim
      → IsGranted ticket issuer_public_key target federation current claim
  unfolding validate_ticket read_ticket verify_payload check_claim
  validate_ticket-IsGranted ticket issuer_public_key target federation current claim h =
      go (C.decode ticket) refl
    where
      go :
          (o : Option Ticket)
          → C.decode ticket ≡ o
          → IsGranted ticket issuer_public_key target federation current claim
      go none e = absurd (ground arith)
      go (some value) e = record {
        value = value;
        decoded = e;
        signed = ground arith;
        same_user = ground arith;
        same_role = ground arith;
        audience = ground arith;
        federated = ground arith;
        alive = ground arith;
        begun = ground arith;
        known_role = ground arith;
        expert_only = λ x. ground arith;
      }

  validate-made :
      (identity : NodeIdentity) (claim : Claim) (target federation : String) (current : ℕ)
      → IsKeyPair L identity
      → C.decode (C.encode (signed_ticket L C identity claim))
        ≡ some (signed_ticket L C identity claim)
      → validate_ticket L C
          (make_ticket L C identity claim)
          identity.public_key
          target
          federation
          current
        ≡ check_claim L C claim target federation current
  unfolding validate_ticket read_ticket make_ticket
  validate-made identity claim target federation current pair codec =
      ground (arith, codec, verify_payload-sign L identity (Payload.claim claim) pair)

  check-made :
      (identity : NodeIdentity) (target federation username role ticket_id : String) (expert : Bool)
      (now current : ℕ)
      → check_claim L C
          (make_claim L C identity target federation username role expert now ticket_id)
          target
          federation
          current
        ≡ (if ltb (now + 60) current
            then err (value_error "SSO ticket expired")
            else if ltb (current + 30) now
            then err (value_error "SSO ticket clock is invalid")
            else ok (granted identity target federation username role ticket_id expert now))
  unfolding check_claim make_claim
  check-made identity target federation username role ticket_id expert now current =
      ground (arith, readonly_ne_admin)

  -- A ticket that this server issues is validated by the node and the federation that it is for,
  -- under the issuer's key, up to and including 60 seconds after its issue, if the issuer's clock is
  -- at most 30 seconds ahead. The claim has the user's name, up to 128 characters, and the user's
  -- role, where every unknown role is read-only; the expert flag is kept for an administrator alone.
  -- The ticket's encoding is assumed to be read back.
  pub validate-issue :
      (identity : NodeIdentity) (target federation username role ticket_id : String) (expert : Bool)
      (now current : ℕ) (pending : Dict Pending) {ticket : String}
      → IsKeyPair L identity
      → let value =
          signed_ticket L C identity
            (make_claim L C identity target federation username role expert now ticket_id) in
        C.decode (C.encode value) ≡ some value
        → reply
            (issue_ticket L C identity target federation username role expert now ticket_id)
            pending
          ≡ ok ticket
        → validate_ticket L C ticket identity.public_key target federation current ≡ (
            if ltb (now + 60) current
            then err (value_error "SSO ticket expired")
            else if ltb (current + 30) now
            then err (value_error "SSO ticket clock is invalid")
            else ok (granted identity target federation username role ticket_id expert now))
  unfolding issue_ticket make_claim
  validate-issue identity target federation username role ticket_id expert now current pending
        {ticket} pair codec issued =
      let claim = make_claim L C identity target federation username role expert now ticket_id in
      let made : ticket ≡ make_ticket L C identity claim = ground arith in
      rw made (
        validate-made identity claim target federation current pair codec
        ∙ check-made identity target federation username role ticket_id expert now current)
