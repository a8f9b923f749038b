-- ===== src/Federation/Tests/SignIn.antt =====
-- The theorems on sign-in tickets at concrete data. The codec knows one ticket.
use runvard.Base.{
  ◌≡◌, ◌≢◌, refl, true, false, none, some, [], ◌∷◌, ok, reply, after, string_dec, if◌then◌else◌,
  ◌==◌,
}
use runvard.Base.Dict
use runvard.Base.Dict.{Dict}
use runvard.Federation.Types.{Claim}
use runvard.Federation.Crypto.{verify_payload}
use runvard.Federation.Sso.{
  Codec, Pending, read_ticket, check_claim, validate_ticket, redeem_entry, redeem_ticket,
}
use runvard.Federation.Sso.Grant.{IsGranted, validate_ticket-IsGranted}
use runvard.Federation.Sso.Redeem.{after_attempts, redeem_once}
use runvard.Federation.Tests.{library}

abbrev claim : Claim
claim = record {
  audience = "kb";
  expires_at = 160;
  expert = true;
  federation_id = "f";
  issued_at = 100;
  issuer = "ka";
  role = "admin";
  ticket_id = "t1";
  username = "root";
}

abbrev codec : Codec
codec = record {
  encode = λ t. t.claim.ticket_id;
  decode = λ text.
      if text == "t1" then some (record { claim = claim; signature = "kaclaimt1" }) else none;
}

abbrev pending : Dict Pending
pending = ("t1", record { expires_at = 160; hash = "t1"; redeemed = false }) ∷ []

validated : validate_ticket library codec "t1" "ka" "kb" "f" 150 ≡ ok claim
unfolding validate_ticket read_ticket verify_payload check_claim string_dec
validated = refl

validate_ticket-IsGranted_example : IsGranted library codec "t1" "ka" "kb" "f" 150 claim
validate_ticket-IsGranted_example =
    validate_ticket-IsGranted library codec "t1" "ka" "kb" "f" 150 claim validated

redeemed : reply (redeem_ticket library codec "t1" 150) pending ≡ ok true
unfolding redeem_ticket redeem_entry read_ticket Dict.get string_dec
redeemed = refl

redeem_once_example :
    reply (redeem_ticket library codec "t1" 152) (
      after_attempts library codec
        (("t2", 151) ∷ [])
        (after (redeem_ticket library codec "t1" 150) pending))
    ≢ ok true
redeem_once_example = redeem_once library codec "t1" 150 152 (("t2", 151) ∷ []) pending redeemed
