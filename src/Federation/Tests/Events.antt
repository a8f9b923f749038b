-- ===== src/Federation/Tests/Events.antt =====
-- The theorems on events at concrete data.
use runvard.Base.{◌≡◌, refl, true, ok, reply, after, string_dec}
use runvard.Base.Dict
use runvard.Federation.Crypto.{verify_payload}
use runvard.Federation.Membership.{
  event_digest, issuer_key, authenticate, join_node, place, finish, admit, apply_event,
}
use runvard.Federation.Membership.Stability.{IsKept, apply_event-IsKept}
use runvard.Federation.Membership.Effect.{IsAccepted, apply_event-IsAccepted}
use runvard.Federation.Tests.{library, two, joins}

accepted : reply (apply_event library (joins "kc")) two ≡ ok true
unfolding apply_event admit authenticate issuer_key verify_payload event_digest place join_node
    finish Dict.get Dict.insert string_dec
accepted = refl

apply_event-IsKept_example : IsKept "kb" "kc" two (after (apply_event library (joins "kc")) two)
apply_event-IsKept_example = apply_event-IsKept library (joins "kc") two "kb"

apply_event-IsAccepted_example :
    IsAccepted library (joins "kc") two (after (apply_event library (joins "kc")) two)
apply_event-IsAccepted_example = apply_event-IsAccepted library (joins "kc") two accepted
