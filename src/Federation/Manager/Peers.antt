-- ===== src/Federation/Manager/Peers.antt =====
-- Requests of peers, polls and sign-in in modules/federation/service.py.
use runvard.Base.{
  ℕ, ◌+◌, String, Bool, false, Option, none, some, List, [], ◌∷◌, ◌||◌, leb, ◌==◌, or_empty,
  or_zero, if◌then◌else◌, value_error, Result, ok, err, Action, pure, after, modify, gets, lift,
  ◌>>=◌, ◌>>◌,
}
use runvard.Base.Dict
use runvard.Base.Dict.{Dict, values}
use runvard.Federation.Types.{Node, Event, Payload, Claim}
use runvard.Federation.Membership.{apply_event}
use runvard.Federation.Protocol.{Headers, verify_request}
use runvard.Federation.Sso.{issue_ticket, ticket_claim, validate_ticket, redeem_ticket}
use runvard.Federation.Manager.{
  Env, Manager, State, PeerStatus, change, save, on_membership, on_tickets, on_nonces,
  require_enabled,
}
use runvard.Federation.Manager.Pair.{sort_events}

-- `not node or node.get("revoked")`
unfoldable pub find_active : String → Result Node → State → Result Node
find_active node_id refused s = elim (Dict.get node_id s.nodes) [
  | none ↦ refused
  | some node ↦ if node.revoked then refused else ok node
]

module _ (env : Env) where
  unfoldable pub authenticate_peer :
      Headers → (method path : String) → Option Payload → ℕ → Action Manager String
  authenticate_peer headers method path body now = do
    require_enabled
    state ← gets (λ m. m.state)
    node ← lift (find_active headers.node (err (value_error "unknown or revoked peer")) state)
    sender ← on_nonces (
        verify_request env.library headers (or_empty node.public_key) env.identity.node_id method
          path body now)
    save
    pure sender

  -- `for event in events: try: apply_event(...) except ValueError: continue`
  unfoldable pub apply_tolerant : List Event → Manager → Manager
  apply_tolerant [] m = m
  apply_tolerant (e ∷ es) m =
      apply_tolerant es (after (on_membership (apply_event env.library e)) m)

  -- The reply is the list of all events; the status snapshot beside it is left out.
  unfoldable pub accept_sync : List Event → Action Manager (List Event)
  accept_sync events = do
    modify (apply_tolerant (sort_events events))
    save
    gets (λ m. values m.events)

  -- What a poll of a peer gave: its events, whether its API version is 1, and its status; or nothing.
  abbrev pub Poll : Type 0
  Poll = Option (List Event × Bool × String)

  abbrev set_peer : String → PeerStatus → State → State
  set_peer node_id status s = record s { peer_status = Dict.insert node_id status s.peer_status }

  abbrev pub failures_of : Option PeerStatus → ℕ
  failures_of none = 0
  failures_of (some p) = p.failures

  abbrev pub last_success_of : Option PeerStatus → Option ℕ
  last_success_of none = none
  last_success_of (some p) = p.last_success

  abbrev pub snapshot_of : Option PeerStatus → Option String
  snapshot_of none = none
  snapshot_of (some p) = p.snapshot

  unfoldable pub failed_status : ℕ → Option PeerStatus → PeerStatus
  failed_status now entry =
      let failures = failures_of entry + 1 in
      record {
        health =
            if leb 3 failures || leb (or_zero (last_success_of entry) + 45) now
            then "offline"
            else "degraded";
        last_success = last_success_of entry;
        last_attempt = now;
        failures = failures;
        snapshot = snapshot_of entry;
      }

  unfoldable pub poll_one : String → ℕ → Poll → Manager → Manager
  poll_one node_id now none m =
      let status = failed_status now (Dict.get node_id m.peer_status) in
      after save (change (set_peer node_id status) m)
  poll_one node_id now (some (events, compatible, snapshot)) m =
      let m' = apply_tolerant (sort_events events) m in
      let status : PeerStatus = record {
        health = if compatible then "online" else "incompatible";
        last_success = some now;
        last_attempt = now;
        failures = 0;
        snapshot = some snapshot;
      } in
      after save (change (set_peer node_id status) m')

  abbrev pub is_unavailable : Option PeerStatus → Bool
  is_unavailable none = false
  is_unavailable (some p) = p.health == "offline" || p.health == "incompatible"

  unfoldable pub start_sso :
      (node_id username role : String) → Bool → ℕ → String → Action Manager (String × String)
  start_sso node_id username role expert now ticket_id = do
    require_enabled
    state ← gets (λ m. m.state)
    node ← lift (find_active node_id (err (value_error "unknown target node")) state)
    lift (
        if is_unavailable (Dict.get node_id state.peer_status)
        then err (value_error "target node is not available")
        else ok tt)
    ticket ← on_tickets (
        issue_ticket env.library env.codec env.identity node_id state.federation_id username role
          expert now ticket_id)
    save
    pure (node.info.browser_url, ticket)

  -- `redeemed` is what the issuer answers to the request to redeem the ticket.
  unfoldable pub accept_sso : String → ℕ → (redeemed : Result (Unit {0})) → Action Manager Claim
  accept_sso ticket now redeemed = do
    untrusted ← lift (ticket_claim env.library env.codec ticket)
    require_enabled
    state ← gets (λ m. m.state)
    issuer ← lift (find_active untrusted.issuer (err (value_error "unknown SSO issuer")) state)
    claim ← lift (
        validate_ticket env.library env.codec ticket (or_empty issuer.public_key)
          env.identity.node_id state.federation_id now)
    lift redeemed
    pure claim

  unfoldable pub redeem_sso : String → ℕ → Action Manager (Unit {0})
  redeem_sso ticket now = do _ ← on_tickets (redeem_ticket env.library env.codec ticket now); save
