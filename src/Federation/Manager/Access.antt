-- ===== src/Federation/Manager/Access.antt =====
-- What a revoked node can no longer do on a server that knows of the revocation.
use runvard.Base.{
  ℕ, String, ◌≡◌, Bool, true, Option, List, value_error, Error, Result, ok, err, arith,
  if◌then◌else◌, Option-cases, inl, inr,
}
use runvard.Base.Dict
use runvard.Federation.Types.{Node, Payload, Claim}
use runvard.Federation.Membership.Stability.{revoked_at_key}
use runvard.Federation.Protocol.{Headers}
use runvard.Federation.Sso.{ticket_claim}
use runvard.Federation.Manager.{Env, Manager, State, is_ready, require_enabled}
use runvard.Federation.Manager.Calls.{Call, perform_all}
use runvard.Federation.Manager.Lasting.{perform_all-IsLasting}
use runvard.Federation.Manager.Peers.{find_active, authenticate_peer, start_sso, accept_sso}

find_active-revoked :
    (k : String) (refused : Result Node) (s : State)
    → revoked_at_key k s.membership ≡ true
    → find_active k refused s ≡ refused
unfolding find_active
find_active-revoked k refused s h = elim (Option-cases (Dict.get k s.nodes)) [
  | inl e ↦ ground arith
  | inr (a, e) ↦ ground arith
]

-- The refusal of a guarded operation, which is about the federation first.
abbrev pub refusal : String → Manager → Error
refusal message m =
    if is_ready m.state then value_error message else value_error "federation is disabled"

module _ (env : Env) (m : Manager) where
  refuse_peer :
      (headers : Headers) (method path : String) (body : Option Payload) (now : ℕ)
      → revoked_at_key headers.node m.membership ≡ true
      → authenticate_peer env headers method path body now m
        ≡ (err (refusal "unknown or revoked peer" m), m)
  unfolding authenticate_peer require_enabled
  refuse_peer headers method path body now h = ground (
    arith,
    find_active-revoked headers.node (err (value_error "unknown or revoked peer")) m.state h,
  )

  refuse_target :
      (node_id username role : String) (expert : Bool) (now : ℕ) (ticket_id : String)
      → revoked_at_key node_id m.membership ≡ true
      → start_sso env node_id username role expert now ticket_id m
        ≡ (err (refusal "unknown target node" m), m)
  unfolding start_sso require_enabled
  refuse_target node_id username role expert now ticket_id h =
      ground
        (arith, find_active-revoked node_id (err (value_error "unknown target node")) m.state h)

  refuse_issuer :
      (ticket : String) (now : ℕ) (redeemed : Result (Unit {0})) (claim : Claim)
      → ticket_claim env.library env.codec ticket ≡ ok claim
      → revoked_at_key claim.issuer m.membership ≡ true
      → accept_sso env ticket now redeemed m ≡ (err (refusal "unknown SSO issuer" m), m)
  unfolding accept_sso require_enabled
  refuse_issuer ticket now redeemed claim e h =
      ground
        (arith, find_active-revoked claim.issuer (err (value_error "unknown SSO issuer")) m.state h)

-- What a server refuses to do for the node `k`.
pub record IsShut (env : Env) (k : String) (m : Manager) : Type 0 where
  pub peer :
      (headers : Headers) (method path : String) (body : Option Payload) (now : ℕ)
      → headers.node ≡ k
      → authenticate_peer env headers method path body now m
        ≡ (err (refusal "unknown or revoked peer" m), m)
  pub target :
      (username role : String) (expert : Bool) (now : ℕ) (ticket_id : String)
      → start_sso env k username role expert now ticket_id m
        ≡ (err (refusal "unknown target node" m), m)
  pub issuer :
      (ticket : String) (now : ℕ) (redeemed : Result (Unit {0})) (claim : Claim)
      → ticket_claim env.library env.codec ticket ≡ ok claim
      → claim.issuer ≡ k
      → accept_sso env ticket now redeemed m ≡ (err (refusal "unknown SSO issuer" m), m)

-- Once a node is revoked it stays shut out: after any operations of the server, no request of the node is
-- let in, no sign-in is started towards it, and no ticket that names it as its issuer is accepted.
-- The refusals change nothing of the server.
pub perform_all-IsShut :
    (env : Env) (k : String) (cs : List (Call env)) (m : Manager)
    → revoked_at_key k m.membership ≡ true
    → IsShut env k (perform_all env cs m)
perform_all-IsShut env k cs m h =
    let m' = perform_all env cs m in
    let revoked = (perform_all-IsLasting env k cs m).revocations h in
    record {
      peer = λ headers method path body now same.
          refuse_peer env m' headers method path body now (rw same revoked);
      target = λ username role expert now ticket_id.
          refuse_target env m' k username role expert now ticket_id revoked;
      issuer = λ ticket now redeemed claim e same.
          refuse_issuer env m' ticket now redeemed claim e (rw same revoked);
    }
