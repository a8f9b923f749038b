-- ===== src/Federation/Manager/Pair.antt =====
-- Pairing in modules/federation/service.py: the code of the existing server and of the joining one.
use runvard.Base.{
  ℕ, ◌<>◌, String, true, Option, some, List, [], ◌∷◌, not, ◌||◌, ◌&&◌, leb, ◌==◌, opt_eq, or_empty,
  or_zero, is_some, if◌then◌else◌, value_error, Result, ok, err, length, keep, Action, pure,
  raise_if, modify, gets, lift, continue, ◌>>=◌, ◌>>◌,
}
use runvard.Base.Dict
use runvard.Base.Dict.{Dict, values}
use runvard.Federation.Types.{Node, Event, Payload, PairProof, PairResponse}
use runvard.Federation.Crypto.{
  sign_payload, verify_payload, public_key_fingerprint, node_id_from_public_key,
}
use runvard.Federation.Membership.{apply_event, node_joined}
use runvard.Federation.Pairing.{issue, consume}
use runvard.Federation.Urls.{validate_internal_url, validate_browser_url}
use runvard.Federation.Manager.{
  Env, Manager, State, max_nodes, change, save, on_membership, on_pairing, require_enabled,
  set_cidrs, set_settings, metadata, announce,
}

-- What a joining server sends, its fingerprint without the blanks around it.
pub record PairRequest : Type 0 where
  pub code : Option String
  pub fingerprint : String
  pub node : Node
  pub proof : String

-- What the existing server answers, with its signature.
pub record Signed : Type 0 where
  pub response : PairResponse
  pub signature : String

-- What the joining server gets: a redirect, a refusal with its reason, or a response.
pub data Answer : Type 0 where
  redirect : Answer
  refusal : String → Answer
  response : Signed → Answer

-- `sorted(events, key=lambda row: row.get("created_at", 0))`, which keeps the order of equal times
abbrev pub created : Event → ℕ
created e = or_zero e.created_at

unfoldable pub insert_event : Event → List Event → List Event
insert_event e [] = e ∷ []
insert_event e (d ∷ ds) = if leb (created e) (created d) then e ∷ d ∷ ds else d ∷ insert_event e ds

unfoldable pub sort_events : List Event → List Event
sort_events [] = []
sort_events (e ∷ es) = insert_event e (sort_events es)

abbrev pub active_nodes : State → List Node
active_nodes s = keep (λ node. not node.revoked) (values s.nodes)

module _ (env : Env) where
  -- `_digest`
  abbrev pub digest : String → String
  digest code = env.library.sha256_hex code

  unfoldable pub issue_pairing_code : ℕ → String → Action Manager String
  issue_pairing_code now random = do
    require_enabled
    code ← on_pairing (issue digest now random)
    save
    pure code

  abbrev pub proof_of : PairRequest → Payload
  proof_of q =
      Payload.proof
        (record { code = q.code; expected_responder_fingerprint = q.fingerprint; node = q.node })

  unfoldable pub pairing_payload :
      (code name internal_url browser_url fingerprint : String) → State → PairRequest
  pairing_payload code name internal_url browser_url fingerprint s =
      let node = metadata env (some name) (some internal_url) (some browser_url) s.settings in
      let proof : PairProof = record {
        code = some code;
        expected_responder_fingerprint = fingerprint;
        node = node;
      } in
      record {
        code = some code;
        fingerprint = fingerprint;
        node = node;
        proof = sign_payload env.library env.identity (Payload.proof proof);
      }

  -- The tests of `accept_pair` before the code is consumed.
  unfoldable pub check_pair : PairRequest → State → Result (Unit {0})
  check_pair q s =
      elim (verify_payload env.library (or_empty q.node.public_key) (proof_of q) q.proof) [
        | err e ↦ err e
        | ok _ ↦
            if q.fingerprint == ""
              || not (q.fingerprint == public_key_fingerprint env.library env.identity.public_key)
            then err (value_error "existing server fingerprint does not match")
            else if leb max_nodes (length (active_nodes s))
            then err (value_error "federation node limit reached")
            else if not (
                opt_eq q.node.node_id
                  (some (node_id_from_public_key env.library (or_empty q.node.public_key))))
            then err (value_error "joining node ID does not match its public key")
            else elim (validate_internal_url env.urls q.node.info.internal_url
                s.settings.allowed_cidrs) [
                  | err e ↦ err e
                  | ok _ ↦ elim (validate_browser_url env.urls q.node.info.browser_url) [
                    | err e ↦ err e
                    | ok _ ↦ ok tt
                  ]
                ]
      ]

  unfoldable pub pair_response : State → Signed
  pair_response s =
      let response : PairResponse = record {
        federation_id = s.federation_id;
        events = values s.events;
        responder = env.identity.node_id;
        responder_public_key = env.identity.public_key;
      } in
      record {
        response = response;
        signature = sign_payload env.library env.identity (Payload.response response);
      }

  -- `now` is read by `consume`, `later` by `create_event`.
  unfoldable pub accept_pair :
      PairRequest → (remote : String) (now later : ℕ) → String → Action Manager Signed
  accept_pair q remote now later nonce = do
    require_enabled
    state ← gets (λ m. m.state)
    lift (check_pair q state)
    _ ← on_pairing (consume digest (or_empty q.code) remote now)
    _ ← announce env node_joined q.node later nonce
    answer ← gets (λ m. pair_response m.state)
    save
    pure answer

  -- The first part of `join`, up to the request to the peer: its URL and what is sent to it.
  unfoldable pub join_request :
      (peer_url code name internal_url browser_url : String)
      → Option (List String)
      → (fingerprint : String) → Action Manager (String × PairRequest)
  join_request peer_url code name internal_url browser_url cidrs fingerprint = do
    member ← gets (λ m. m.enabled && not (m.federation_id == ""))
    raise_if member (value_error "this node already belongs to a federation")
    set_cidrs cidrs
    allowed ← gets (λ m. m.settings.allowed_cidrs)
    peer ← lift (validate_internal_url env.urls peer_url allowed)
    internal ← lift (validate_internal_url env.urls internal_url allowed)
    browser ← lift (validate_browser_url env.urls browser_url)
    raise_if (fingerprint == "") (value_error "existing server fingerprint is required")
    state ← gets (λ m. m.state)
    pure (peer, pairing_payload code name internal browser fingerprint state)

  unfoldable pub check_answer : (fingerprint : String) → Answer → Result PairResponse
  check_answer fingerprint redirect = err (value_error "peer redirects are not allowed")
  check_answer fingerprint (refusal detail) =
      err (value_error ("existing server rejected pairing: " <> detail))
  check_answer fingerprint (response r) =
      let key = r.response.responder_public_key in
      if not (fingerprint == public_key_fingerprint env.library key)
      then err (value_error "existing server fingerprint does not match")
      else elim (verify_payload env.library key (Payload.response r.response) r.signature) [
        | err e ↦ err e
        | ok _ ↦ ok r.response
      ]

  -- `for event in events: apply_event(self.state, event)`, where the first raise ends the loop
  unfoldable pub apply_all : List Event → Action Manager (Unit {0})
  apply_all [] m = (ok tt, m)
  apply_all (e ∷ es) m =
      continue (on_membership (apply_event env.library e) m).0 (λ _. apply_all es)
        (on_membership (apply_event env.library e) m).1

  -- The second part of `join`, with the peer's answer and the URLs that the first part validated.
  unfoldable pub join_finish :
      (name internal_url browser_url fingerprint : String) → Answer → Action Manager (Unit {0})
  join_finish name internal_url browser_url fingerprint answer = do
    result ← lift (check_answer fingerprint answer)
    modify (
        change (λ s. record s {
          enabled = true;
          membership = record s.membership { federation_id = result.federation_id };
        }))
    set_settings name internal_url browser_url
    apply_all (sort_events result.events)
    absent ← gets (λ m. not (is_some (Dict.get env.identity.node_id m.nodes)))
    raise_if absent (value_error "pairing response omitted joining node")
    save
