-- ===== src/Federation/Membership.antt =====
-- modules/federation/membership.py: signed events and the membership that they build.
pub mod Stability
pub mod Authority
pub mod Effect
use Prim.Native.Nat.{max}
use runvard.Base.{
  ℕ, String, Bool, true, false, Option, none, some, [], ◌∷◌, List, not, ◌&&◌, ltb, ◌==◌, contains,
  opt_eq, is_blank, is_some, or_empty, or_zero, if◌then◌else◌, value_error, Result, ok, err, Action,
  pure, raise, continue, raise_if, modify, ◌>>=◌, ◌>>◌,
}
use runvard.Base.Dict
use runvard.Base.Dict.{Dict}
use runvard.Federation.Types.{Node, Unsigned, Event, Membership, Payload}
use runvard.Federation.Crypto.{Library, NodeIdentity, canonical_json, sign_payload, verify_payload}

abbrev pub node_joined : String
node_joined = "node_joined"

abbrev pub node_updated : String
node_updated = "node_updated"

abbrev pub node_revoked : String
node_revoked = "node_revoked"

abbrev pub event_kinds : List String
event_kinds = node_joined ∷ node_updated ∷ node_revoked ∷ []

abbrev pub empty_membership : String → Membership
empty_membership federation_id = record { federation_id = federation_id; nodes = []; events = [] }

abbrev pub is_empty {ℓ} : {V : Type ℓ} → Dict V → Bool
is_empty [] = true
is_empty (x ∷ d) = false

-- `current and current.get("revoked")`
abbrev pub is_revoked : Option Node → Bool
is_revoked none = false
is_revoked (some node) = node.revoked

-- `current and current.get("public_key") != key`
abbrev pub key_differs : Option Node → Option String → Bool
key_differs none key = false
key_differs (some node) key = not (opt_eq node.public_key key)

-- The key under which an event must be signed (`_issuer_key`).
own_key : Membership → Event → Option Node → Result String
own_key state e (some node) =
    if node.revoked
    then err (value_error "event issuer is revoked")
    else ok (or_empty node.public_key)
own_key state e none =
    if e.kind == node_joined && opt_eq (some e.issuer) e.subject.node_id && is_empty state.nodes
    then ok (or_empty e.subject.public_key)
    else err (value_error "unknown event issuer")

unfoldable pub issuer_key : Membership → Event → Result String
unfolding own_key
issuer_key state e = own_key state e (Dict.get e.issuer state.nodes)

-- `subject["revoked"] = False; subject["_updated_at"] = created_at`
abbrev pub stamp : ℕ → Node → Node
stamp created_at subject = record subject { revoked = false; updated_at = some created_at }

-- `current["revoked"] = True; current["_revoked_at"] = max(...)`
abbrev pub revoke : ℕ → Node → Node
revoke created_at node = record node {
  revoked = true;
  revoked_at = some (max created_at (or_zero node.revoked_at));
}

unfoldable pub put_node : String → Node → Membership → Membership
put_node node_id node state = record state { nodes = Dict.insert node_id node state.nodes }

-- The three branches of `apply_event`. They tell whether the event is to be recorded.
unfoldable pub join_node : ℕ → String → Node → Option Node → Action Membership Bool
unfolding put_node
join_node created_at node_id subject current = do
  raise_if (is_revoked current) (value_error "node is revoked")
  raise_if (is_blank subject.public_key) (value_error "missing subject public key")
  raise_if (key_differs current subject.public_key) (value_error "node key mismatch")
  modify (put_node node_id (stamp created_at subject))
  pure true

unfoldable pub update_node : ℕ → String → Node → String → Option Node → Action Membership Bool
unfolding put_node
update_node created_at node_id subject issuer none = do
  raise_if (not (issuer == node_id)) (value_error "nodes may only update their own metadata")
  raise (value_error "unknown node")
update_node created_at node_id subject issuer (some node) = do
  raise_if (not (issuer == node_id)) (value_error "nodes may only update their own metadata")
  raise_if node.revoked (value_error "node is revoked")
  raise_if (not (opt_eq subject.public_key node.public_key)) (value_error "node key mismatch")
  if ltb created_at (or_zero node.updated_at)
      then pure false
      else do modify (put_node node_id (stamp created_at subject)); pure true

unfoldable pub revoke_node : ℕ → String → Option Node → Action Membership Bool
unfolding put_node
revoke_node created_at node_id none = raise (value_error "unknown node")
revoke_node created_at node_id (some node) = do
  modify (put_node node_id (revoke created_at node))
  pure true

-- The subject's node id, and the branch for the event's kind.
unfoldable pub place : Event → Action Membership Bool
place e s =
    let node_id = or_empty e.subject.node_id in
    let created_at = or_zero e.created_at in
    let current = Dict.get node_id s.nodes in
    if node_id == ""
    then (err (value_error "missing subject node id"), s)
    else if e.kind == node_joined
    then join_node created_at node_id e.subject current s
    else if e.kind == node_updated
    then update_node created_at node_id e.subject e.issuer current s
    else revoke_node created_at node_id current s

-- `state["events"][event_id] = event`
unfoldable pub record_event : Event → Membership → Membership
record_event e state = record state { events = Dict.insert e.event_id e state.events }

module _ (L : Library) where
  unfoldable pub event_digest : Unsigned → Option String → String
  event_digest unsigned signature =
      L.sha256_hex (canonical_json L (Payload.signed_event unsigned signature))

  -- `now` is the clock and `nonce` the random token.
  unfoldable pub create_event :
      NodeIdentity
      → (federation_id kind : String) → Node
      → (now : ℕ) (nonce : String) → Result Event
  unfolding event_digest
  create_event identity federation_id kind subject now nonce =
      let unsigned : Unsigned = record {
        federation_id = some federation_id;
        kind = kind;
        issuer = identity.node_id;
        subject = subject;
        created_at = some now;
        nonce = nonce;
      } in
      let signature = sign_payload L identity (Payload.event unsigned) in
      if contains event_kinds kind
      then ok (record {
        unsigned = unsigned;
        signature = some signature;
        event_id = event_digest unsigned (some signature);
      })
      else err (value_error "unsupported event kind")

  -- The signature under the issuer's key, and the event's id.
  unfoldable pub authenticate : Membership → Event → Result (Unit {0})
  authenticate state e = elim (issuer_key state e) [
    | err x ↦ err x
    | ok key ↦ elim (verify_payload L key (Payload.event e.unsigned) (or_empty e.signature)) [
      | err x ↦ err x
      | ok _ ↦
          if e.event_id == event_digest e.unsigned e.signature
          then ok tt
          else err (value_error "invalid event id")
    ]
  ]

  unfoldable pub finish : Event → Bool → Action Membership Bool
  unfolding record_event
  finish e placed = if placed then (do modify (record_event e); pure true) else pure false

  unfoldable pub admit : Event → Action Membership Bool
  admit e s = continue (authenticate s e) (λ _. do placed ← place e; finish e placed) s

  -- True: the event was new and is recorded. False: it was known, or is older than the node.
  unfoldable pub apply_event : Event → Action Membership Bool
  apply_event e s =
      if not (opt_eq e.federation_id (some s.federation_id))
      then (err (value_error "event belongs to another federation"), s)
      else if not (contains event_kinds e.kind)
      then (err (value_error "unsupported event kind"), s)
      else if is_some (Dict.get e.event_id s.events)
      then (ok false, s)
      else admit e s
