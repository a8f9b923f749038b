-- ===== src/Federation/Membership/Effect.antt =====
-- What an accepted event has met and what it leaves behind; a repeated event changes nothing.
use mathlib.Core.Option
use runvard.Base.{
  ℕ, String, ◌≡◌, ◌≢◌, refl, true, false, Option, none, some, ◌==◌, arith, ◌||◌, ok, reply, after,
  or_empty, or_zero, opt_eq→≡, contains, if◌then◌else◌, string_dec, ne_of_test,
}
use runvard.Base.Dict
use runvard.Federation.Types.{Node, Event, Membership}
use runvard.Federation.Crypto.{Library}
use runvard.Federation.Membership.{
  node_joined, node_updated, event_kinds, stamp, revoke, join_node, update_node, revoke_node,
  put_node, place, finish, record_event, authenticate, admit, apply_event,
}
use runvard.Federation.Membership.Authority.{IsAuthentic, authenticate-IsAuthentic}

joined_ne_updated : node_joined ≢ node_updated
unfolding string_dec
joined_ne_updated = ne_of_test node_joined node_updated refl

-- A branch touches the nodes only.
record IsFramed (s t : Membership) : Type 0 where
  same_federation : t.federation_id ≡ s.federation_id
  same_events : t.events ≡ s.events

module _ (s : Membership) (c : ℕ) (id : String) where
  join_node-IsFramed :
      (subject : Node) (current : Option Node)
      → IsFramed s (after (join_node c id subject current) s)
  unfolding join_node put_node
  join_node-IsFramed subject current = ground arith

  update_node-IsFramed :
      (subject : Node) (issuer : String) (current : Option Node)
      → IsFramed s (after (update_node c id subject issuer current) s)
  unfolding update_node put_node
  update_node-IsFramed subject issuer none = ground arith
  update_node-IsFramed subject issuer (some b) = ground arith

  revoke_node-IsFramed : (current : Option Node) → IsFramed s (after (revoke_node c id current) s)
  unfolding revoke_node put_node
  revoke_node-IsFramed none = ground arith
  revoke_node-IsFramed (some b) = ground arith

module _ (s : Membership) (c : ℕ) (id : String) (subject : Node) where
  join_node-true :
      (current : Option Node)
      → reply (join_node c id subject current) s ≡ ok true
      → Dict.get id (after (join_node c id subject current) s).nodes ≡ some (stamp c subject)
  unfolding join_node put_node
  join_node-true current h = ground (arith, Dict.get-insert id id (stamp c subject) s.nodes)

  -- A node is updated by itself, with the key that it has, and never by an older event.
  update_node-true :
      (issuer : String) (current : Option Node)
      → reply (update_node c id subject issuer current) s ≡ ok true
      → (Dict.get id (after (update_node c id subject issuer current) s).nodes
          ≡ some (stamp c subject))
        × (issuer ≡ id)
  unfolding update_node put_node
  update_node-true issuer none h = absurd (ground arith)
  update_node-true issuer (some b) h =
      (ground (arith, Dict.get-insert id id (stamp c subject) s.nodes), ground arith)

  revoke_node-true :
      (current : Option Node)
      → reply (revoke_node c id current) s ≡ ok true
      → Dict.get id (after (revoke_node c id current) s).nodes ≡ Option.map (revoke c) current
  unfolding revoke_node put_node
  revoke_node-true none h = absurd (ground arith)
  revoke_node-true (some b) h = ground (arith, Dict.get-insert id id (revoke c b) s.nodes)

module _ (e : Event) (s : Membership) where
  abbrev id : String
  id = or_empty e.subject.node_id

  abbrev created : ℕ
  created = or_zero e.created_at

  place-IsFramed : IsFramed s (after (place e) s)
  unfolding place
  place-IsFramed =
      let current = Dict.get id s.nodes in
      ground (
        arith,
        join_node-IsFramed s created id e.subject current,
        update_node-IsFramed s created id e.subject e.issuer current,
        revoke_node-IsFramed s created id current,
      )

  -- What the subject's node is after an accepted event.
  abbrev pub placed_node : Option Node
  placed_node =
      if e.kind == node_joined || e.kind == node_updated
      then some (stamp created e.subject)
      else Option.map (revoke created) (Dict.get id s.nodes)

  place-node : reply (place e) s ≡ ok true → Dict.get id (after (place e) s).nodes ≡ placed_node
  unfolding place
  place-node h =
      let current = Dict.get id s.nodes in
      ground (
        arith,
        join_node-true s created id e.subject current,
        update_node-true s created id e.subject e.issuer current,
        revoke_node-true s created id e.subject current,
      )

  place-own : reply (place e) s ≡ ok true → e.kind ≡ node_updated → e.issuer ≡ id
  unfolding place
  place-own h k = ground (
    arith,
    update_node-true s created id e.subject e.issuer (Dict.get id s.nodes),
    joined_ne_updated,
  )

-- What an accepted event has shown, and the state `t` that it leaves.
pub record IsAccepted (L : Library) (e : Event) (s t : Membership) : Type 0 where
  pub authentic : IsAuthentic L s e
  pub federation : e.federation_id ≡ some s.federation_id
  pub fresh : Dict.get e.event_id s.events ≡ none
  pub own_update : e.kind ≡ node_updated → e.issuer ≡ or_empty e.subject.node_id
  pub recorded : Dict.get e.event_id t.events ≡ some e
  pub node : Dict.get (or_empty e.subject.node_id) t.nodes ≡ placed_node e s

module _ (L : Library) (e : Event) (s : Membership) where
  admit-true :
      reply (admit L e) s ≡ ok true
      → (authenticate L s e ≡ ok tt)
        × (reply (place e) s ≡ ok true)
        × (after (admit L e) s ≡ record_event e (after (place e) s))
  unfolding admit finish
  admit-true h = ground arith

  apply_event-true :
      reply (apply_event L e) s ≡ ok true
      → (e.federation_id ≡ some s.federation_id)
        × (contains event_kinds e.kind ≡ true)
        × (Dict.get e.event_id s.events ≡ none)
        × (reply (admit L e) s ≡ ok true)
        × (after (apply_event L e) s ≡ after (admit L e) s)
  unfolding apply_event
  apply_event-true h = ground (arith, opt_eq→≡ e.federation_id (some s.federation_id))

  -- An event that is accepted was signed, under its id, by a node that is not revoked with that
  -- node's key, or by the founder of an empty federation with its own; it belongs to the
  -- federation and was not known; and an update comes from its own subject. Then it is recorded, and
  -- its subject's node is the subject, or the old node marked as revoked.
  pub apply_event-IsAccepted :
      reply (apply_event L e) s ≡ ok true → IsAccepted L e s (after (apply_event L e) s)
  unfolding record_event
  apply_event-IsAccepted h =
      let (fed, kind, fresh, admitted, left) = apply_event-true h in
      let (auth, placed, shape) = admit-true admitted in
      record {
        authentic = authenticate-IsAuthentic L s e auth;
        federation = fed;
        fresh = fresh;
        own_update = place-own e s placed;
        recorded = rw (left, shape, Dict.get-insert) (ground arith);
        node = rw (left, shape) (place-node e s placed);
      }

  apply_event-known :
      (t : Membership)
      → e.federation_id ≡ some t.federation_id
      → contains event_kinds e.kind ≡ true
      → Dict.get e.event_id t.events ≡ some e
      → apply_event L e t ≡ (ok false, t)
  unfolding apply_event
  apply_event-known t fed kind known = rw (fed, kind, known) (ground arith)

  -- An event that was accepted is known afterwards: applied again it is not accepted a second time,
  -- raises nothing and changes nothing.
  pub apply_event_again :
      reply (apply_event L e) s ≡ ok true
      → apply_event L e (after (apply_event L e) s) ≡ (ok false, after (apply_event L e) s)
  unfolding record_event
  apply_event_again h =
      let (fed, kind, fresh, admitted, left) = apply_event-true h in
      let (auth, placed, shape) = admit-true admitted in
      let same : (after (apply_event L e) s).federation_id ≡ s.federation_id =
        rw (left, shape) (place-IsFramed e s).same_federation in
      apply_event-known (after (apply_event L e) s) (rw same fed) kind
        (apply_event-IsAccepted h).recorded
