-- ===== src/Federation/Membership/Stability.antt =====
-- What an event cannot undo: keys, revocations and other nodes.
use mathlib.Core.Option
use runvard.Base.{
  ℕ, String, ◌≡◌, ◌≢◌, refl, Bool, true, false, Option, none, some, ◌==◌, arith, reply, after,
  or_empty, opt_eq→≡, Leaves, Leaves-done, Leaves-if, Leaves-continue, if◌then◌else◌,
}
use runvard.Base.Dict
use runvard.Federation.Types.{Node, Event, Membership}
use runvard.Federation.Crypto.{Library}
use runvard.Federation.Membership.{
  is_revoked, stamp, revoke, join_node, update_node, revoke_node, place, finish, admit,
  authenticate, apply_event,
}

abbrev pub key_at : String → Membership → Option (Option String)
key_at k s = Option.map (λ (n : Node). n.public_key) (Dict.get k s.nodes)

abbrev pub revoked_at_key : String → Membership → Bool
revoked_at_key k s = is_revoked (Dict.get k s.nodes)

-- How a step may change the node `k`, where the step's event is about the node `id`.
pub record IsKept (k id : String) (s t : Membership) : Type 0 where
  pub keys : (a : Node) → Dict.get k s.nodes ≡ some a → key_at k t ≡ some a.public_key
  pub revocations : revoked_at_key k s ≡ true → revoked_at_key k t ≡ true
  pub others : k ≢ id → Dict.get k t.nodes ≡ Dict.get k s.nodes

module _ (k : String) (s : Membership) (c : ℕ) (id : String) (subject : Node) where
  abbrev at_stamp :
      Dict.get k (Dict.insert id (stamp c subject) s.nodes)
      ≡ (if id == k then some (stamp c subject) else Dict.get k s.nodes)
  at_stamp = Dict.get-insert k id (stamp c subject) s.nodes

  join_node-IsKept : Leaves (IsKept k id s) (join_node c id subject (Dict.get id s.nodes) s)
  unfolding join_node
  join_node-IsKept = record {
    left = record {
      keys = λ a h. ground (arith, at_stamp, opt_eq→≡ a.public_key subject.public_key);
      revocations = λ h. ground (arith, at_stamp);
      others = λ h. ground (arith, at_stamp);
    };
  }

  update_node-IsKept :
      (issuer : String) (current : Option Node)
      → Dict.get id s.nodes ≡ current
      → Leaves (IsKept k id s) (update_node c id subject issuer current s)
  unfolding update_node
  update_node-IsKept issuer none e = record {
    left = record {
      keys = λ a h. ground arith;
      revocations = λ h. ground arith;
      others = λ h. ground arith;
    };
  }
  update_node-IsKept issuer (some b) e = record {
    left = record {
      keys = λ a h. ground (arith, at_stamp, opt_eq→≡ subject.public_key b.public_key);
      revocations = λ h. ground (arith, at_stamp);
      others = λ h. ground (arith, at_stamp);
    };
  }

module _ (k : String) (s : Membership) (c : ℕ) (id : String) where
  revoke_node-IsKept :
      (current : Option Node)
      → Dict.get id s.nodes ≡ current
      → Leaves (IsKept k id s) (revoke_node c id current s)
  unfolding revoke_node
  revoke_node-IsKept none e = record {
    left = record {
      keys = λ a h. ground arith;
      revocations = λ h. ground arith;
      others = λ h. ground arith;
    };
  }
  revoke_node-IsKept (some b) e = record {
    left = record {
      keys = λ a h. ground (arith, Dict.get-insert k id (revoke c b) s.nodes);
      revocations = λ h. ground (arith, Dict.get-insert k id (revoke c b) s.nodes);
      others = λ h. ground (arith, Dict.get-insert k id (revoke c b) s.nodes);
    };
  }

ruleset kept_rules =
    (Leaves-done, Leaves-if, join_node-IsKept, update_node-IsKept, revoke_node-IsKept)

module _ (k : String) (s : Membership) where
  IsKept-refl : (id : String) → IsKept k id s s
  IsKept-refl id = record { keys = λ a h. ground arith; revocations = λ h. h; others = λ h. refl }

  place-IsKept : (e : Event) → Leaves (IsKept k (or_empty e.subject.node_id) s) (place e s)
  unfolding place
  place-IsKept e = search (kept_rules, IsKept-refl) depth 8

finish-IsKept :
    (L : Library) (k id : String) (s t : Membership) (e : Event) (placed : Bool)
    → IsKept k id s t
    → Leaves (IsKept k id s) (finish L e placed t)
unfolding finish
finish-IsKept L k id s t e true h = record {
  left = record { keys = h.keys; revocations = h.revocations; others = h.others };
}
finish-IsKept L k id s t e false h = record { left = h }

admit-IsKept :
    (L : Library) (e : Event) (s : Membership) (k : String)
    → Leaves (IsKept k (or_empty e.subject.node_id) s) (admit L e s)
unfolding admit
admit-IsKept L e s k =
    let id = or_empty e.subject.node_id in
    let placed = (place-IsKept k s e).left in
    Leaves-continue (authenticate L s e) _ s (IsKept-refl k s id) λ _ _.
      Leaves-continue (reply (place e) s) (finish L e) (after (place e) s) placed
        λ b _. finish-IsKept L k id s (after (place e) s) e b placed

apply_event-Leaves :
    (L : Library) (e : Event) (s : Membership) (k : String)
    → Leaves (IsKept k (or_empty e.subject.node_id) s) (apply_event L e s)
unfolding apply_event
apply_event-Leaves L e s k = search (Leaves-done, Leaves-if, IsKept-refl, admit-IsKept)

-- No event changes the key of a known node, lifts a revocation, or touches another node than its
-- subject. This holds of every event, accepted or refused, and in every state.
pub apply_event-IsKept :
    (L : Library) (e : Event) (s : Membership) (k : String)
    → IsKept k (or_empty e.subject.node_id) s (after (apply_event L e) s)
apply_event-IsKept L e s k = (apply_event-Leaves L e s k).left
