-- ===== src/Federation/Membership/Authority.antt =====
-- Which events are accepted, and what a refused or a repeated one does.
use runvard.Base.{
  String, ◌≡◌, refl, true, false, Option, none, some, [], ◌∷◌, arith, Result, ok, err, or_empty,
  opt_eq→≡,
}
use runvard.Base.Dict
use runvard.Federation.Types.{Node, Event, Membership, Payload}
use runvard.Federation.Crypto.{Library, canonical_json, verify_payload}
use runvard.Federation.Membership.{node_joined, issuer_key, authenticate, event_digest}

-- The issuer of an event is a node that has not been revoked, with its key; or, while there are no
-- nodes, the node that the event itself lets in.
pub data IssuedBy (s : Membership) (e : Event) (key : String) : Type 0 where
  member :
      (n : Node)
      → Dict.get e.issuer s.nodes ≡ some n
      → n.revoked ≡ false
      → or_empty n.public_key ≡ key
      → IssuedBy s e key
  founder :
      s.nodes ≡ []
      → e.kind ≡ node_joined
      → some e.issuer ≡ e.subject.node_id
      → or_empty e.subject.public_key ≡ key
      → IssuedBy s e key

-- What an accepted event has shown.
pub record IsAuthentic (L : Library) (s : Membership) (e : Event) : Type 0 where
  pub key : String
  pub issued : IssuedBy s e key
  pub signed :
      L.verify key (canonical_json L (Payload.event e.unsigned)) (or_empty e.signature) ≡ true
  pub identified : e.event_id ≡ event_digest L e.unsigned e.signature

issuer_key-IssuedBy :
    (s : Membership) (e : Event) (key : String) → issuer_key s e ≡ ok key → IssuedBy s e key
unfolding issuer_key
issuer_key-IssuedBy s e key h = go (Dict.get e.issuer s.nodes) s.nodes refl refl
  where
    go :
        (o : Option Node) (d : Dict.Dict Node)
        → Dict.get e.issuer s.nodes ≡ o
        → s.nodes ≡ d
        → IssuedBy s e key
    go (some n) d eo ed = IssuedBy.member n eo (ground arith) (ground arith)
    go none [] eo ed =
        IssuedBy.founder ed (ground arith)
          (ground (arith, opt_eq→≡ (some e.issuer) e.subject.node_id)) (ground arith)
    go none (x ∷ d) eo ed = absurd (ground arith)

pub authenticate-IsAuthentic :
    (L : Library) (s : Membership) (e : Event) → authenticate L s e ≡ ok tt → IsAuthentic L s e
unfolding authenticate verify_payload
authenticate-IsAuthentic L s e h = go (issuer_key s e) refl
  where
    go : (r : Result String) → issuer_key s e ≡ r → IsAuthentic L s e
    go (ok key) er = record {
      key = key;
      issued = issuer_key-IssuedBy s e key er;
      signed = ground arith;
      identified = ground arith;
    }
    go (err x) er = absurd (ground arith)
