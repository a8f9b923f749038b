-- ===== src/Federation/Sso/Redeem.antt =====
-- A ticket is redeemed once.
use runvard.Base.{
  ℕ, ◌+◌, String, ◌≡◌, ◌≢◌, sym, ap, subst, ◌∙◌, refl, Bool, true, false, Option, none, some, List,
  [], ◌∷◌, leb, if◌then◌else◌, value_error, Result, ok, err, reply, after, arith,
}
use runvard.Base.Dict
use runvard.Base.Dict.{Dict}
use runvard.Federation.Crypto.{Library, NodeIdentity}
use runvard.Federation.Sso.{
  Codec, Ticket, Pending, read_ticket, make_claim, make_ticket, signed_ticket, issue_ticket,
  redeem_entry, redeem_ticket,
}

-- The ticket with this id is pending and was redeemed.
abbrev is_redeemed : Option Pending → Bool
is_redeemed none = false
is_redeemed (some entry) = entry.redeemed

module _ (L : Library) (C : Codec) where
  redeem_entry-keeps :
      (id ticket ticket_id : String) (current : ℕ) (o : Option Pending) (d : Dict Pending)
      → Dict.get ticket_id d ≡ o
      → is_redeemed (Dict.get id d) ≡ true
      → is_redeemed (Dict.get id (after (redeem_entry L C ticket ticket_id current o) d)) ≡ true
  unfolding redeem_entry
  redeem_entry-keeps id ticket ticket_id current none d e h = h
  redeem_entry-keeps id ticket ticket_id current (some entry) d e h =
      ground (arith, Dict.get-insert id ticket_id (record entry { redeemed = true }) d)

  redeem_ticket-keeps :
      (id ticket : String) (current : ℕ) (d : Dict Pending)
      → is_redeemed (Dict.get id d) ≡ true
      → is_redeemed (Dict.get id (after (redeem_ticket L C ticket current) d)) ≡ true
  unfolding redeem_ticket
  redeem_ticket-keeps id ticket current d h = go (read_ticket L C ticket) refl
    where
      go :
          (r : Result Ticket)
          → read_ticket L C ticket ≡ r
          → is_redeemed (Dict.get id (after (redeem_ticket L C ticket current) d)) ≡ true
      go (err x) e = ground arith
      go (ok value) e =
          let ticket_id = value.claim.ticket_id in
          ground (arith, redeem_entry-keeps id ticket ticket_id current (Dict.get ticket_id d) d)

  redeem_entry-redeems :
      (ticket id : String) (current : ℕ) (o : Option Pending) (d : Dict Pending)
      → reply (redeem_entry L C ticket id current o) d ≡ ok true
      → is_redeemed (Dict.get id (after (redeem_entry L C ticket id current o) d)) ≡ true
  unfolding redeem_entry
  redeem_entry-redeems ticket id current none d h = cc
  redeem_entry-redeems ticket id current (some entry) d h =
      ground (arith, Dict.get-insert id id (record entry { redeemed = true }) d)

  redeem_entry-refused :
      (ticket id : String) (current : ℕ) (o : Option Pending) (d : Dict Pending)
      → is_redeemed o ≡ true
      → reply (redeem_entry L C ticket id current o) d ≢ ok true
  unfolding redeem_entry
  redeem_entry-refused ticket id current none d h again = cc
  redeem_entry-refused ticket id current (some entry) d h again = ground arith

  redeem_ticket-read :
      (ticket : String) (value : Ticket) (current : ℕ) (d : Dict Pending)
      → read_ticket L C ticket ≡ ok value
      → redeem_ticket L C ticket current d
        ≡ redeem_entry L C ticket value.claim.ticket_id current (Dict.get value.claim.ticket_id d) d
  unfolding redeem_ticket
  redeem_ticket-read ticket value current d e = rw (e, redeem_ticket) refl

  -- The pending tickets after a sequence of attempts to redeem tickets.
  abbrev pub after_attempts : List (String × ℕ) → Dict Pending → Dict Pending
  after_attempts [] d = d
  after_attempts ((ticket, time) ∷ qs) d =
      after_attempts qs (after (redeem_ticket L C ticket time) d)

  after_attempts-keeps :
      (id : String) (qs : List (String × ℕ)) (d : Dict Pending)
      → is_redeemed (Dict.get id d) ≡ true
      → is_redeemed (Dict.get id (after_attempts qs d)) ≡ true
  after_attempts-keeps id [] d h = h
  after_attempts-keeps id ((ticket, time) ∷ qs) d h =
      after_attempts-keeps id qs _ (redeem_ticket-keeps id ticket time d h)

  -- A ticket that was redeemed is never redeemed again, at any time and whatever tickets are tried in
  -- between.
  pub redeem_once :
      (ticket : String) (t t' : ℕ) (qs : List (String × ℕ)) (d : Dict Pending)
      → reply (redeem_ticket L C ticket t) d ≡ ok true
      → reply
          (redeem_ticket L C ticket t')
          (after_attempts qs (after (redeem_ticket L C ticket t) d))
        ≢ ok true
  unfolding redeem_ticket
  redeem_once ticket t t' qs d h again = go (read_ticket L C ticket) refl
    where
      go : (r : Result Ticket) → read_ticket L C ticket ≡ r → ⊥
      go (err x) e = ground arith
      go (ok value) e =
          let id = value.claim.ticket_id in
          let used = after (redeem_ticket L C ticket t) d in
          let later = after_attempts qs used in
          let same = redeem_ticket-read ticket value t d e in
          let same' = redeem_ticket-read ticket value t' later e in
          let first : is_redeemed (Dict.get id used) ≡ true =
            subst (λ (r : Result Bool × Dict Pending). is_redeemed (Dict.get id r.1) ≡ true)
              (sym same)
              (redeem_entry-redeems ticket id t (Dict.get id d) d
                (sym (ap (λ (r : Result Bool × Dict Pending). r.0) same) ∙ h)) in
          redeem_entry-refused ticket id t' (Dict.get id later) later
            (after_attempts-keeps id qs used first)
            (sym (ap (λ (r : Result Bool × Dict Pending). r.0) same') ∙ again)

  -- A ticket that was just issued is redeemed up to and including 60 seconds after its issue, and has
  -- expired from then on, if the ticket's encoding can be read back.
  pub redeem-issue :
      (identity : NodeIdentity) (target federation username role ticket_id : String) (expert : Bool)
      (now current : ℕ) (pending : Dict Pending) {ticket : String}
      → let value =
          signed_ticket L C identity
            (make_claim L C identity target federation username role expert now ticket_id) in
        C.decode (C.encode value) ≡ some value
        → reply
            (issue_ticket L C identity target federation username role expert now ticket_id)
            pending
          ≡ ok ticket
        → reply (redeem_ticket L C ticket current) (
            after
              (issue_ticket L C identity target federation username role expert now ticket_id)
              pending)
          ≡ (if leb current (now + 60) then ok true else err (value_error "SSO ticket expired"))
  unfolding issue_ticket make_claim redeem_ticket redeem_entry read_ticket make_ticket
  redeem-issue identity target federation username role ticket_id expert now current pending
        {ticket} codec issued =
      let claim = make_claim L C identity target federation username role expert now ticket_id in
      let entry : Pending = record {
        expires_at = now + 60;
        hash = L.sha256_hex (make_ticket L C identity claim);
        redeemed = false;
      } in
      ground (arith, codec, Dict.get-insert ticket_id ticket_id entry pending)
