-- ===== src/Federation/Manager/Lasting.antt =====
-- No operation of a server changes the key of a node that it knows, or lifts a revocation.
use runvard.Base.{
  ℕ, String, ◌≡◌, ap, ◌∙◌, refl, Bool, true, Option, none, some, List, [], ◌∷◌, arith, Action,
  after, Keeps, keeps_rules, Keeps-continue, Keeps-bind, Keeps-if, Keeps-pure, pure, modify,
  Option-cases, inl, inr, Result,
}
use runvard.Base.Dict
use runvard.Base.Dict.{Dict}
use runvard.Federation.Types.{Node, Event, Membership}
use runvard.Federation.Membership.{apply_event, create_event}
use runvard.Federation.Membership.Stability.{key_at, revoked_at_key, apply_event-IsKept}
use runvard.Federation.Pairing.{PairingCodes}
use runvard.Federation.Sso.{Pending}
use runvard.Federation.Manager.{
  Env, Manager, change, save, on_membership, on_pairing, on_tickets, on_nonces, require_enabled,
  set_cidrs, set_settings, announce, found, enable, update_settings, revoke,
}
use runvard.Federation.Types.{Payload}
use runvard.Federation.Protocol.{Headers}
use runvard.Federation.Manager.Calls.{Call, perform, perform_all}
use runvard.Federation.Manager.Pair.{
  sort_events, Answer, PairRequest, issue_pairing_code, accept_pair, join_request, join_finish,
  apply_all,
}
use runvard.Federation.Manager.Peers.{
  Poll, authenticate_peer, apply_tolerant, accept_sync, poll_one, start_sso, accept_sso, redeem_sso,
}

-- What lasts of the node `k` from the nodes `d` to those of the membership `t`.
pub record IsLasting (k : String) (s : Membership) (m : Manager) : Type 0 where
  pub keys : (key : Option String) → key_at k s ≡ some key → key_at k m.membership ≡ some key
  pub revocations : revoked_at_key k s ≡ true → revoked_at_key k m.membership ≡ true

module _ (env : Env) (k : String) (s : Membership) where
  abbrev P : Manager → Type 0
  P m = IsLasting k s m

  key_at-some :
      (t : Membership) (key : Option String)
      → key_at k t ≡ some key
      → (a : Node) × (Dict.get k t.nodes ≡ some a) × (a.public_key ≡ key)
  key_at-some t key h = elim (Option-cases (Dict.get k t.nodes)) [
    | inl e ↦ absurd (ground arith)
    | inr (a, e) ↦ (a, e, ground arith)
  ]

  apply_event-lasts : (e : Event) → Keeps P (on_membership (apply_event env.library e))
  apply_event-lasts e = record {
    at = λ m h.
        let kept = apply_event-IsKept env.library e m.membership k in
        record {
          keys = λ key start.
              let (a, found, same) = key_at-some m.membership key (h.keys key start) in
              kept.keys a found ∙ ap some same;
          revocations = λ start. kept.revocations (h.revocations start);
        };
  }

  announce-lasts :
      (kind : String) (subject : Node) (now : ℕ) (nonce : String)
      → Keeps P (announce env kind subject now nonce)
  unfolding announce
  announce-lasts kind subject now nonce = record {
    at = λ m h.
        Keeps-continue
          (create_event env.library env.identity m.federation_id kind subject now nonce) _ m
          apply_event-lasts h;
  }

  -- A call that leaves the nodes alone.
  same_nodes :
      {A : Type 0} (act : Action Manager A)
      → ((m : Manager) → (after act m).nodes ≡ m.nodes)
      → Keeps P act
  same_nodes act same = record {
    at = λ m h. record {
      keys = λ key start. rw same (h.keys key start);
      revocations = λ start. rw same (h.revocations start);
    };
  }

  save-lasts : Keeps P save
  save-lasts = same_nodes save (λ m. refl)

  require-lasts : Keeps P require_enabled
  unfolding require_enabled
  require-lasts = same_nodes require_enabled (λ m. ground arith)

  set_cidrs-lasts : (cidrs : Option (List String)) → Keeps P (set_cidrs cidrs)
  unfolding set_cidrs
  set_cidrs-lasts cidrs = same_nodes (set_cidrs cidrs) (λ m. refl)

  set_settings-lasts :
      (name internal browser : String) → Keeps P (set_settings name internal browser)
  unfolding set_settings
  set_settings-lasts name internal browser =
      same_nodes (set_settings name internal browser) (λ m. refl)

  on_pairing-lasts : {A : Type 0} (f : Action PairingCodes A) → Keeps P (on_pairing f)
  on_pairing-lasts f = same_nodes (on_pairing f) (λ m. refl)

  on_tickets-lasts : {A : Type 0} (f : Action (Dict Pending) A) → Keeps P (on_tickets f)
  on_tickets-lasts f = same_nodes (on_tickets f) (λ m. refl)

  on_nonces-lasts : {A : Type 0} (f : Action (Dict ℕ) A) → Keeps P (on_nonces f)
  on_nonces-lasts f = same_nodes (on_nonces f) (λ m. refl)

  enter-lasts :
      (federation_id : String)
      → Keeps P (
          modify (
            change (λ s. record s {
              enabled = true;
              membership = record s.membership { federation_id = federation_id };
            })))
  enter-lasts federation_id = same_nodes _ (λ m. refl)

  apply_all-lasts : (es : List Event) → Keeps P (apply_all env es)
  unfolding apply_all
  apply_all-lasts [] = record { at = λ m h. h }
  apply_all-lasts (e ∷ es) = Keeps-bind _ _ (apply_event-lasts e) (λ _. apply_all-lasts es)

  apply_tolerant-lasts : (es : List Event) (m : Manager) → P m → P (apply_tolerant env es m)
  unfolding apply_tolerant
  apply_tolerant-lasts [] m h = h
  apply_tolerant-lasts (e ∷ es) m h = apply_tolerant-lasts es _ ((apply_event-lasts e).at m h)

  ruleset lasting_rules = (
    keeps_rules, announce-lasts, save-lasts, require-lasts, set_cidrs-lasts, set_settings-lasts,
    on_pairing-lasts, on_tickets-lasts, on_nonces-lasts, enter-lasts, apply_all-lasts,
    apply_tolerant-lasts,
  )

  revoke-lasts : (id : String) (now : ℕ) (nonce : String) → Keeps P (revoke env id now nonce)
  unfolding revoke
  revoke-lasts id now nonce = search lasting_rules

  join_finish-lasts :
      (name internal browser fingerprint : String) (answer : Answer)
      → Keeps P (join_finish env name internal browser fingerprint answer)
  unfolding join_finish
  join_finish-lasts name internal browser fingerprint answer = search lasting_rules depth 10

  accept_pair-lasts :
      (q : PairRequest) (remote : String) (now later : ℕ) (nonce : String)
      → Keeps P (accept_pair env q remote now later nonce)
  unfolding accept_pair
  accept_pair-lasts q remote now later nonce = search lasting_rules depth 10

  issue_pairing_code-lasts : (now : ℕ) (code : String) → Keeps P (issue_pairing_code env now code)
  unfolding issue_pairing_code
  issue_pairing_code-lasts now code = search lasting_rules

  join_request-lasts :
      (peer code name internal browser : String) (cidrs : Option (List String))
      (fingerprint : String)
      → Keeps P (join_request env peer code name internal browser cidrs fingerprint)
  unfolding join_request
  join_request-lasts peer code name internal browser cidrs fingerprint =
      search lasting_rules depth 12

  found-lasts :
      (name internal browser : String) (cidrs : Option (List String)) (now : ℕ)
      (federation_id nonce : String)
      → Keeps P (found env name internal browser cidrs now federation_id nonce)
  unfolding found
  found-lasts name internal browser cidrs now federation_id nonce = search lasting_rules depth 12

  enable-lasts :
      (name internal browser : String) (cidrs : Option (List String)) (now : ℕ)
      (federation_id nonce : String)
      → Keeps P (enable env name internal browser cidrs now federation_id nonce)
  unfolding enable
  enable-lasts name internal browser cidrs now federation_id nonce = record {
    at = λ m h.
        (Keeps-if {P = P} m.enabled (pure tt) _ (Keeps-pure tt)
            (found-lasts name internal browser cidrs now federation_id nonce)).at
          m h;
  }

  update_settings-lasts :
      (name internal browser : String) (cidrs : Option (List String)) (now : ℕ) (nonce : String)
      → Keeps P (update_settings env name internal browser cidrs now nonce)
  unfolding update_settings
  update_settings-lasts name internal browser cidrs now nonce = search lasting_rules depth 12

  authenticate_peer-lasts :
      (headers : Headers) (method path : String) (body : Option Payload) (now : ℕ)
      → Keeps P (authenticate_peer env headers method path body now)
  unfolding authenticate_peer
  authenticate_peer-lasts headers method path body now = search lasting_rules depth 8

  accept_sync-lasts : (es : List Event) → Keeps P (accept_sync env es)
  unfolding accept_sync
  accept_sync-lasts es = search lasting_rules depth 8

  poll_one-lasts :
      (node_id : String) (now : ℕ) (poll : Poll env) (m : Manager)
      → P m
      → P (poll_one env node_id now poll m)
  unfolding poll_one
  poll_one-lasts node_id now none m h = record { keys = h.keys; revocations = h.revocations }
  poll_one-lasts node_id now (some (events, compatible, snapshot)) m h =
      let h' = apply_tolerant-lasts (sort_events events) m h in
      record { keys = h'.keys; revocations = h'.revocations }

  start_sso-lasts :
      (node_id username role : String) (expert : Bool) (now : ℕ) (ticket_id : String)
      → Keeps P (start_sso env node_id username role expert now ticket_id)
  unfolding start_sso
  start_sso-lasts node_id username role expert now ticket_id = search lasting_rules depth 10

  accept_sso-lasts :
      (ticket : String) (now : ℕ) (redeemed : Result (Unit {0}))
      → Keeps P (accept_sso env ticket now redeemed)
  unfolding accept_sso
  accept_sso-lasts ticket now redeemed = search lasting_rules depth 10

  redeem_sso-lasts : (ticket : String) (now : ℕ) → Keeps P (redeem_sso env ticket now)
  unfolding redeem_sso
  redeem_sso-lasts ticket now = search lasting_rules depth 8

  perform-lasts : (c : Call env) (m : Manager) → P m → P (perform env c m)
  unfolding perform
  perform-lasts (Call.enable n i b c t f x) m h = (enable-lasts n i b c t f x).at m h
  perform-lasts (Call.update_settings n i b c t x) m h = (update_settings-lasts n i b c t x).at m h
  perform-lasts (Call.issue_pairing_code t x) m h = (issue_pairing_code-lasts t x).at m h
  perform-lasts (Call.accept_pair q r t u x) m h = (accept_pair-lasts q r t u x).at m h
  perform-lasts (Call.join_request p x n i b c f) m h = (join_request-lasts p x n i b c f).at m h
  perform-lasts (Call.join_finish n i b f a) m h = (join_finish-lasts n i b f a).at m h
  perform-lasts (Call.authenticate_peer r x p b t) m h = (authenticate_peer-lasts r x p b t).at m h
  perform-lasts (Call.accept_sync es) m h = (accept_sync-lasts es).at m h
  perform-lasts (Call.poll_one n t r) m h = poll_one-lasts n t r m h
  perform-lasts (Call.revoke n t x) m h = (revoke-lasts n t x).at m h
  perform-lasts (Call.start_sso n u r e t x) m h = (start_sso-lasts n u r e t x).at m h
  perform-lasts (Call.accept_sso k t r) m h = (accept_sso-lasts k t r).at m h
  perform-lasts (Call.redeem_sso k t) m h = (redeem_sso-lasts k t).at m h

  perform_all-lasts : (cs : List (Call env)) (m : Manager) → P m → P (perform_all env cs m)
  unfolding perform_all
  perform_all-lasts [] m h = h
  perform_all-lasts (c ∷ cs) m h = perform_all-lasts cs (perform env c m) (perform-lasts c m h)

-- Whatever operations a server performs, with success or not, a node that it knows keeps its key,
-- and a node that is revoked stays revoked.
pub perform_all-IsLasting :
    (env : Env) (k : String) (cs : List (Call env)) (m : Manager)
    → IsLasting k m.membership (perform_all env cs m)
perform_all-IsLasting env k cs m =
    perform_all-lasts env k m.membership cs m (record { keys = λ key h. h; revocations = λ h. h })
