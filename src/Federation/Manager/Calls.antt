-- ===== src/Federation/Manager/Calls.antt =====
-- The operations of a server as data, so that a history of a server is a list of calls.
use runvard.Base.{ℕ, String, Bool, Option, List, [], ◌∷◌, Result, after}
use runvard.Federation.Types.{Event, Payload}
use runvard.Federation.Protocol.{Headers}
use runvard.Federation.Manager
use runvard.Federation.Manager.{Env, Manager}
use runvard.Federation.Manager.Pair
use runvard.Federation.Manager.Pair.{PairRequest, Answer}
use runvard.Federation.Manager.Peers
use runvard.Federation.Manager.Peers.{Poll}

pub data Call (env : Env) : Type 0 where
  enable :
      (name internal browser : String)
      → Option (List String)
      → ℕ
      → (federation_id nonce : String) → Call env
  update_settings : (name internal browser : String) → Option (List String) → ℕ → String → Call env
  issue_pairing_code : ℕ → String → Call env
  accept_pair : PairRequest → (remote : String) → ℕ → ℕ → String → Call env
  join_request :
      (peer code name internal browser : String) → Option (List String) → String → Call env
  join_finish : (name internal browser fingerprint : String) → Answer → Call env
  authenticate_peer : Headers → (method path : String) → Option Payload → ℕ → Call env
  accept_sync : List Event → Call env
  poll_one : String → ℕ → Poll env → Call env
  revoke : String → ℕ → String → Call env
  start_sso : (node_id username role : String) → Bool → ℕ → String → Call env
  accept_sso : String → ℕ → Result (Unit {0}) → Call env
  redeem_sso : String → ℕ → Call env

module _ (env : Env) where
  -- The server after a call, whether it returned or raised.
  unfoldable pub perform : Call env → Manager → Manager
  perform (Call.enable n i b c t f x) m = after (Manager.enable env n i b c t f x) m
  perform (Call.update_settings n i b c t x) m = after (Manager.update_settings env n i b c t x) m
  perform (Call.issue_pairing_code t x) m = after (Pair.issue_pairing_code env t x) m
  perform (Call.accept_pair q r t u x) m = after (Pair.accept_pair env q r t u x) m
  perform (Call.join_request p x n i b c f) m = after (Pair.join_request env p x n i b c f) m
  perform (Call.join_finish n i b f a) m = after (Pair.join_finish env n i b f a) m
  perform (Call.authenticate_peer h x p b t) m = after (Peers.authenticate_peer env h x p b t) m
  perform (Call.accept_sync es) m = after (Peers.accept_sync env es) m
  perform (Call.poll_one n t r) m = Peers.poll_one env n t r m
  perform (Call.revoke n t x) m = after (Manager.revoke env n t x) m
  perform (Call.start_sso n u r e t x) m = after (Peers.start_sso env n u r e t x) m
  perform (Call.accept_sso k t r) m = after (Peers.accept_sso env k t r) m
  perform (Call.redeem_sso k t) m = after (Peers.redeem_sso env k t) m

  -- The server after a sequence of calls.
  unfoldable pub perform_all : List (Call env) → Manager → Manager
  perform_all [] m = m
  perform_all (c ∷ cs) m = perform_all cs (perform c m)
