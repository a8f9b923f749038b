-- ===== src/Federation/Manager/Limit.antt =====
-- What a server that lets another join has checked.
use runvard.Base.{
  ℕ, ◌<◌, String, ◌≡◌, true, some, arith, length, or_empty, Result, ok, err, Bool, false, reply,
  after,
}
use runvard.Federation.Crypto.{
  canonical_json, verify_payload, node_id_from_public_key, public_key_fingerprint,
}
use runvard.Base.Dict
use runvard.Federation.Pairing.{recent_failures, max_failures}
use runvard.Federation.Pairing.Single.{code_verdict, consume-verdict}
use runvard.Federation.Urls.{validate_internal_url, validate_browser_url}
use runvard.Federation.Manager.{Env, Manager, is_ready, require_enabled}
use runvard.Federation.Manager.Pair.{
  PairRequest, Signed, active_nodes, digest, proof_of, check_pair, accept_pair,
}

abbrev is_accepted : Result String → Bool
is_accepted (ok url) = true
is_accepted (err e) = false

module _ (env : Env) (q : PairRequest) where
  -- The joining server holds its key and goes by the key's id, it named this server's key, this
  -- server is in a federation of less than 20 active nodes, and the code is stored, unused and
  -- not expired, from a remote that has not failed too often. Its URLs are well formed, and the internal
  -- one is in an allowed network.
  pub record IsAdmitted (remote : String) (now : ℕ) (m : Manager) : Type 0 where
    pub ready : is_ready m.state ≡ true
    pub proven :
        env.library.verify
          (or_empty q.node.public_key)
          (canonical_json env.library (proof_of env q))
          q.proof
        ≡ true
    pub meant : q.fingerprint ≡ public_key_fingerprint env.library env.identity.public_key
    pub room : length (active_nodes m.state) < 20
    pub named :
        q.node.node_id ≡ some (node_id_from_public_key env.library (or_empty q.node.public_key))
    pub internal :
        is_accepted
          (validate_internal_url env.urls q.node.info.internal_url m.state.settings.allowed_cidrs)
        ≡ true
    pub browser : is_accepted (validate_browser_url env.urls q.node.info.browser_url) ≡ true
    pub code : code_verdict now (Dict.get (digest env (or_empty q.code)) m.pairing.values) ≡ ok true
    pub calm : length (recent_failures now remote m.pairing) < max_failures

  -- A server that lets another join is in a federation of less than 20 active nodes. The joining server
  -- has signed the request with the key that it presents, goes by that key's id, named this server's
  -- fingerprint, gave an internal URL in an allowed network and a browser URL that pass their checks,
  -- and gave a code that is stored, unused and not expired, from a remote with less than five recent
  -- failures. What the state is afterwards has been saved.
  pub accept_pair-IsAdmitted :
      (remote : String) (now later : ℕ) (nonce : String) (m : Manager) {answer : Signed}
      → reply (accept_pair env q remote now later nonce) m ≡ ok answer
      → IsAdmitted remote now m
        × ((after (accept_pair env q remote now later nonce) m).saved
            ≡ (after (accept_pair env q remote now later nonce) m).state)
  unfolding accept_pair check_pair require_enabled verify_payload
  accept_pair-IsAdmitted remote now later nonce m h = (
    record {
      ready = ground arith;
      proven = ground arith;
      meant = ground arith;
      room = ground arith;
      named = ground arith;
      internal = ground arith;
      browser = ground arith;
      code = ground (arith, consume-verdict (digest env) (or_empty q.code) remote now m.pairing);
      calm = ground (arith, consume-verdict (digest env) (or_empty q.code) remote now m.pairing);
    },
    ground arith,
  )
