-- ===== src/Federation/Protocol/Checks.antt =====
-- What a verified request has shown, that a signed request is verified, and that it is so once.
use runvard.Base.{
  text_length, ℕ, suc, ◌+◌, ◌≤◌, String, ◌≡◌, ◌≢◌, sym, ◌∙◌, refl, true, Option, none, some, List,
  All, length, ok, reply, after, arith,
}
use runvard.Base.Dict
use runvard.Base.Dict.{Dict, NodupKeys}
use runvard.Federation.Types.{Payload}
use runvard.Federation.Crypto.{
  Library, NodeIdentity, IsKeyPair, canonical_json, node_id_from_public_key, verify_payload,
  verify_payload-sign,
}
use runvard.Federation.Nonces.{consume, nonce_ttl, nonce_limit, nonce_key, is_stale}
use runvard.Federation.Nonces.Replay.{reply-consume, consume-replay, after_requests, Request}
use runvard.Federation.Protocol.{
  Headers, api_version, envelope, body_hash, sign_request, check_clock, check_request,
  verify_request,
}

module _ (L : Library) (headers : Headers) (public_key target method path : String)
    (body : Option Payload) (now : ℕ) where
  -- What a request has shown: its sender holds the key, it is meant for this node and for this
  -- method, path and body, and its clock is within 30 seconds of ours.
  pub record IsGenuine : Type 0 where
    pub time : ℕ
    pub sent_at : headers.time ≡ some time
    pub sender : headers.node ≡ node_id_from_public_key L public_key
    pub recipient : headers.target ≡ target
    pub version : headers.version ≡ api_version
    pub not_late : now ≤ time + 30
    pub not_early : time ≤ now + 30
    pub nonce : 2 ≤ text_length headers.nonce
    pub signed :
        L.verify public_key
          (canonical_json L (
            Payload.envelope
              (envelope L headers.node target method path (body_hash L body) time headers.nonce)))
          headers.signature
        ≡ true

  check_request-IsGenuine :
      check_request L headers public_key target method path body now ≡ ok tt → IsGenuine
  unfolding check_request check_clock verify_payload
  check_request-IsGenuine h = go headers.time refl
    where
      go : (o : Option ℕ) → headers.time ≡ o → IsGenuine
      go none e = absurd (ground arith)
      go (some time) e = record {
        time = time;
        sent_at = e;
        sender = ground arith;
        recipient = ground arith;
        version = ground arith;
        not_late = ground arith;
        not_early = ground arith;
        nonce = ground arith;
        signed = ground arith;
      }

  reply-verify_request :
      (d : Dict ℕ) {sender : String}
      → reply (verify_request L headers public_key target method path body now) d ≡ ok sender
      → (check_request L headers public_key target method path body now ≡ ok tt)
        × (reply (consume nonce_ttl nonce_limit headers.node headers.nonce now) d ≡ ok tt)
        × (sender ≡ headers.node)
  unfolding verify_request
  reply-verify_request d h = ground arith

  -- A request that is let in is genuine, and the reply names its sender.
  pub verify_request-IsGenuine :
      (d : Dict ℕ) {sender : String}
      → reply (verify_request L headers public_key target method path body now) d ≡ ok sender
      → IsGenuine × (sender ≡ headers.node)
  verify_request-IsGenuine d h =
      let (checked, fresh, named) = reply-verify_request d h in
      (check_request-IsGenuine checked, named)

  -- Verifying a request leaves of the cache what consuming its nonce does.
  after-verify_request :
      (d : Dict ℕ) {sender : String}
      → reply (verify_request L headers public_key target method path body now) d ≡ ok sender
      → after (verify_request L headers public_key target method path body now) d
        ≡ after (consume nonce_ttl nonce_limit headers.node headers.nonce now) d
  unfolding verify_request
  after-verify_request d h = ground arith

-- A request that was let in is never let in again: not at any later or earlier time, and whatever
-- other nonces were consumed in between, in at most two minutes and while the cache has had room for
-- them all. The cache is assumed to list no key twice.
pub verify_request_once :
    (L : Library) (headers : Headers) (public_key target method path : String)
    (body : Option Payload) (now now' : ℕ) (qs : List Request) (d : Dict ℕ)
    {sender sender' : String}
    → NodupKeys d
    → length d + suc (length qs) ≤ 4096
    → All (λ (q : Request). q.time ≤ now + 120) qs
    → reply (verify_request L headers public_key target method path body now) d ≡ ok sender
    → reply (verify_request L headers public_key target method path body now') (
        after_requests nonce_ttl nonce_limit qs
          (after (verify_request L headers public_key target method path body now) d))
      ≢ ok sender'
verify_request_once L headers public_key target method path body now now' qs d distinct space early
      h again =
    let first = (verify_request-IsGenuine L headers public_key target method path body now d h).0 in
    let second =
      (verify_request-IsGenuine L headers public_key target method path body now' _ again).0 in
    let (_, fresh, _) = reply-verify_request L headers public_key target method path body now d h in
    let (_, fresh', _) =
      reply-verify_request L headers public_key target method path body now' _ again in
    let left = after-verify_request L headers public_key target method path body now d h in
    let same : some first.time ≡ some second.time = sym first.sent_at ∙ second.sent_at in
    let late : now' ≤ now + 120 = ground (arith, same, first.not_early, second.not_late) in
    cc (
      rw left at fresh',
      consume-replay nonce_ttl nonce_limit headers.node headers.nonce now now' qs d distinct space
          early late fresh,
    )

-- What a node signs with its key is let in by its peer: with a nonce that is new to the peer, under
-- clocks that differ by 30 seconds at most.
pub verify_request-sign :
    (L : Library) (identity : NodeIdentity) (target method path : String) (body : Option Payload)
    (sent now : ℕ) (nonce : String) (d : Dict ℕ)
    → IsKeyPair L identity
    → identity.node_id ≡ node_id_from_public_key L identity.public_key
    → identity.node_id ≢ ""
    → 2 ≤ text_length nonce
    → sent ≤ now + 30
    → now ≤ sent + 30
    → Dict.get (nonce_key identity.node_id nonce) (Dict.prune (is_stale 120 now) d) ≡ none
    → reply
        (verify_request L
          (sign_request L identity target method path body sent nonce)
          identity.public_key
          target
          method
          path
          body
          now)
        d
      ≡ ok identity.node_id
unfolding verify_request sign_request check_request check_clock
verify_request-sign L identity target method path body sent now nonce d pair named nonempty long
      early late fresh =
    let payload =
      Payload.envelope
        (envelope L identity.node_id target method path (body_hash L body) sent nonce) in
    ground (
      arith,
      reply-consume nonce_ttl nonce_limit identity.node_id nonce now d,
      verify_payload-sign L identity payload pair,
    )
