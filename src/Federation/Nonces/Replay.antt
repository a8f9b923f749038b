-- ===== src/Federation/Nonces/Replay.antt =====
-- A request that was let in is refused when it comes again.
use runvard.Base.{
  ℕ, suc, ◌+◌, ◌≤◌, ◌<◌, String, ◌≡◌, refl, none, some, List, [], ◌∷◌, Option-cases, inl, inr,
  is_some, length, All, if◌then◌else◌, arith, ok, reply, after,
}
use runvard.Base.Dict
use runvard.Base.Dict.{Dict, NodupKeys}
use runvard.Federation.Nonces.{consume, room, is_stale, replay, nonce_key}

pub record Request : Type 0 where
  pub sender : String
  pub nonce : String
  pub time : ℕ

-- With room left nothing is dropped.
room-small : (limit : ℕ) (d : Dict ℕ) → length d < limit → room limit d ≡ d
unfolding room
room-small limit d h = ground arith

module _ (ttl limit : ℕ) where
  -- The key was seen at `t`, and the cache has room for `n` more.
  pub record IsSeen (key : String) (t n : ℕ) (d : Dict ℕ) : Type 0 where
    pub distinct : NodupKeys d
    pub seen : Dict.get key d ≡ some t
    pub space : length d + n ≤ limit

  prune-IsSeen :
      (key : String) (t n now : ℕ) (d : Dict ℕ)
      → IsSeen key t n d
      → now ≤ t + ttl
      → IsSeen key t n (Dict.prune (is_stale ttl now) d)
  prune-IsSeen key t n now d h early = record {
    distinct = Dict.prune-NodupKeys (is_stale ttl now) d h.distinct;
    seen = rw (Dict.get-prune (is_stale ttl now) key d h.distinct, h.seen) (ground arith);
    space = omega (arith, Dict.length-prune-le (is_stale ttl now) d, h.space);
  }

  insert-IsSeen :
      (key other : String) (t n now : ℕ) (d : Dict ℕ)
      → IsSeen key t (suc n) d
      → Dict.get other d ≡ none
      → IsSeen key t n (Dict.insert other now (room limit d))
  insert-IsSeen key other t n now d h absent =
      rw (room-small limit d (omega (arith, h.space))) (record {
        distinct = Dict.insert-NodupKeys other now d h.distinct;
        seen = ground (arith, Dict.get-insert key other now d, h.seen);
        space = omega (arith, Dict.length-insert-le other now d, h.space);
      })

  module _ (sender nonce : String) (now : ℕ) (d : Dict ℕ) where
    abbrev key_of : String
    key_of = nonce_key sender nonce

    abbrev fresh : Dict ℕ
    fresh = Dict.prune (is_stale ttl now) d

    after-consume_new :
        Dict.get key_of fresh ≡ none
        → after (consume ttl limit sender nonce now) d ≡ Dict.insert key_of now (room limit fresh)
    unfolding consume
    after-consume_new e = ground arith

    after-consume_seen :
        {seen : ℕ}
        → Dict.get key_of fresh ≡ some seen
        → after (consume ttl limit sender nonce now) d ≡ fresh
    unfolding consume
    after-consume_seen e = ground arith

    pub reply-consume :
        reply (consume ttl limit sender nonce now) d
        ≡ (if is_some (Dict.get key_of fresh) then replay else ok tt)
    unfolding consume
    reply-consume = ground arith

  consume-IsSeen :
      (key : String) (t n : ℕ) (d : Dict ℕ) (q : Request)
      → IsSeen key t (suc n) d
      → q.time ≤ t + ttl
      → IsSeen key t n (after (consume ttl limit q.sender q.nonce q.time) d)
  consume-IsSeen key t n d q h early =
      let other = nonce_key q.sender q.nonce in
      let kept = prune-IsSeen key t (suc n) q.time d h early in
      elim (Option-cases (Dict.get other (Dict.prune (is_stale ttl q.time) d))) [
        | inl e ↦
            rw (after-consume_new q.sender q.nonce q.time d e)
              (insert-IsSeen key other t n q.time _ kept e)
        | inr (seen, e) ↦ rw (after-consume_seen q.sender q.nonce q.time d e) (record {
          distinct = kept.distinct;
          seen = kept.seen;
          space = omega (arith, kept.space);
        })
      ]

  -- The cache after a sequence of requests.
  abbrev pub after_requests : List Request → Dict ℕ → Dict ℕ
  after_requests [] d = d
  after_requests (q ∷ qs) d =
      after_requests qs (after (consume ttl limit q.sender q.nonce q.time) d)

  after_requests-IsSeen :
      (key : String) (t n : ℕ) (qs : List Request) (d : Dict ℕ)
      → IsSeen key t (length qs + n) d
      → All (λ (q : Request). q.time ≤ t + ttl) qs
      → IsSeen key t n (after_requests qs d)
  after_requests-IsSeen key t n [] d h early = record {
    distinct = h.distinct;
    seen = h.seen;
    space = omega (arith, h.space);
  }
  after_requests-IsSeen key t n (q ∷ qs) d h (first, early) =
      let h' : IsSeen key t (suc (length qs + n)) d = record {
        distinct = h.distinct;
        seen = h.seen;
        space = omega (arith, h.space);
      } in
      after_requests-IsSeen key t n qs _ (consume-IsSeen key t (length qs + n) d q h' first) early

  consume-lets_in :
      (sender nonce : String) (t n : ℕ) (d : Dict ℕ)
      → NodupKeys d
      → length d + suc n ≤ limit
      → reply (consume ttl limit sender nonce t) d ≡ ok tt
      → IsSeen (nonce_key sender nonce) t n (after (consume ttl limit sender nonce t) d)
  consume-lets_in sender nonce t n d distinct space h =
      let pruned = Dict.prune (is_stale ttl t) d in
      let key = nonce_key sender nonce in
      let small = Dict.length-prune-le (is_stale ttl t) d in
      elim (Option-cases (Dict.get key pruned)) [
        | inl e ↦
            rw (after-consume_new sender nonce t d e, room-small limit pruned (omega arith))
              (record {
                distinct =
                    Dict.insert-NodupKeys key t pruned
                      (Dict.prune-NodupKeys (is_stale ttl t) d distinct);
                seen = ground (arith, Dict.get-insert key key t pruned);
                space = omega (arith, Dict.length-insert-le key t pruned);
              })
        | inr (seen, e) ↦ absurd (ground (arith, reply-consume sender nonce t d))
      ]

  -- A request that was let in at `t` is a replay when the same sender and nonce come again until
  -- `t + ttl`, whatever other requests came in between, if the cache has had room for all of them.
  -- The clock may also have gone back. The cache is assumed to list no key twice.
  pub consume-replay :
      (sender nonce : String) (t t' : ℕ) (qs : List Request) (d : Dict ℕ)
      → NodupKeys d
      → length d + suc (length qs) ≤ limit
      → All (λ (q : Request). q.time ≤ t + ttl) qs
      → t' ≤ t + ttl
      → reply (consume ttl limit sender nonce t) d ≡ ok tt
      → reply
          (consume ttl limit sender nonce t')
          (after_requests qs (after (consume ttl limit sender nonce t) d))
        ≡ replay
  consume-replay sender nonce t t' qs d distinct space early late h =
      let key = nonce_key sender nonce in
      let first = consume-lets_in sender nonce t (length qs) d distinct space h in
      let start : IsSeen key t (length qs + 0) (after (consume ttl limit sender nonce t) d) =
        record {
          distinct = first.distinct;
          seen = first.seen;
          space = omega (arith, first.space);
        } in
      let last = after_requests-IsSeen key t 0 qs _ start early in
      rw (reply-consume sender nonce t' _, (prune-IsSeen key t 0 t' _ last late).seen) refl
