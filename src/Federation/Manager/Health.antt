-- ===== src/Federation/Manager/Health.antt =====
-- The health of a peer over a run of polls.
use runvard.Base.{
  ℕ, ◌+◌, String, ◌≡◌, refl, ap, ◌∙◌, Bool, Option, none, some, List, [], ◌∷◌, arith, length, leb,
  ◌||◌, if◌then◌else◌, ==-refl,
}
use runvard.Base.Dict
use runvard.Federation.Types.{Event}
use runvard.Federation.Manager.{Env, Manager, PeerStatus}
use runvard.Federation.Manager.Peers.{
  failures_of, last_success_of, snapshot_of, failed_status, poll_one, apply_tolerant,
}
use runvard.Federation.Manager.Pair.{sort_events}

module _ (env : Env) (k : String) where
  -- Polls of the peer `k` that fail, at the given times.
  unfoldable pub poll_failures : List ℕ → Manager → Manager
  poll_failures [] m = m
  poll_failures (t ∷ ts) m = poll_failures ts (poll_one env k t none m)

  abbrev pub status_of : Manager → Option PeerStatus
  status_of m = Dict.get k m.peer_status

  status-poll_failed :
      (t : ℕ) (m : Manager)
      → status_of (poll_one env k t none m) ≡ some (failed_status env t (status_of m))
  unfolding poll_one
  status-poll_failed t m = ground (
    arith,
    Dict.get-insert k k (failed_status env t (Dict.get k m.peer_status)) m.peer_status,
    ==-refl k,
  )

  -- What a failed poll leaves as it is, and the failures it counts.
  record IsCounted (n : ℕ) (old new : Option PeerStatus) : Type 0 where
    pub failures : failures_of env new ≡ failures_of env old + n
    pub last_success : last_success_of env new ≡ last_success_of env old
    pub snapshot : snapshot_of env new ≡ snapshot_of env old

  poll_failures-IsCounted :
      (ts : List ℕ) (m : Manager)
      → IsCounted (length ts) (status_of m) (status_of (poll_failures ts m))
  unfolding poll_failures failed_status
  poll_failures-IsCounted [] m = record {
    failures = omega arith;
    last_success = refl;
    snapshot = refl;
  }
  poll_failures-IsCounted (t ∷ ts) m =
      let rest = poll_failures-IsCounted ts (poll_one env k t none m) in
      record {
        failures = rest.failures ∙ ground (arith, status-poll_failed t m);
        last_success = rest.last_success ∙ ap (last_success_of env) (status-poll_failed t m);
        snapshot = rest.snapshot ∙ ap (snapshot_of env) (status-poll_failed t m);
      }

  status-poll_ok :
      (t : ℕ) (events : List Event) (compatible : Bool) (snapshot : String) (m : Manager)
      → status_of (poll_one env k t (some (events, compatible, snapshot)) m)
        ≡ some (record {
          health = if compatible then "online" else "incompatible";
          last_success = some t;
          last_attempt = t;
          failures = 0;
          snapshot = some snapshot;
        })
  unfolding poll_one
  status-poll_ok t events compatible snapshot m = ground (
    arith,
    Dict.get-insert k k
        (record {
          health = if compatible then "online" else "incompatible";
          last_success = some t;
          last_attempt = t;
          failures = 0;
          snapshot = some snapshot;
        })
        (apply_tolerant env (sort_events events) m).peer_status,
    ==-refl k,
  )

  -- After a poll at `start` that was answered, and then only polls that failed, at `ts` and last at
  -- `t`, the peer is offline if three or more failed or if 45 seconds have passed since the answer,
  -- and degraded otherwise. The answer's time and snapshot are kept.
  pub failed_polls_status :
      (start : ℕ) (events : List Event) (compatible : Bool) (snapshot : String) (ts : List ℕ)
      (t : ℕ) (m : Manager)
      → status_of (
          poll_one env k t none
            (poll_failures ts (poll_one env k start (some (events, compatible, snapshot)) m)))
        ≡ some (record {
          health = if leb 3 (length ts + 1) || leb (start + 45) t then "offline" else "degraded";
          last_success = some start;
          last_attempt = t;
          failures = length ts + 1;
          snapshot = some snapshot;
        })
  unfolding failed_status
  failed_polls_status start events compatible snapshot ts t m =
      let answered = poll_one env k start (some (events, compatible, snapshot)) m in
      let before = status-poll_ok start events compatible snapshot m in
      let counted = poll_failures-IsCounted ts answered in
      let failed = status-poll_failed t (poll_failures ts answered) in
      let failures : failures_of env (status_of (poll_failures ts answered)) ≡ length ts =
        counted.failures ∙ ground (arith, before) in
      let success : last_success_of env (status_of (poll_failures ts answered)) ≡ some start =
        counted.last_success ∙ ap (last_success_of env) before in
      let kept : snapshot_of env (status_of (poll_failures ts answered)) ≡ some snapshot =
        counted.snapshot ∙ ap (snapshot_of env) before in
      failed ∙ rw (failures, success, kept) refl
