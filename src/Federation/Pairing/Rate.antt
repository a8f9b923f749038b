-- ===== src/Federation/Pairing/Rate.antt =====
-- The limit on failed pairing requests: five in a minute, for each remote.
use runvard.Base.{
  ℕ, ◌+◌, ◌≤◌, ◌<◌, String, ◌≡◌, refl, Bool, Option, none, some, List, [], ◌∷◌, ◌++◌, ltb, leb,
  length, keep, All, arith, if◌then◌else◌, value_error, err, reply, after, ◌==◌, length-keep-le,
  not, ◌&&◌, count_if, count_if-keep, count_if-append, count_if-le, is_some, length-append,
}
use runvard.Base.Dict
use runvard.Federation.Pairing.Single.{Request, after_requests, consume-verdict}
use runvard.Federation.Pairing.{Code, PairingCodes, recent_failures, max_failures, or_nil, consume}

abbrev failed : String → PairingCodes → List ℕ
failed remote s = or_nil (Dict.get remote s.failures)

module _ (digest : String → String) (code remote : String) (t : ℕ) (s : PairingCodes) where
  -- The code was looked up and is not stored, so the request counts as a failure.
  abbrev pub is_failure : Bool
  is_failure =
      not (leb max_failures (length (recent_failures t remote s)))
      && not (is_some (Dict.get (digest code) s.values))

  -- What a request leaves as its remote's failures.
  abbrev counted : List ℕ
  counted =
      if is_failure then recent_failures t remote s ++ (t ∷ []) else recent_failures t remote s

  failed-consume :
      (r : String)
      → failed r (after (consume digest code remote t) s)
        ≡ (if remote == r then counted else failed r s)
  unfolding consume
  failed-consume r = go (Dict.get (digest code) s.values) refl
    where
      recent : List ℕ
      recent = recent_failures t remote s

      go :
          (o : Option Code)
          → Dict.get (digest code) s.values ≡ o
          → failed r (after (consume digest code remote t) s)
            ≡ (if remote == r then counted else failed r s)
      go none e = ground (
        arith,
        Dict.get-insert r remote recent s.failures,
        Dict.get-insert r remote (recent ++ (t ∷ [])) (Dict.insert remote recent s.failures),
      )
      go (some entry) e = ground (arith, Dict.get-insert r remote recent s.failures)

  -- Within the minute after `start` no failure since then is forgotten.
  since-consume :
      (r : String) (start : ℕ)
      → start ≤ t
      → t < start + 60
      → count_if (leb start) (failed r (after (consume digest code remote t) s))
        ≡ count_if (leb start) (failed r s) + (if remote == r && is_failure then 1 else 0)
  unfolding recent_failures
  since-consume r start h k = ground (
    arith,
    failed-consume r,
    count_if-append (leb start) (recent_failures t remote s) (t ∷ []),
    count_if-keep (leb start) (λ item. ltb t (item + 60)) (failed remote s) (λ i e. ground arith),
  )

module _ (digest : String → String) (r : String) (start : ℕ) where
  -- How many of the requests are failures of the remote `r`.
  abbrev pub failures_in : List Request → PairingCodes → ℕ
  failures_in [] s = 0
  failures_in (q ∷ qs) s =
      (if q.remote == r && is_failure digest q.code q.remote q.time s then 1 else 0)
      + failures_in qs (after (consume digest q.code q.remote q.time) s)

  abbrev pub WithinMinute : Request → Type 0
  WithinMinute q = (start ≤ q.time) × (q.time < start + 60)

  since-after_requests :
      (qs : List Request) (s : PairingCodes)
      → All WithinMinute qs
      → count_if (leb start) (failed r (after_requests digest qs s))
        ≡ count_if (leb start) (failed r s) + failures_in qs s
  since-after_requests [] s h = omega arith
  since-after_requests (q ∷ qs) s ((from, to), h) = omega (
    arith,
    since-after_requests qs (after (consume digest q.code q.remote q.time) s) h,
    since-consume digest q.code q.remote q.time s r start from to,
  )

  -- Five failures of a remote lock it out: if, among any requests of any remotes in the minute from
  -- `start`, five or more of the remote's are failures, then for the rest of that minute each of its
  -- requests is refused, also one with a valid code.
  pub five_failures_lock :
      (qs : List Request) (code : String) (t : ℕ) (s : PairingCodes)
      → All WithinMinute qs
      → 5 ≤ failures_in qs s
      → t < start + 60
      → reply (consume digest code r t) (after_requests digest qs s)
        ≡ err (value_error "pairing rate limit exceeded")
  unfolding recent_failures
  five_failures_lock qs code t s h five before =
      let s' = after_requests digest qs s in
      let recent = recent_failures t r s' in
      ground (
        arith,
        consume-verdict digest code r t s',
        since-after_requests qs s h,
        count_if-keep (leb start) (λ item. ltb t (item + 60)) (failed r s') (λ i e. ground arith),
        count_if-le (leb start) (keep (λ item. ltb t (item + 60)) (failed r s')),
      )

-- No remote has more than five failures stored.
pub record IsLimited (s : PairingCodes) : Type 0 where
  pub at_remote : (r : String) → length (failed r s) ≤ 5

-- A request keeps every remote's failures within five, whatever it replies.
pub consume-IsLimited :
    (digest : String → String) (code remote : String) (t : ℕ) (s : PairingCodes)
    → IsLimited s
    → IsLimited (after (consume digest code remote t) s)
unfolding recent_failures
consume-IsLimited digest code remote t s h = record {
  at_remote = λ r. ground (
    arith,
    failed-consume digest code remote t s r,
    h.at_remote r,
    h.at_remote remote,
    length-keep-le (λ (item : ℕ). ltb t (item + 60)) (failed remote s),
    length-append (keep (λ (item : ℕ). ltb t (item + 60)) (failed remote s)) (t ∷ []),
  );
}
