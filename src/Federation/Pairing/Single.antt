-- ===== src/Federation/Pairing/Single.antt =====
-- When a pairing code is accepted, and that it is accepted once.
use runvard.Base.{
  ℕ, ◌+◌, String, ◌≡◌, ◌≢◌, refl, Bool, true, false, Option, none, some, List, [], ◌∷◌, ltb, leb,
  length, arith, if◌then◌else◌, value_error, Result, ok, err, reply, after, ◌==◌,
}
use runvard.Base.Dict
use runvard.Federation.Pairing.{
  Code, PairingCodes, recent_failures, max_failures, pairing_ttl, issue, consume,
}

pub record Request : Type 0 where
  pub code : String
  pub remote : String
  pub time : ℕ

-- The reply to a code with this entry, at a remote that has not failed too often.
abbrev pub code_verdict : ℕ → Option Code → Result Bool
code_verdict current none = err (value_error "invalid pairing code")
code_verdict current (some entry) =
    if entry.used
    then err (value_error "pairing code was already used")
    else if ltb entry.expires_at current
    then err (value_error "pairing code expired")
    else ok true

module _ (digest : String → String) where
  -- A pairing request is refused outright if its remote has failed five times in the last minute;
  -- otherwise it is accepted exactly if its code is stored, unused and not expired.
  pub consume-verdict :
      (code remote : String) (current : ℕ) (s : PairingCodes)
      → reply (consume digest code remote current) s ≡ (
          if leb max_failures (length (recent_failures current remote s))
          then err (value_error "pairing rate limit exceeded")
          else code_verdict current (Dict.get (digest code) s.values))
  unfolding consume
  consume-verdict code remote current s = ground arith

  -- The code is stored and has been used.
  abbrev spent : Option Code → Bool
  spent none = false
  spent (some entry) = entry.used

  abbrev is_spent : String → PairingCodes → Bool
  is_spent code s = spent (Dict.get (digest code) s.values)

  consume-spends :
      (code remote : String) (t : ℕ) (s : PairingCodes)
      → reply (consume digest code remote t) s ≡ ok true
      → is_spent code (after (consume digest code remote t) s) ≡ true
  unfolding consume
  consume-spends code remote t s h = go (Dict.get (digest code) s.values) refl
    where
      go :
          (o : Option Code)
          → Dict.get (digest code) s.values ≡ o
          → is_spent code (after (consume digest code remote t) s) ≡ true
      go none e = absurd (ground arith)
      go (some entry) e = ground (
        arith,
        Dict.get-insert (digest code) (digest code) (record entry { used = true }) s.values,
      )

  consume-keeps_spent :
      (code other remote : String) (t : ℕ) (s : PairingCodes)
      → is_spent code s ≡ true
      → is_spent code (after (consume digest other remote t) s) ≡ true
  unfolding consume
  consume-keeps_spent code other remote t s h = go (Dict.get (digest other) s.values) refl
    where
      go :
          (o : Option Code)
          → Dict.get (digest other) s.values ≡ o
          → is_spent code (after (consume digest other remote t) s) ≡ true
      go none e = ground arith
      go (some entry) e = ground (
        arith,
        Dict.get-insert (digest code) (digest other) (record entry { used = true }) s.values,
      )

  -- The state after a sequence of pairing requests.
  abbrev pub after_requests : List Request → PairingCodes → PairingCodes
  after_requests [] s = s
  after_requests (r ∷ rs) s = after_requests rs (after (consume digest r.code r.remote r.time) s)

  after_requests-keeps_spent :
      (code : String) (rs : List Request) (s : PairingCodes)
      → is_spent code s ≡ true
      → is_spent code (after_requests rs s) ≡ true
  after_requests-keeps_spent code [] s h = h
  after_requests-keeps_spent code (r ∷ rs) s h =
      after_requests-keeps_spent code rs _ (consume-keeps_spent code r.code r.remote r.time s h)

  -- A code that was accepted is refused ever after, for every remote, at any time, and whatever
  -- pairing requests come in between.
  pub consume_once :
      (code remote remote' : String) (t t' : ℕ) (rs : List Request) (s : PairingCodes)
      → reply (consume digest code remote t) s ≡ ok true
      → reply
          (consume digest code remote' t')
          (after_requests rs (after (consume digest code remote t) s))
        ≢ ok true
  consume_once code remote remote' t t' rs s h again =
      let used = after (consume digest code remote t) s in
      let s' = after_requests rs used in
      ground (
        arith,
        consume-verdict code remote' t' s',
        after_requests-keeps_spent code rs used (consume-spends code remote t s h),
      )

  -- A new code is the only one: every code of another hash is unknown, and the new one is accepted
  -- up to 600 seconds after its issue, by a remote that has not failed too often.
  pub consume-issue :
      (new code remote : String) (created t : ℕ) (s : PairingCodes)
      → leb max_failures (length (recent_failures t remote s)) ≡ false
      → reply (consume digest code remote t) (after (issue digest created new) s) ≡ (
          if digest new == digest code
          then (if leb t (created + 600) then ok true else err (value_error "pairing code expired"))
          else err (value_error "invalid pairing code"))
  unfolding consume issue
  consume-issue new code remote created t s calm = ground (
    arith,
    Dict.get-insert {V = Code} (digest code) (digest new)
        (record { created_at = created; expires_at = created + pairing_ttl; used = false }) [],
    Dict.get-nil {V = Code} (digest code),
  )
