-- ===== src/Federation/Nonces.antt =====
-- `NonceCache` of modules/federation/protocol.py: the requests that were seen, with their times.
-- The cache is the dict of the federation state; its `ttl` and `limit` are the section's.
pub mod Replay
pub mod Size
use runvard.Base.{
  ℕ, ◌+◌, String, ◌<>◌, Bool, Option, none, some, [], ◌∷◌, ltb, leb, is_some, length, if◌then◌else◌,
  value_error, Result, ok, err, Action,
}
use runvard.Base.Dict
use runvard.Base.Dict.{Dict}

abbrev pub nonce_ttl : ℕ
nonce_ttl = 120

abbrev pub nonce_limit : ℕ
nonce_limit = 4096

abbrev earlier : String → ℕ → Option (String × ℕ) → Option (String × ℕ)
earlier k seen none = some (k, seen)
earlier k seen (some (j, best)) = if leb seen best then some (k, seen) else some (j, best)

-- `min(self.values, key=lambda item: self.values[item])`: the first of the least
unfoldable pub oldest : Dict ℕ → Option (String × ℕ)
oldest [] = none
oldest ((k, seen) ∷ d) = earlier k seen (oldest d)

drop : Option (String × ℕ) → Dict ℕ → Dict ℕ
drop none d = d
drop (some (k, seen)) d = Dict.erase k d

unfoldable pub drop_oldest : Dict ℕ → Dict ℕ
unfolding drop
drop_oldest d = drop (oldest d) d

abbrev pub replay : Result (Unit {0})
replay = err (value_error "request replay detected")

abbrev pub nonce_key : String → String → String
nonce_key sender nonce = sender <> (":" <> nonce)

-- `int(seen) < int(now) - self.ttl`
abbrev pub is_stale : ℕ → ℕ → ℕ → Bool
is_stale ttl now seen = ltb (seen + ttl) now

-- Room for one more entry.
unfoldable pub room : ℕ → Dict ℕ → Dict ℕ
room limit d = if leb limit (length d) then drop_oldest d else d

module _ (ttl limit : ℕ) where
  unfoldable pub consume : (sender nonce : String) → ℕ → Action (Dict ℕ) (Unit {0})
  consume sender nonce now values =
      let fresh = Dict.prune (is_stale ttl now) values in
      let key = nonce_key sender nonce in
      if is_some (Dict.get key fresh)
      then (replay, fresh)
      else (ok tt, Dict.insert key now (room limit fresh))
