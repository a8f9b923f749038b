-- ===== src/Federation/Pairing.antt =====
-- modules/federation/pairing.py: short-lived, single-use pairing codes with a limit on failures.
-- `digest` stands for the hash of a code; the clock, in seconds, and the random code are arguments.
pub mod Single
pub mod Rate
use runvard.Base.{
  ℕ, ◌+◌, String, Bool, true, false, Option, none, some, List, [], ◌∷◌, ◌++◌, ltb, leb, length,
  keep, if◌then◌else◌, value_error, Action, pure, raise, raise_if, modify, err, ◌>>=◌, ◌>>◌,
}
use runvard.Base.Dict
use runvard.Base.Dict.{Dict}

abbrev pub pairing_ttl : ℕ
pairing_ttl = 600

abbrev pub max_failures : ℕ
max_failures = 5

pub record Code : Type 0 where
  pub created_at : ℕ
  pub expires_at : ℕ
  pub used : Bool

-- The two dicts of a `PairingCodes`, which the federation state keeps.
pub record PairingCodes : Type 0 where
  pub values : Dict Code
  pub failures : Dict (List ℕ)

abbrev pub or_nil : Option (List ℕ) → List ℕ
or_nil none = []
or_nil (some items) = items

-- The failures of the last minute: `current - item < 60`.
unfoldable pub recent_failures : ℕ → String → PairingCodes → List ℕ
recent_failures current remote s =
    keep (λ item. ltb current (item + 60)) (or_nil (Dict.get remote s.failures))

abbrev pub set_failures : String → List ℕ → PairingCodes → PairingCodes
set_failures remote items s = record s { failures = Dict.insert remote items s.failures }

module _ (digest : String → String) where
  -- `self.values.clear()`, and the one new code.
  unfoldable pub issue : ℕ → String → Action PairingCodes String
  issue created code = do
    modify (λ s. record s { values = [] })
    let entry : Code = record {
      created_at = created;
      expires_at = created + pairing_ttl;
      used = false;
    }
    modify (λ s. record s { values = Dict.insert (digest code) entry s.values })
    pure code

  -- `entry["used"] = True`
  mark_used : String → Code → PairingCodes → PairingCodes
  mark_used code entry s = record s {
    values = Dict.insert (digest code) (record entry { used = true }) s.values;
  }

  -- A wrong code is counted: `recent` is the list that `failures` holds.
  check_code : String → String → ℕ → List ℕ → Option Code → Action PairingCodes Bool
  check_code code remote current recent none = do
    modify (set_failures remote (recent ++ (current ∷ [])))
    raise (value_error "invalid pairing code")
  check_code code remote current recent (some entry) = do
    raise_if entry.used (value_error "pairing code was already used")
    raise_if (ltb entry.expires_at current) (value_error "pairing code expired")
    modify (mark_used code entry)
    pure true

  unfoldable pub consume : String → String → ℕ → Action PairingCodes Bool
  unfolding mark_used check_code recent_failures
  consume code remote current s =
      let recent = recent_failures current remote s in
      let counted = set_failures remote recent s in
      if leb max_failures (length recent)
      then (err (value_error "pairing rate limit exceeded"), counted)
      else check_code code remote current recent (Dict.get (digest code) s.values) counted
