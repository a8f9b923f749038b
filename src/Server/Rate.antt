-- ===== src/Server/Rate.antt =====
-- `_rate_ok` of server.py: at most five attempts to sign in a minute, for each address. The clock
-- counts microseconds.
use runvard.Base.{
  ℕ, ◌+◌, String, Bool, Option, none, some, List, [], ◌∷◌, ◌++◌, ltb, leb, length, keep, Action, ok,
}
use runvard.Base.Dict
use runvard.Base.Dict.{Dict}

abbrev pub minute : ℕ
minute = 60_000_000

abbrev pub or_nil : Option (List ℕ) → List ℕ
or_nil none = []
or_nil (some items) = items

-- `now - t < 60`
abbrev pub is_recent : ℕ → ℕ → Bool
is_recent now t = ltb now (t + minute)

-- The attempts of the last minute, with this one.
unfoldable pub bucket : (ip : String) → ℕ → Dict (List ℕ) → List ℕ
bucket ip now attempts = keep (is_recent now) (or_nil (Dict.get ip attempts)) ++ (now ∷ [])

unfoldable pub rate_ok : (ip : String) → ℕ → Action (Dict (List ℕ)) Bool
rate_ok ip now attempts =
    (ok (leb (length (bucket ip now attempts)) 5), Dict.insert ip (bucket ip now attempts) attempts)
