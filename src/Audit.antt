-- ===== src/Audit.antt =====
-- modules/audit.py: what is written of an event. `str.lower` is a parameter, and a value is kept as it is. The
-- file that `record_event` appends to is a list.
use runvard.Base.{
  ℕ, String, ◌≡◌, refl, Bool, false, Option, none, some, List, [], ◌∷◌, ◌++◌, ◌||◌, ◌==◌, ==→≡,
  Bool-cases, inl, inr, starts_with, if◌then◌else◌, subst,
}
use runvard.Base.Dict
use runvard.Base.Dict.{Dict}

-- `sub in text`
unfoldable pub has_text : (text sub : String) → Bool
has_text String.[] sub = sub == ""
has_text (String.◌∷◌ c text) sub =
    let rest = has_text text sub in starts_with (String.◌∷◌ c text) sub || rest

abbrev pub secret_keys : List String
secret_keys = "password" ∷ "token" ∷ "confirm_token" ∷ "secret" ∷ "key" ∷ []

abbrev has_any : String → List String → Bool
has_any text [] = false
has_any text (sub ∷ subs) = has_text text sub || has_any text subs

-- An event. The time is an argument.
pub record AuditEvent : Type 0 where
  pub time : ℕ
  pub user : String
  pub action : String
  pub target : String
  pub ok : Bool
  pub remote : String
  pub payload : Dict String

module _ (lower : String → String) where
  abbrev pub is_secret : String → Bool
  is_secret key = has_any (lower key) secret_keys

  abbrev pub redacted : (key value : String) → String
  redacted key value = if is_secret key then "<redacted>" else value

  unfoldable pub sanitize_payload : Dict String → Dict String
  sanitize_payload [] = []
  sanitize_payload ((key, value) ∷ payload) = (key, redacted key value) ∷ sanitize_payload payload

  abbrev payload_or_empty : Option (Dict String) → Dict String
  payload_or_empty none = []
  payload_or_empty (some payload) = sanitize_payload payload

  unfoldable pub record_event :
      (now : ℕ)
      → (user action target : String) → (is_ok : Bool) → (remote : String) → Option (Dict String)
      → List AuditEvent
      → List AuditEvent
  record_event now user action target is_ok remote payload log =
      log
      ++ (record {
        time = now;
        user = user;
        action = action;
        target = target;
        ok = is_ok;
        remote = remote;
        payload = payload_or_empty payload;
      }
          ∷ [])

  abbrev pub redacted_at : (key : String) → Option String → Option String
  redacted_at key none = none
  redacted_at key (some value) = some (redacted key value)

  -- What is written under a key is the redaction mark if the key looks like a secret's, and otherwise the
  -- value that was there; no key is added or lost.
  pub get-sanitize_payload :
      (key : String) (payload : Dict String)
      → Dict.get key (sanitize_payload payload) ≡ redacted_at key (Dict.get key payload)
  unfolding sanitize_payload Dict.get
  get-sanitize_payload key [] = refl
  get-sanitize_payload key ((other, value) ∷ payload) = elim (Bool-cases (other == key)) [
    | inl e ↦
        rw (e) (
          subst (λ k. some (redacted other value) ≡ some (redacted k value)) (==→≡ other key e)
            refl)
    | inr e ↦ rw (e) (get-sanitize_payload key payload)
  ]
