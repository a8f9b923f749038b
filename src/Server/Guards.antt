-- ===== src/Server/Guards.antt =====
-- What the guards of the routes let through.
use runvard.Base.{
  split_once, Bool-cases, ◌==◌, ==→≡, ◌∙◌, ap, ℕ, String, ◌≡◌, refl, inl, inr, Option, none, some,
  arith, Option-cases, ok, reply,
}
use runvard.Base.Dict
use runvard.Base.Dict.{Dict, NodupKeys}
use runvard.Tokens.{Stores}
use runvard.Tokens.Confirm.{verdict, require_confirm-verdict}
use runvard.Server.Session.{Coding, Session, signed_payload, read_payload, parse_token}
use runvard.Server.Requests.{Request, require_admin}
use runvard.Server.Danger.{danger_confirm_meta}
use runvard.Server.App.{
  App, Library, confirm, confirm_token, confirmed_admin, require_danger_confirm,
}

-- The cookie is two parts around a point, the second of which decodes to the server's MAC of what the
-- first decodes to, and that says the session, which has not expired.
pub record IsSigned (C : Coding) (cookie : Option String) (now : ℕ) (session : Session)
    : Type 0 where
  pub token : String
  pub payload : String
  pub sent : cookie ≡ some token
  pub body : String
  pub signature : String
  pub parts : split_once "." token ≡ some (body, signature)
  pub decoded : C.b64d body ≡ some payload
  pub signed : C.b64d signature ≡ some (C.mac payload)
  pub says : read_payload C payload now ≡ some session

parse_token-IsSigned :
    (C : Coding) (cookie : Option String) (now : ℕ) (session : Session)
    → parse_token C cookie now ≡ some session
    → IsSigned C cookie now session
unfolding parse_token signed_payload
parse_token-IsSigned C none now session h = absurd (ground arith)
parse_token-IsSigned C (some token) now session h = elim (Option-cases (split_once "." token)) [
  | inl e ↦ absurd (ground arith)
  | inr ((body, signature), parts) ↦ elim (Option-cases (C.b64d body)) [
    | inl e ↦ absurd (ground arith)
    | inr (payload, decoded) ↦ elim (Option-cases (C.b64d signature)) [
      | inl e ↦ absurd (ground arith)
      | inr (mac, e) ↦ elim (Bool-cases (mac == C.mac payload)) [
        | inr differs ↦ absurd (ground arith)
        | inl same ↦ record {
          token = token;
          payload = payload;
          sent = refl;
          body = body;
          signature = signature;
          parts = parts;
          decoded = decoded;
          signed = e ∙ ap some (==→≡ mac (C.mac payload) same);
          says = ground arith;
        }
      ]
    ]
  ]
]

-- A request that an administrator's session made.
pub record IsByAdmin (C : Coding) (request : Request) (now : ℕ) (user : String) : Type 0 where
  pub session : Session
  pub signed : IsSigned C request.cookie now session
  pub named : session.username ≡ user
  pub admin : session.role ≡ "admin"

require_admin-IsByAdmin :
    (C : Coding) (request : Request) (now : ℕ) (user : String)
    → require_admin C request now ≡ ok user
    → IsByAdmin C request now user
unfolding require_admin
require_admin-IsByAdmin C request now user h =
    elim (Option-cases (parse_token C request.cookie now)) [
      | inl e ↦ absurd (ground arith)
      | inr (session, e) ↦ record {
        session = session;
        signed = parse_token-IsSigned C request.cookie now session e;
        named = ground arith;
        admin = ground arith;
      }
    ]

-- What a request without a confirmation, or with the one that it wants, has shown.
abbrev pub IsConfirmed :
    (clock : ℕ) → (user token : String) → Option (String × String) → Stores → Type 0
IsConfirmed clock user token none tokens = Unit
IsConfirmed clock user token (some (action, target)) tokens =
    verdict clock user action target (Dict.get token tokens.confirm) ≡ ok tt

confirm-IsConfirmed :
    (L : Library) (clock : ℕ) (user token : String) (meta : Option (String × String)) (m : App)
    → NodupKeys m.tokens.confirm
    → reply (confirm L clock user token meta) m ≡ ok tt
    → IsConfirmed clock user token meta m.tokens
unfolding confirm require_danger_confirm
confirm-IsConfirmed L clock user token none m distinct h = tt
confirm-IsConfirmed L clock user token (some (action, target)) m distinct h =
    ground (arith, require_confirm-verdict m.tokens clock user action target token distinct)

module _ (L : Library) (request : Request) (form : Dict String) where
  -- A request that passes `confirmed_admin` comes from a session of an administrator, and where the
  -- path and the form make it a dangerous one, it shows a confirmation that was issued to that user
  -- for this action on this target and has not expired. The store is assumed to list no token twice.
  pub confirmed_admin-IsConfirmed :
      (now clock : ℕ) (m : App) {user : String}
      → NodupKeys m.tokens.confirm
      → reply (confirmed_admin L request form now clock) m ≡ ok user
      → IsByAdmin L.coding request now user
        × IsConfirmed clock user
            (confirm_token L form)
            (danger_confirm_meta request.path form)
            m.tokens
  unfolding confirmed_admin
  confirmed_admin-IsConfirmed now clock m {user} distinct h =
      let admin : require_admin L.coding request now ≡ ok user = ground arith in
      let shown : reply
            (confirm L clock user (confirm_token L form) (danger_confirm_meta request.path form)) m
          ≡ ok tt =
        ground (arith, admin) in
      (
        require_admin-IsByAdmin L.coding request now user admin,
        confirm-IsConfirmed L clock user (confirm_token L form)
            (danger_confirm_meta request.path form) m distinct shown,
      )
