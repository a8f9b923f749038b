-- ===== src/Server/App.antt =====
-- The handlers of server.py for signing in and out, confirmations and accounts. The state is what they
-- share: the attempts to sign in, the accounts, the tokens and the terminal sessions. Each reading
-- of the clock is an argument: `clock` and `later` in microseconds, `now` in whole seconds.
use runvard.Base.{
  ℕ, String, Bool, true, false, Option, none, some, List, [], ◌∷◌, not, ◌&&◌, ◌||◌, ◌==◌, contains,
  if◌then◌else◌, value_error, permission_error, key_error, runtime_error, http_error, Result, ok,
  err, Action, pure, raise_if, lift, gets, modify, ◌>>=◌, ◌>>◌, or_empty, split,
}
use runvard.Base.Dict
use runvard.Base.Dict.{Dict}
use runvard.Tokens.{
  Stores, Issued, issue_confirm_token, require_confirm_token, issue_terminal_token,
  clear_terminal_tokens,
}
use runvard.Accounts.{
  Account, Hashing, Reply, verify, add_user, set_password, set_role, delete_user,
}
use runvard.Federation.Urls.{UrlLibrary}
use runvard.Server.Session.{
  Coding, Session, make_token, parse_token, session_ttl, session_ttl_remember,
}
use runvard.Server.Requests.{Request, auth, require_admin, unauthorized}
use runvard.Server.Danger.{danger_confirm_meta}
use runvard.Server.Rate.{rate_ok}
use runvard.Server.Terminals.{Sessions, kill_user_sessions}

pub record App : Type 0 where
  pub attempts : Dict (List ℕ)
  pub accounts : Dict Account
  pub tokens : Stores
  pub terminals : Sessions

pub record Library : Type 0 where
  pub coding : Coding
  pub hashing : Hashing
  pub urls : UrlLibrary
  pub lower : String → String

-- What `_is_https` reads: the scheme, `RUNVARD_TRUSTED_PROXIES`, the client and the header.
pub record Connection : Type 0 where
  pub scheme : String
  pub trusted_proxies : String
  pub client : Option String
  pub forwarded_proto : String

pub record Cookie : Type 0 where
  pub value : String
  pub max_age : ℕ
  pub secure : Bool

module _ {A : Type 0} where
  abbrev pub on_attempts : Action (Dict (List ℕ)) A → Action App A
  on_attempts f m = let (r, t) = f m.attempts in (r, record m { attempts = t })

  abbrev pub on_tokens : Action Stores A → Action App A
  on_tokens f m = let (r, t) = f m.tokens in (r, record m { tokens = t })

abbrev pub on_accounts : (Dict Account → Reply × Dict Account) → Action App Reply
on_accounts f m = let (r, t) = f m.accounts in (ok r, record m { accounts = t })

-- `[... for item in configured.split(",") if item.strip()]`, `none` where one cannot be read
proxy_networks : UrlLibrary → List String → Option (List String)
proxy_networks U [] = some []
proxy_networks U (item ∷ items) =
    let rest = proxy_networks U items in
    if U.strip item == "" then rest else elim (U.ip_network (U.strip item)) [
      | none ↦ none
      | some network ↦ elim rest [ none ↦ none | some networks ↦ some (network ∷ networks) ]
    ]

in_networks : UrlLibrary → String → List String → Bool
in_networks U address [] = false
in_networks U address (network ∷ networks) =
    U.is_in address network || in_networks U address networks

abbrev first_part : List String → String
first_part [] = ""
first_part (part ∷ parts) = part

trusted_client : UrlLibrary → (client : String) → (configured : String) → Bool
unfolding proxy_networks in_networks
trusted_client U client configured = elim (U.ip_address client) [
  | none ↦ false
  | some remote ↦ elim (proxy_networks U (split "," configured)) [
    | none ↦ false
    | some networks ↦ in_networks U remote networks
  ]
]

-- `require_danger_confirm`: the token's refusal is a refusal of the request.
abbrev pub as_http : {A : Type 0} → Result A → Result A
as_http (ok a) = ok a
as_http (err (permission_error message)) = err (http_error 403 message)
as_http (err (value_error message)) = err (value_error message)
as_http (err (key_error message)) = err (key_error message)
as_http (err (runtime_error message)) = err (runtime_error message)
as_http (err (http_error status detail)) = err (http_error status detail)

module _ (L : Library) where
  unfoldable pub is_https : Connection → Bool
  unfolding trusted_client
  is_https connection =
      if connection.scheme == "https"
      then true
      else if connection.trusted_proxies == ""
      then false
      else elim connection.client [
        | none ↦ false
        | some client ↦
            trusted_client L.urls client connection.trusted_proxies
            && L.lower (L.urls.strip (first_part (split "," connection.forwarded_proto))) == "https"
      ]

  unfoldable pub session_cookie :
      Connection → (username : String) → (ttl : ℕ) → (role : String) → Bool → ℕ → Cookie
  session_cookie connection username ttl role expert now = record {
    value = make_token L.coding username ttl role expert now;
    max_age = ttl;
    secure = is_https connection;
  }

  -- `if not role: raise`
  abbrev pub known_role : Option String → Result String
  known_role none = err unauthorized
  known_role (some role) = if role == "" then err unauthorized else ok role

  abbrev pub client_of : Connection → String
  client_of connection = elim connection.client [ none ↦ "?" | some client ↦ client ]

  unfoldable pub api_login :
      Connection → (username password remember : String) → (clock now : ℕ) → Action App Cookie
  api_login connection username password remember clock now = do
    allowed ← on_attempts (rate_ok (client_of connection) clock)
    raise_if (not allowed) (http_error 429 "Too many attempts")
    found ← gets (λ m. verify L.hashing username password m.accounts)
    role ← lift (known_role found)
    let ttl = if remember == "1" then session_ttl_remember else session_ttl
    pure (session_cookie connection username ttl role false now)

  abbrev sign_out : Option Session → App → App
  sign_out none m = m
  sign_out (some session) m = record m {
    tokens = clear_terminal_tokens (some session.username) m.tokens;
    terminals = kill_user_sessions (some session.username) m.terminals;
  }

  unfoldable pub api_logout : Request → ℕ → Action App (Unit {0})
  api_logout request now = modify (sign_out (parse_token L.coding request.cookie now))

  unfoldable pub require_danger_confirm :
      (clock : ℕ) → (user action target token : String) → Action App (Unit {0})
  require_danger_confirm clock user action target token m =
      let (r, t) = require_confirm_token clock user action target token m.tokens in
      (as_http r, record m { tokens = t })

  -- `str(form.get("confirm_token", ""))`
  abbrev pub confirm_token : Dict String → String
  confirm_token form = or_empty (Dict.get "confirm_token" form)

  -- The confirmation that a request wants, if it wants one.
  unfoldable pub confirm :
      (clock : ℕ) → (user token : String) → Option (String × String) → Action App (Unit {0})
  confirm clock user token none m = (ok tt, m)
  confirm clock user token (some (action, target)) m =
      require_danger_confirm clock user action target token m

  unfoldable pub confirmed_admin : Request → Dict String → (now clock : ℕ) → Action App String
  confirmed_admin request form now clock = do
    user ← lift (require_admin L.coding request now)
    confirm clock user (confirm_token form) (danger_confirm_meta request.path form)
    pure user

  -- Only an administrator may do what wants a confirmation.
  abbrev pub stricter : Option (String × String) → (user : String) → Result String → Result String
  stricter none user admin = ok user
  stricter (some meta) user admin = admin

  unfoldable pub confirmed_auth : Request → Dict String → (now later clock : ℕ) → Action App String
  confirmed_auth request form now later clock = do
    reader ← lift (auth L.coding request now)
    let meta = danger_confirm_meta request.path form
    user ← lift (stricter meta reader (require_admin L.coding request later))
    confirm clock user (confirm_token form) meta
    pure user

  unfoldable pub api_confirm_token :
      Request
      → (action target : String) → (now clock later : ℕ) → (token : String) → Action App Issued
  api_confirm_token request action target now clock later token = do
    user ← lift (require_admin L.coding request now)
    on_tokens (issue_confirm_token clock later token user action target)

  abbrev role_or_admin : Option Session → String
  role_or_admin none = "admin"
  role_or_admin (some session) = session.role

  unfoldable pub api_expert_mode :
      Connection → Request → (enabled : String) → (now later last : ℕ) → Action App Cookie
  api_expert_mode connection request enabled now later last = do
    user ← lift (require_admin L.coding request now)
    let on = contains ("1" ∷ "true" ∷ "on" ∷ "yes" ∷ []) (L.lower enabled)
    let role = role_or_admin (parse_token L.coding request.cookie later)
    pure (session_cookie connection user session_ttl role on last)

  -- The audit record is left out.
  unfoldable pub api_terminal_authorize :
      Request → (now clock later : ℕ) → (token : String) → Action App Issued
  api_terminal_authorize request now clock later token = do
    user ← lift (require_admin L.coding request now)
    on_tokens (issue_terminal_token clock later token user)

  module _ (request : Request) (form : Dict String) (now clock : ℕ) where
    unfoldable pub accounts_add : (username password role salt : String) → Action App Reply
    accounts_add username password role salt = do
      _ ← confirmed_admin request form now clock
      on_accounts (add_user L.hashing (some username) (some password) role salt)

    unfoldable pub accounts_password : (username password salt : String) → Action App Reply
    accounts_password username password salt = do
      _ ← confirmed_admin request form now clock
      on_accounts (set_password L.hashing username (some password) salt)

    unfoldable pub accounts_role : (username role : String) → Action App Reply
    accounts_role username role = do
      _ ← confirmed_admin request form now clock
      on_accounts (set_role username role)

    unfoldable pub accounts_delete : (username : String) → Action App Reply
    accounts_delete username = do
      _ ← confirmed_admin request form now clock
      on_accounts (delete_user username)
