-- ===== src/Federation/Urls.antt =====
-- `validate_internal_url` of modules/federation/protocol.py and `validate_browser_url` of
-- modules/federation/service.py, over `urllib.parse` and `ipaddress`.
use runvard.Base.{
  codes, eqb, is_alnum, ℕ, ◌-◌, String, Bool, true, false, Option, none, some, List, [], ◌∷◌, not,
  ◌&&◌, ◌||◌, ltb, ◌==◌, is_blank, or_empty, if◌then◌else◌, value_error, Result, ok, err,
}

-- What `urlsplit` gives. Reading the port may raise.
pub record Url : Type 0 where
  pub scheme : String
  pub netloc : String
  pub username : Option String
  pub password : Option String
  pub path : String
  pub query : String
  pub fragment : String
  pub hostname : Option String
  pub port : Result (Option ℕ)

-- The libraries: addresses and networks are their canonical texts, and `none` stands for a raise.
pub record UrlLibrary : Type 0 where
  pub strip : String → String
  pub rstrip_slash : String → String
  pub urlsplit : String → Url
  pub ip_address : String → Option String
  pub ip_network : String → Option String
  pub ip_version : String → ℕ
  pub is_in : String → String → Bool

is_host_char : ℕ → Bool
is_host_char c = is_alnum c || eqb c b'.' || eqb c b'-'

-- After the first character: `(?:[A-Za-z0-9.-]{0,251}[A-Za-z0-9])?`, with `n` characters allowed.
host_rest : ℕ → List ℕ → Bool
unfolding is_host_char
host_rest n [] = true
host_rest n (c ∷ []) = ltb 0 n && is_alnum c
host_rest n (c ∷ d ∷ cs) = ltb 0 n && is_host_char c && host_rest (n - 1) (d ∷ cs)

host_chars : List ℕ → Bool
unfolding host_rest
host_chars [] = false
host_chars (c ∷ cs) = is_alnum c && host_rest 252 cs

has_colon : List ℕ → Bool
has_colon [] = false
has_colon (c ∷ cs) = eqb c b':' || has_colon cs

unfoldable pub is_hostname : String → Bool
unfolding has_colon host_chars
is_hostname hostname = has_colon (codes hostname) || host_chars (codes hostname)

module _ (U : UrlLibrary) where
  unfoldable pub parse_networks : List String → Option (List String)
  parse_networks [] = some []
  parse_networks (cidr ∷ cidrs) =
      let rest = parse_networks cidrs in
      elim (U.ip_network cidr) [
        | none ↦ none
        | some network ↦ elim rest [ none ↦ none | some networks ↦ some (network ∷ networks) ]
      ]

  unfoldable pub in_any : String → List String → Bool
  in_any address [] = false
  in_any address (network ∷ networks) =
      (eqb (U.ip_version address) (U.ip_version network) && U.is_in address network)
      || in_any address networks

  check_address : String → List String → Result (Unit {0})
  check_address hostname allowed_cidrs = elim (U.ip_address hostname) [
    | none ↦ err (value_error "internal URL must contain a literal IP address")
    | some address ↦ elim (parse_networks allowed_cidrs) [
      | none ↦ err (value_error "allowed network CIDR is invalid")
      | some networks ↦
          if in_any address networks
          then ok tt
          else err (value_error "internal URL is outside the allowed networks")
    ]
  ]

  missing_port : Result (Unit {0})
  missing_port = err (value_error "internal URL must include a literal IP address and port")

  check_host : Url → List String → Result (Unit {0})
  unfolding missing_port
  check_host parsed allowed_cidrs =
      if is_blank parsed.hostname then missing_port else elim parsed.port [
        | err e ↦ err e
        | ok none ↦ missing_port
        | ok (some port) ↦ check_address (or_empty parsed.hostname) allowed_cidrs
      ]

  unfoldable pub validate_internal_url : String → List String → Result String
  unfolding check_host check_address parse_networks in_any
  validate_internal_url value allowed_cidrs =
      let parsed = U.urlsplit (U.strip value) in
      if not (parsed.scheme == "http" || parsed.scheme == "https")
      then err (value_error "internal URL must use HTTP or HTTPS")
      else if not (is_blank parsed.username && is_blank parsed.password)
      then err (value_error "internal URL must not contain credentials")
      else if not
          ((parsed.path == "" || parsed.path == "/") && parsed.query == "" && parsed.fragment == "")
      then err (value_error "internal URL must be an origin without path or query")
      else elim (check_host parsed allowed_cidrs) [
        | err e ↦ err e
        | ok _ ↦ ok (U.rstrip_slash (U.strip value))
      ]

  unfoldable pub validate_browser_url : String → Result String
  validate_browser_url value =
      let parsed = U.urlsplit (U.strip value) in
      if not (parsed.scheme == "http" || parsed.scheme == "https") || parsed.netloc == ""
      then err (value_error "browser URL must be an HTTP(S) origin")
      else if not (
          is_blank parsed.username
          && is_blank parsed.password
          && parsed.query == ""
          && parsed.fragment == "")
      then err (value_error "browser URL must not include credentials, query or fragment")
      else if not (parsed.path == "" || parsed.path == "/")
      then err (value_error "browser URL must not include a path")
      else if not (is_hostname (or_empty parsed.hostname))
      then err (value_error "browser URL contains an invalid hostname")
      else elim parsed.port [
        | err e ↦ err (value_error "browser URL contains an invalid port")
        | ok port ↦ ok (U.rstrip_slash (U.strip value))
      ]
