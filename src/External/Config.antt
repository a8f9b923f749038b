-- ===== src/External/Config.antt =====
-- `_clean_config` and `_clean_credentials`: what a request asks for, checked.
use runvard.Base.{
  ℕ, String, Bool, true, false, Option, none, some, List, [], ◌∷◌, not, ◌&&◌, ◌||◌, leb, ◌==◌,
  contains, is_blank, or_empty, if◌then◌else◌, value_error, Result, ok, err, prefix, starts_with,
}
use runvard.Federation.Urls.{Url, UrlLibrary, parse_networks, in_any}

pub data Kind : Type 0 where
  generic : Kind
  proxmox : Kind
  linux : Kind
  windows : Kind

pub record Library : Type 0 where
  pub urls : UrlLibrary
  pub open urls use *
  pub lower : String → String
  -- `int`, `none` where it raises
  pub int : String → Option ℕ

-- A flag as it comes: absent, a Boolean, or another value as its text.
pub data Flag : Type 0 where
  absent : Flag
  flag : Bool → Flag
  other : String → Flag

-- The fields of a request; an absent one is the empty text.
pub record RawConfig : Type 0 where
  pub name : String
  pub kind : String
  pub admin_url : String
  pub enabled : Flag
  pub verify_tls : Flag
  pub host : String
  pub port : String
  pub username : String
  pub host_key : String
  pub status_url : String
  pub node : String

-- The checked fields; one that the kind does not have is empty.
pub record Config : Type 0 where
  pub name : String
  pub kind : Kind
  pub admin_url : String
  pub enabled : Bool
  pub verify_tls : Bool
  pub host : String
  pub port : ℕ
  pub username : String
  pub host_key : String
  pub status_url : String
  pub node : String

pub record Credentials : Type 0 where
  pub private_key : String
  pub passphrase : String
  pub token_id : String
  pub token_secret : String
  pub password : String

abbrev pub default_allowed_cidrs : List String
default_allowed_cidrs =
    "10.0.0.0/8" ∷ "172.16.0.0/12" ∷ "192.168.0.0/16" ∷ "100.64.0.0/10" ∷ "fd00::/8" ∷ []

abbrev pub is_generic : Kind → Bool
is_generic Kind.generic = true
is_generic _ = false

abbrev is_windows : Kind → Bool
is_windows Kind.windows = true
is_windows _ = false

abbrev is_linux : Kind → Bool
is_linux Kind.linux = true
is_linux _ = false

-- A test that raises, and what comes after it.
abbrev check : {A : Type 0} → Bool → String → Result A → Result A
check bad message rest = if bad then err (value_error message) else rest

abbrev bind : {A B : Type 0} → Result A → (A → Result B) → Result B
bind (ok a) f = f a
bind (err e) f = err e

module _ (L : Library) where
  -- The networks are constants that `ip_network` reads.
  unfoldable pub private_address : String → Result String
  private_address value = elim (L.ip_address (L.strip value)) [
    | none ↦ err (value_error "host must be a literal private IP address")
    | some address ↦ elim (parse_networks L.urls default_allowed_cidrs) [
      | none ↦ err (value_error "invalid network")
      | some networks ↦
          if in_any L.urls address networks
          then ok address
          else err (value_error "host is outside the allowed private networks")
    ]
  ]

  unfoldable pub validate_admin_url : String → Result String
  validate_admin_url value =
      let parsed = L.urlsplit (L.strip value) in
      check (not (parsed.scheme == "http" || parsed.scheme == "https") || parsed.netloc == "")
        "administration URL must use HTTP or HTTPS"
        (check (not (is_blank parsed.username && is_blank parsed.password))
          "administration URL must not contain credentials" (ok (L.strip value)))

  -- The tests of the host and the port.
  status_host : Url → Result String
  status_host parsed =
      let missing : Result String =
        err (value_error "status URL must include a literal private IP and port") in
      if is_blank parsed.hostname then missing else elim parsed.port [
        | err e ↦ err e
        | ok none ↦ missing
        | ok (some port) ↦ private_address (or_empty parsed.hostname)
      ]

  unfoldable pub validate_status_url : String → Bool → Result String
  unfolding status_host
  validate_status_url value for_windows =
      let parsed = L.urlsplit (L.strip value) in
      check (not (parsed.scheme == "http" || parsed.scheme == "https"))
        "status URL must use HTTP or HTTPS"
        (check (for_windows && not (parsed.scheme == "https")) "Windows status URL must use HTTPS" (
          check
            (not (
              is_blank parsed.username
              && is_blank parsed.password
              && parsed.query == ""
              && parsed.fragment == ""))
            "status URL must not contain credentials or query data"
            (bind (status_host parsed) λ address.
              check (for_windows && not (L.rstrip_slash parsed.path == "/wsman"))
                "Windows status URL must end with /wsman" (ok (L.rstrip_slash (L.strip value))))))

  -- `_bool`
  unfoldable pub to_bool : Flag → Bool → Bool
  to_bool Flag.absent default = default
  to_bool (Flag.flag b) default = b
  to_bool (Flag.other t) default = contains ("1" ∷ "true" ∷ "yes" ∷ "on" ∷ []) (L.lower t)

  -- `KINDS`
  unfoldable pub kind_of : String → Result Kind
  kind_of name =
      if name == "generic"
      then ok Kind.generic
      else if name == "proxmox"
      then ok Kind.proxmox
      else if name == "linux"
      then ok Kind.linux
      else if name == "windows"
      then ok Kind.windows
      else err (value_error "unsupported server type")

  -- `int(port or 22)`
  port_of : String → Result ℕ
  port_of digits = if digits == "" then ok 22 else elim (L.int digits) [
    | none ↦ err (value_error "invalid literal for int()")
    | some port ↦ ok port
  ]

  linux_config : RawConfig → Config → Result Config
  unfolding port_of
  linux_config source base = bind (private_address source.host) λ host.
      bind (port_of source.port) λ port.
        let username = prefix 128 (L.strip source.username) in
        let host_key = prefix 256 (L.strip source.host_key) in
        check (not (leb 1 port && leb port 65535)) "SSH port is invalid" (
          check (username == "") "SSH username is required" (
            check (not (starts_with host_key "SHA256:")) "SSH host key fingerprint is required" (
              ok (record base {
                host = host;
                port = port;
                username = username;
                host_key = host_key;
              }))))

  url_config : Kind → RawConfig → Config → Result Config
  url_config kind source base =
      bind (validate_status_url source.status_url (is_windows kind)) λ status_url. elim kind [
        | Kind.proxmox ↦
            ok (record base { status_url = status_url; node = prefix 80 (L.strip source.node) })
        | Kind.windows ↦
            let username = prefix 128 (L.strip source.username) in
            check (username == "") "WinRM username is required"
              (ok (record base { status_url = status_url; username = username }))
        | _ ↦ ok (record base { status_url = status_url })
      ]

  unfoldable pub clean_config : RawConfig → Result Config
  unfolding linux_config url_config
  clean_config source = bind (kind_of (L.lower (L.strip source.kind))) λ kind.
      bind (validate_admin_url source.admin_url) λ admin_url.
        let name = prefix 80 (L.strip source.name) in
        let base : Config = record {
          name = name;
          kind = kind;
          admin_url = admin_url;
          enabled = to_bool source.enabled true;
          verify_tls = to_bool source.verify_tls true;
          host = "";
          port = 0;
          username = "";
          host_key = "";
          status_url = "";
          node = "";
        } in
        check (name == "") "server name is required"
          (if is_linux kind then linux_config source base else url_config kind source base)

  abbrev pub no_credentials : Credentials
  no_credentials = record {
    private_key = "";
    passphrase = "";
    token_id = "";
    token_secret = "";
    password = "";
  }

  -- What the kind needs of the credentials.
  unfoldable pub kept_credentials : Kind → Credentials → Credentials
  kept_credentials Kind.linux c = record no_credentials {
    private_key = c.private_key;
    passphrase = c.passphrase;
  }
  kept_credentials Kind.proxmox c = record no_credentials {
    token_id = L.strip c.token_id;
    token_secret = L.strip c.token_secret;
  }
  kept_credentials Kind.windows c = record no_credentials { password = c.password }
  kept_credentials Kind.generic c = no_credentials

  unfoldable pub is_complete : Kind → Credentials → Bool
  is_complete Kind.linux c = not (L.strip c.private_key == "")
  is_complete Kind.proxmox c = not (c.token_id == "") && not (c.token_secret == "")
  is_complete Kind.windows c = not (c.password == "")
  is_complete Kind.generic c = true

  abbrev pub credentials_of : Option Credentials → Credentials
  credentials_of none = no_credentials
  credentials_of (some c) = c

  -- `none` is the empty dict, which the result is too for a generic server.
  unfoldable pub clean_credentials : Kind → Option Credentials → Bool → Result (Option Credentials)
  clean_credentials kind credentials required =
      let result = kept_credentials kind (credentials_of credentials) in
      let complete = is_complete kind result in
      if required && not complete
      then err (value_error "credentials are incomplete")
      else if complete && not (is_generic kind)
      then ok (some result)
      else ok none
