-- ===== src/Federation/Manager.antt =====
-- modules/federation/service.py: `FederationManager`, the operations of one server. `state` is the
-- state in memory and `saved` the one on disk. The node's own identity and host name, and the
-- libraries, are the parameter `Env`; clock readings, random tokens and the answers of other servers
-- are arguments. Where the code returns `overview()` the model returns nothing.
pub mod Pair
pub mod Peers
pub mod Calls
pub mod Lasting
pub mod Access
pub mod Limit
pub mod Health
use runvard.Base.{
  prefix, ℕ, ◌+◌, ◌<>◌, String, Bool, true, false, Option, none, some, List, [], ◌∷◌, not, ◌&&◌,
  ◌||◌, leb, ltb, ◌==◌, or_empty, or_zero, if◌then◌else◌, value_error, Result, ok, err, length,
  keep, Action, pure, raise, raise_if, modify, gets, lift, continue, ◌>>=◌, ◌>>◌,
}
use runvard.Base.Dict
use runvard.Base.Dict.{Dict, values}
use runvard.Federation.Types.{
  Node, Info, Event, Membership, Payload, PairProof, PairResponse, Claim,
}
use runvard.Federation.Crypto.{Library, NodeIdentity, sign_payload}
use runvard.Federation.Membership.{
  create_event, apply_event, node_joined, node_updated, node_revoked,
}
use runvard.Federation.Pairing.{PairingCodes}
use runvard.Federation.Sso.{Codec, Pending}
use runvard.Federation.Urls.{UrlLibrary, validate_internal_url, validate_browser_url}

pub record Settings : Type 0 where
  pub name : String
  pub internal_url : String
  pub browser_url : String
  pub allowed_cidrs : List String

-- What the last polls of a peer gave.
pub record PeerStatus : Type 0 where
  pub health : String
  pub last_success : Option ℕ
  pub last_attempt : ℕ
  pub failures : ℕ
  pub snapshot : Option String

-- `default_state`
pub record State : Type 0 where
  pub enabled : Bool
  pub settings : Settings
  pub membership : Membership
  pub open membership use *
  pub peer_status : Dict PeerStatus
  pub pairing : PairingCodes
  pub tickets : Dict Pending
  pub nonces : Dict ℕ

pub record Manager : Type 0 where
  pub state : State
  pub open state use *
  pub saved : State

pub record Env : Type 0 where
  pub library : Library
  pub codec : Codec
  pub urls : UrlLibrary
  pub identity : NodeIdentity
  pub hostname : String
  pub version : String

abbrev pub max_nodes : ℕ
max_nodes = 20

abbrev pub change : (State → State) → Manager → Manager
change f m = record m { state = f m.state }

-- `_save`
abbrev pub save : Action Manager (Unit {0})
save = modify (λ m. record m { saved = m.state })

-- An operation on a part of the state.
module _ {A : Type 0} where
  abbrev pub on_membership : Action Membership A → Action Manager A
  on_membership f m =
      let (r, t) = f m.membership in (r, change (λ s. record s { membership = t }) m)

  abbrev pub on_pairing : Action PairingCodes A → Action Manager A
  on_pairing f m = let (r, t) = f m.pairing in (r, change (λ s. record s { pairing = t }) m)

  abbrev pub on_tickets : Action (Dict Pending) A → Action Manager A
  on_tickets f m = let (r, t) = f m.tickets in (r, change (λ s. record s { tickets = t }) m)

  abbrev pub on_nonces : Action (Dict ℕ) A → Action Manager A
  on_nonces f m = let (r, t) = f m.nonces in (r, change (λ s. record s { nonces = t }) m)

-- `_require_enabled`
abbrev pub is_ready : State → Bool
is_ready s = s.enabled && not (s.federation_id == "")

unfoldable pub require_enabled : Action Manager (Unit {0})
require_enabled m =
    if is_ready m.state then (ok tt, m) else (err (value_error "federation is disabled"), m)

-- `if allowed_cidrs: settings["allowed_cidrs"] = list(allowed_cidrs)`
abbrev new_cidrs : Option (List String) → List String → List String
new_cidrs none old = old
new_cidrs (some []) old = old
new_cidrs (some (c ∷ cs)) old = c ∷ cs

unfoldable pub set_cidrs : Option (List String) → Action Manager (Unit {0})
set_cidrs cidrs = modify (
    change (λ s. record s {
      settings = record s.settings { allowed_cidrs = new_cidrs cidrs s.settings.allowed_cidrs };
    }))

unfoldable pub set_settings : (name internal_url browser_url : String) → Action Manager (Unit {0})
set_settings name internal_url browser_url = modify (
    change (λ s. record s {
      settings = record s.settings {
        name = prefix 80 name;
        internal_url = internal_url;
        browser_url = browser_url;
      };
    }))

module _ (env : Env) where
  -- `_metadata`, from the settings or from what is given in their place
  unfoldable pub metadata : (name internal_url browser_url : Option String) → Settings → Node
  metadata name internal_url browser_url settings = record {
    node_id = some env.identity.node_id;
    public_key = some env.identity.public_key;
    info = record {
      name = prefix 80 (given name (if settings.name == "" then env.hostname else settings.name));
      hostname = prefix 255 env.hostname;
      internal_url = given internal_url settings.internal_url;
      browser_url = given browser_url settings.browser_url;
      api_version = some 1;
      runvard_version = prefix 32 env.version;
    };
    revoked = false;
    updated_at = none;
    revoked_at = none;
  }
    where
      given : Option String → String → String
      given none default = default
      given (some value) default = value

  -- `create_event`, then `apply_event`
  unfoldable pub announce : (kind : String) → Node → ℕ → String → Action Manager Bool
  announce kind subject now nonce m =
      continue (create_event env.library env.identity m.federation_id kind subject now nonce)
        (λ event. on_membership (apply_event env.library event)) m

  -- `enable` of a server that is not in a federation.
  unfoldable pub found :
      (name internal_url browser_url : String)
      → Option (List String)
      → ℕ
      → (federation_id nonce : String) → Action Manager (Unit {0})
  found name internal_url browser_url cidrs now federation_id nonce = do
    set_cidrs cidrs
    allowed ← gets (λ m. m.settings.allowed_cidrs)
    internal ← lift (validate_internal_url env.urls internal_url allowed)
    browser ← lift (validate_browser_url env.urls browser_url)
    set_settings name internal browser
    modify (
        change (λ s. record s {
          enabled = true;
          membership = record s.membership { federation_id = federation_id };
        }))
    settings ← gets (λ m. m.settings)
    _ ← announce node_joined (metadata none none none settings) now nonce
    save

  unfoldable pub enable :
      (name internal_url browser_url : String)
      → Option (List String)
      → ℕ
      → (federation_id nonce : String) → Action Manager (Unit {0})
  enable name internal_url browser_url cidrs now federation_id nonce m =
      (if m.enabled
          then pure tt
          else found name internal_url browser_url cidrs now federation_id nonce)
        m

  unfoldable pub update_settings :
      (name internal_url browser_url : String)
      → Option (List String)
      → ℕ
      → (nonce : String) → Action Manager (Unit {0})
  update_settings name internal_url browser_url cidrs now nonce = do
    require_enabled
    set_cidrs cidrs
    allowed ← gets (λ m. m.settings.allowed_cidrs)
    internal ← lift (validate_internal_url env.urls internal_url allowed)
    browser ← lift (validate_browser_url env.urls browser_url)
    set_settings name internal browser
    settings ← gets (λ m. m.settings)
    _ ← announce node_updated (metadata none none none settings) now nonce
    save

  -- The subject of a revocation names the node and nothing else.
  abbrev pub named : String → Node
  named node_id = record {
    node_id = some node_id;
    public_key = none;
    info = record {
      name = "";
      hostname = "";
      internal_url = "";
      browser_url = "";
      api_version = none;
      runvard_version = "";
    };
    revoked = false;
    updated_at = none;
    revoked_at = none;
  }

  unfoldable pub revoke : String → ℕ → String → Action Manager (Unit {0})
  revoke node_id now nonce = do
    require_enabled
    raise_if (node_id == env.identity.node_id) (value_error "cannot revoke the current node")
    _ ← announce node_revoked (named node_id) now nonce
    save
