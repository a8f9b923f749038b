-- ===== src/External/Registry.antt =====
-- `ExternalServerManager`: the registry, its credentials and its polls.
use runvard.Base.{
  ℕ, ◌+◌, String, Bool, true, false, Option, none, some, ◌&&◌, ◌||◌, leb, is_some, or_zero,
  if◌then◌else◌, value_error, Result, ok, err, length, Action, pure, modify, gets, lift, continue,
  ◌>>=◌, ◌>>◌, after,
}
use runvard.Base.Dict
use runvard.Base.Dict.{Dict}
use runvard.External.Config.{
  Kind, Library, Flag, RawConfig, Config, Credentials, is_generic, to_bool, clean_config,
  clean_credentials,
}

-- A snapshot: the normalised values as a text, and the updates.
pub record Snapshot : Type 0 where
  pub values : String
  pub updates : Option String

-- A field may be absent, as in the empty dict.
pub record Status : Type 0 where
  pub health : Option String
  pub failures : Option ℕ
  pub snapshot : Option Snapshot
  pub last_attempt : Option ℕ
  pub last_success : Option ℕ
  pub updates_checked_at : Option ℕ
  pub error : Option String

pub record State : Type 0 where
  pub servers : Dict Config
  pub statuses : Dict Status

pub record Manager : Type 0 where
  pub state : State
  pub open state use *
  pub saved : State
  pub secrets : Dict Credentials

abbrev pub max_servers : ℕ
max_servers = 20

abbrev pub update_cache_seconds : ℕ
update_cache_seconds = 900

-- What the files answer to an operation: reading the stored credentials, writing them, and writing the state.
pub record Files : Type 0 where
  pub read : Result (Unit {0})
  pub secrets : Result (Unit {0})
  pub state : Result (Unit {0})

-- `_save`
abbrev pub save : (written : Result (Unit {0})) → Action Manager (Unit {0})
save (ok done) m = (ok tt, record m { saved = m.state })
save (err e) m = (err e, m)

-- How an operation that answers with the configuration ends.
abbrev pub save_and_answer : (written : Result (Unit {0})) → Config → Action Manager Config
save_and_answer written config = do save written; pure config

abbrev pub set_server : String → Config → Manager → Manager
set_server id config m = record m {
  state = record m.state { servers = Dict.insert id config m.servers };
}

abbrev pub set_status : String → Status → Manager → Manager
set_status id status m = record m {
  state = record m.state { statuses = Dict.insert id status m.statuses };
}

abbrev pub set_secret : String → Option Credentials → Manager → Manager
set_secret id none m = m
set_secret id (some secret) m = record m { secrets = Dict.insert id secret m.secrets }

-- `if secret: self.secrets.set(...)`
abbrev pub put_secret :
    (written : Result (Unit {0})) → String → Option Credentials → Action Manager (Unit {0})
put_secret written id none m = (ok tt, m)
put_secret (ok done) id (some secret) m = (ok tt, set_secret id (some secret) m)
put_secret (err e) id (some secret) m = (err e, m)

-- `self.secrets.delete(...)`
abbrev pub drop_secret : (written : Result (Unit {0})) → String → Action Manager (Unit {0})
drop_secret (ok done) id m = (ok tt, record m { secrets = Dict.erase id m.secrets })
drop_secret (err e) id m = (err e, m)

abbrev pub no_status : Status
no_status = record {
  health = none;
  failures = none;
  snapshot = none;
  last_attempt = none;
  last_success = none;
  updates_checked_at = none;
  error = none;
}

-- The status of a new server; `blank` is the normalised snapshot of no values.
abbrev pub new_status : Snapshot → Status
new_status blank = record no_status {
  health = some "unknown";
  failures = some 0;
  snapshot = some blank;
}

abbrev same_kind : Kind → Kind → Bool
same_kind Kind.generic Kind.generic = true
same_kind Kind.proxmox Kind.proxmox = true
same_kind Kind.linux Kind.linux = true
same_kind Kind.windows Kind.windows = true
same_kind _ _ = false

-- The credentials that a changed server has.
abbrev pub choose_secret :
    Kind → Kind → (replacement existing : Option Credentials) → Option Credentials
choose_secret kind previous replacement existing =
    if is_generic kind
    then none
    else if is_some replacement
    then replacement
    else if same_kind previous kind
    then existing
    else none

-- `if replacement: set ... elif kind is generic: delete ...`
abbrev pub store_secret :
    (written : Result (Unit {0})) → String → Kind → Option Credentials → Action Manager (Unit {0})
store_secret written id kind (some secret) = put_secret written id (some secret)
store_secret written id kind none = if is_generic kind then drop_secret written id else pure tt

-- What a connector answers: nothing, with the category of the error, or a snapshot, and the
-- updates, unless that request raised.
pub data Answer : Type 0 where
  failed : (category : String) → Answer
  collected : (values : String) → (updates : Option (Option String)) → Answer

abbrev updates_of : Option Snapshot → Option String
updates_of none = none
updates_of (some s) = s.updates

abbrev flatten : Option (Option String) → Option String
flatten none = none
flatten (some updates) = updates

-- `should_update`
abbrev pub should_update : Bool → ℕ → Option ℕ → Bool
should_update force now checked =
    force || leb (or_zero checked) 0 || leb (or_zero checked + update_cache_seconds) now

-- The status after a poll that began with the status `old`.
unfoldable pub polled : Bool → ℕ → Answer → Status → Status
polled force now (Answer.failed category) old =
    let failures = or_zero old.failures + 1 in
    record old {
      health = some (if leb 3 failures then "offline" else "degraded");
      failures = some failures;
      last_attempt = some now;
      error = some category;
    }
polled force now (Answer.collected values updates) old =
    let fresh = should_update force now old.updates_checked_at && is_some updates in
    record {
      health = some "online";
      failures = some 0;
      snapshot = some (record {
        values = values;
        updates = if fresh then flatten updates else updates_of old.snapshot;
      });
      last_attempt = some now;
      last_success = some now;
      updates_checked_at = if fresh then some now else old.updates_checked_at;
      error = none;
    }

-- The first part of `_poll_one`: the status that the poll begins with, if the server is to be
-- polled.
unfoldable pub poll_start : String → Manager → Option Status
poll_start id m = elim (Dict.get id m.servers) [
  | none ↦ none
  | some config ↦
      if config.enabled
      then some (elim (Dict.get id m.statuses) [ none ↦ no_status | some status ↦ status ])
      else none
]

-- The last part, which takes the lock again.
unfoldable pub poll_finish : String → Status → (written : Result (Unit {0})) → Manager → Manager
poll_finish id updated written m =
    if is_some (Dict.get id m.servers) then after (save written) (set_status id updated m) else m

-- The locked part of `create`.
unfoldable pub add :
    Config → Option Credentials → (id : String) → Snapshot → Files → Action Manager Config
add config secret id blank files m =
    if leb max_servers (length m.servers)
    then (err (value_error "external server limit reached"), m)
    else (do put_secret files.secrets id secret; save_and_answer files.state config)
        (set_status id (new_status blank) (set_server id config m))

module _ (L : Library) where
  unfoldable pub create :
      RawConfig → Option Credentials → (id : String) → Snapshot → Files → Action Manager Config
  create source credentials id blank files = do
    config ← lift (clean_config L source)
    secret ← lift (clean_credentials L config.kind credentials true)
    add config secret id blank files

  -- The part of `update` for a known server.
  unfoldable pub replace :
      String → Config → Option Credentials → (previous : Config) → Files → Action Manager Config
  replace id config credentials previous files = do
    lift files.read
    existing ← gets (λ m. Dict.get id m.secrets)
    replacement ← lift (clean_credentials L config.kind credentials false)
    _ ← lift (
        clean_credentials L config.kind
          (choose_secret config.kind previous.kind replacement existing) true)
    modify (set_server id config)
    store_secret files.secrets id config.kind replacement
    save_and_answer files.state config

  unfoldable pub update_known :
      String → Config → Option Credentials → Option Config → Files → Action Manager Config
  update_known id config credentials none files m = (err (value_error "unknown external server"), m)
  update_known id config credentials (some previous) files m =
      replace id config credentials previous files m

  unfoldable pub update : String → RawConfig → Option Credentials → Files → Action Manager Config
  update id source credentials files m =
      continue (clean_config L source)
        (λ config m. update_known id config credentials (Dict.get id m.servers) files m) m

  unfoldable pub set_enabled : String → Flag → (written : Result (Unit {0})) → Action Manager Config
  set_enabled id enabled written m = elim (Dict.get id m.servers) [
    | none ↦ (err (value_error "unknown external server"), m)
    | some config ↦
        let changed = record config { enabled = to_bool L enabled true } in
        save_and_answer written changed (set_server id changed m)
  ]

unfoldable pub delete : String → Files → Action Manager (Unit {0})
delete id files m = elim (Dict.get id m.servers) [
  | none ↦ (err (value_error "unknown external server"), m)
  | some config ↦
      (do drop_secret files.secrets id; save files.state)
        (record m {
          state = record { servers = Dict.erase id m.servers; statuses = Dict.erase id m.statuses };
        })
]
