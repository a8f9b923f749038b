-- ===== src/TimeMachine/Targets.antt =====
-- The operations on targets of modules/time_machine.py: on the state, the files for the daemons, and the
-- native quotas. What mounts, commands and the disk answer to a call is its `Host`.
use runvard.Base.{
  ℕ, String, Bool, true, false, Option, none, some, List, [], ◌∷◌, not, ◌&&◌, ◌||◌, ◌==◌, map,
  if◌then◌else◌, Result, ok, err, value_error, runtime_error, Action, pure, raise, raise_if, lift,
  ◌>>=◌, ◌>>◌,
}
use runvard.Base.Dict.{Dict}
use runvard.TimeMachine.Records.{
  Target, TargetStatus, waiting, target_paused, critical, removed, Backend, zfs, btrfs, directory,
  Event, target_quarantined,
}
use runvard.TimeMachine.State.{State, find_target, update_target_at, append_event}
use runvard.TimeMachine.Samba.{System, Config, Daemons, activate_managed_config}

pub record Site : Type 0 where
  pub state : State
  pub config : Config
  -- the limit of each ZFS or Btrfs target, by its id
  pub quotas : Dict ℕ

-- `_mount_info`, which resolves the mount point
pub record Mount : Type 0 where
  pub mountpoint : String
  pub source : String

pub record Host : Type 0 where
  pub system : System
  pub mount_info : String → Option Mount
  pub realpath : String → String
  pub is_dir : String → Bool
  -- `_target_allocated_bytes` and `_target_has_open_handles`
  pub allocated : Target → Result ℕ
  pub open_handles : Target → Bool
  -- the commands that set a quota and set it back
  pub quota : Result (Unit {0})
  pub quota_back : Result (Unit {0})
  -- the daemons in an activation and on its way back, and in a second activation that undoes it
  pub daemons : Daemons
  pub again : Daemons
  pub undo : Daemons
  pub undo_again : Daemons
  -- writing the state file
  pub save : Result (Unit {0})

abbrev pub is_removed : TargetStatus → Bool
is_removed waiting = false
is_removed target_paused = false
is_removed critical = false
is_removed removed = true

abbrev pub has_quota : Backend → Bool
has_quota zfs = true
has_quota btrfs = true
has_quota directory = false

abbrev pub any_of : {A : Type 0} → (A → Bool) → List A → Bool
any_of p [] = false
any_of p (x ∷ xs) = p x || any_of p xs

abbrev succeeded : {A : Type 0} → Result A → Bool
succeeded (ok a) = true
succeeded (err e) = false

module _ (H : Host) where
  abbrev mount_of : String → Option Mount
  mount_of root = if root == "" then none else H.mount_info root

  -- Whether the root is a mount point of its own.
  abbrev is_mounted : String → Option Mount → Bool
  is_mounted root none = false
  is_mounted root (some mount) = H.realpath mount.mountpoint == H.realpath root

  abbrev is_changed : String → Option Mount → Bool
  is_changed expected none = false
  is_changed expected (some mount) = not (expected == "") && not (mount.source == expected)

  unfoldable pub assert_target_mount : Target → Result (Unit {0})
  assert_target_mount target =
      let mount = mount_of target.storage_root in
      if not (is_mounted target.storage_root mount)
      then err (runtime_error "Storage mount is missing")
      else if is_changed target.mount_source mount
      then err (runtime_error "Storage mount identity changed")
      else ok tt

  abbrev pub on_config : {A : Type 0} → Action Config A → Action Site A
  on_config f w = let (r, c) = f w.config in (r, record w { config = c })

  -- The state on the disk, if it can be written.
  abbrev pub saved_or : Result (Unit {0}) → State → Action Site (Unit {0}) → Action Site (Unit {0})
  saved_or (ok done) candidate undo w = (ok tt, record w { state = candidate })
  saved_or (err e) candidate undo w = (do undo; raise e) w

  -- Nothing is saved where nothing changed.
  abbrev pub saved_if : Bool → State → Action Site (Unit {0})
  saved_if changed candidate = if changed then saved_or H.save candidate (pure tt) else pure tt

  -- The new configuration is activated, and the state is saved. If that fails, the old one is activated.
  unfoldable pub commit : (candidate : State) → Action Site (Unit {0})
  commit candidate w =
      (do
        on_config
            (activate_managed_config H.system H.daemons H.again candidate.targets w.state.targets)
        saved_or H.save candidate (
            on_config (
              activate_managed_config H.system H.undo H.undo_again w.state.targets
                candidate.targets)))
        w

  abbrev pub path_is_missing : Target → Bool
  path_is_missing target = not (H.is_dir target.path)

  abbrev lift_if : Bool → Result (Unit {0}) → Result (Unit {0})
  lift_if test r = if test then r else ok tt

  abbrev switched : Bool → Target → Target
  switched enabled target = record target {
    enabled = enabled;
    status = if enabled then waiting else target_paused;
    health_code = if enabled then "waiting_for_first_backup" else "paused";
  }

  abbrev pub with_targets : (List Target → List Target) → State → State
  with_targets f s = record s { targets = f s.targets }

  unfoldable pub set_target_enabled : (target_id : String) → Bool → Action Site (Unit {0})
  set_target_enabled target_id enabled = do
    current ← (λ w. (find_target target_id w.state.targets, w))
    raise_if (is_removed current.status) (value_error "Removed target cannot be enabled or paused")
    lift (lift_if enabled (assert_target_mount current))
    raise_if (enabled && path_is_missing current) (runtime_error "Target path is missing")
    (λ w. commit (with_targets (update_target_at target_id (switched enabled)) w.state) w)

  -- Why a target cannot be used, if it cannot.
  unfoldable pub unavailable : Target → Option String
  unavailable target =
      let mount = mount_of target.storage_root in
      if not (is_mounted target.storage_root mount)
      then some "mount_missing"
      else if is_changed target.mount_source mount
      then some "mount_identity_changed"
      else if path_is_missing target
      then some "target_path_missing"
      else none

  -- `none` for a target that stays as it is
  unfoldable pub quarantine_code : Target → Option String
  quarantine_code target =
      if not target.enabled || is_removed target.status then none else unavailable target

  abbrev pub quarantined : ℕ → Option String → Target → Target
  quarantined now none target = target
  quarantined now (some code) target = record target {
    enabled = false;
    status = critical;
    health_code = code;
    quarantined_at = some now;
  }

  abbrev pub quarantine_target : ℕ → Target → Target
  quarantine_target now target = quarantined now (quarantine_code target) target

  -- The targets with their codes.
  abbrev add_code : String → Option String → List (String × String) → List (String × String)
  add_code target_id none rest = rest
  add_code target_id (some code) rest = (target_id, code) ∷ rest

  abbrev pub codes_of : List Target → List (String × String)
  codes_of [] = []
  codes_of (target ∷ targets) = add_code target.id (quarantine_code target) (codes_of targets)

  abbrev quarantine_events :
      (event_ids : String → String) → ℕ → List (String × String) → List Event → List Event
  quarantine_events event_ids now [] events = events
  quarantine_events event_ids now ((target_id, code) ∷ items) events =
      quarantine_events event_ids now items (
        append_event
          (record {
            id = event_ids target_id;
            actor = "system";
            created_at = now;
            happening = target_quarantined target_id code;
          })
          events)

  abbrev pub commit_found : List (String × String) → State → Action Site (List (String × String))
  commit_found [] candidate = pure []
  commit_found (item ∷ items) candidate = do commit candidate; pure (item ∷ items)

  unfoldable pub quarantine_unavailable_targets :
      (event_ids : String → String) → ℕ → Action Site (List (String × String))
  quarantine_unavailable_targets event_ids now w =
      let found = codes_of w.state.targets in
      commit_found found
        (record w.state {
          targets = map (quarantine_target now) w.state.targets;
          events = quarantine_events event_ids now found w.state.events;
        })
        w

  -- One measurement.
  unfoldable pub measure : Target → Result ℕ
  measure target = elim (assert_target_mount target) [
    | err e ↦ err e
    | ok mounted ↦
        if path_is_missing target
        then err (runtime_error "Target path is missing")
        else H.allocated target
  ]

  abbrev measured : ℕ → Result ℕ → Target → Target
  measured now (err e) target = target
  measured now (ok bytes) target = record target {
    allocated_bytes = some bytes;
    usage_measured_at = some now;
  }

  unfoldable pub refresh_target : ℕ → Target → Target
  refresh_target now target =
      if is_removed target.status then target else measured now (measure target) target

  abbrev is_measured : Target → Bool
  is_measured target = not (is_removed target.status) && succeeded (measure target)

  -- The answer, with the targets that were measured and those that were not, is left out.
  unfoldable pub refresh_target_usage : ℕ → Action Site (Unit {0})
  refresh_target_usage now w =
      saved_if (any_of is_measured w.state.targets)
        (with_targets (map (refresh_target now)) w.state) w

  abbrev is_in_use : Target → Bool
  is_in_use target = target.enabled && not (is_removed target.status) && H.open_handles target

  unfoldable pub observe_target : ℕ → Target → Target
  observe_target now target =
      if is_in_use target then record target { last_activity = some now } else target

  unfoldable pub observe_target_activity : ℕ → Action Site (Unit {0})
  observe_target_activity now w =
      saved_if (any_of is_in_use w.state.targets) (with_targets (map (observe_target now)) w.state)
        w
