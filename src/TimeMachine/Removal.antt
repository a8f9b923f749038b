-- ===== src/TimeMachine/Removal.antt =====
-- `update_target_policy`, `remove_target` and `delete_target_data` of modules/time_machine.py.
use Prim.Native.Nat.{◌*◌, ◌/◌}
use runvard.Base.{
  ℕ, String, Bool, false, some, List, [], ◌∷◌, not, ◌&&◌, ◌||◌, leb, ltb, eqb, ◌==◌, keep, map,
  if◌then◌else◌, Result, ok, err, Error, value_error, runtime_error, Action, pure, raise_if, lift,
  ◌>>=◌, ◌>>◌, contains,
}
use runvard.Base.Dict
use runvard.Base.Dict.{Dict}
use runvard.TimeMachine.Records.{
  Target, removed, Policy, Job, cancelled, Replication, paused, Event, target_policy_updated,
  target_removed,
}
use runvard.TimeMachine.State.{
  State, find_target, update_target_at, append_event, is_replication_job, is_queued, is_running,
  is_promoted,
}
use runvard.TimeMachine.Samba.{gib, activate_managed_config}
use runvard.TimeMachine.Targets.{
  Site, Host, is_removed, has_quota, any_of, assert_target_mount, on_config, saved_or, commit,
}

-- `max(1, int(capacity_gb * 0.95)) * GIB`
abbrev pub advertised : ℕ → ℕ
advertised capacity_gb = let part = capacity_gb * 95 / 100 in (if ltb part 1 then 1 else part) * gib

abbrev pub is_bounded : Policy → Bool
is_bounded policy =
    leb policy.daily_points 365 && leb policy.weekly_points 365 && leb policy.monthly_points 365

-- `del xs[i]` at the first index where `p` holds
abbrev pub drop_first : {A : Type 0} → (A → Bool) → List A → List A
drop_first p [] = []
drop_first p (x ∷ xs) = let rest = drop_first p xs in if p x then xs else x ∷ rest

module _ (H : Host) where
  -- A smaller target must still hold what it has.
  abbrev check_fits : (capacity_gb : ℕ) → Target → Result (Unit {0})
  check_fits capacity_gb target =
      if not (ltb (advertised capacity_gb) target.advertised_bytes)
      then ok tt
      else elim (H.allocated target) [
        | err e ↦ err e
        | ok bytes ↦
            if ltb (advertised capacity_gb) bytes
            then err
                (value_error "Target currently uses more space than the new advertised capacity")
            else ok tt
      ]

  abbrev pub with_policy : (capacity_gb : ℕ) → Policy → ℕ → Target → Target
  with_policy capacity_gb policy now target = record target {
    hard_limit_bytes = capacity_gb * gib;
    advertised_bytes = advertised capacity_gb;
    protection_policy = policy;
    policy_updated_at = some now;
  }

  -- `_set_target_quota`, where the limit changes
  abbrev pub set_quota : Result (Unit {0}) → Target → ℕ → Action Site (Unit {0})
  set_quota (err e) target bytes w = (err e, w)
  set_quota (ok done) target bytes w =
      (ok tt, record w { quotas = Dict.insert target.id bytes w.quotas })

  abbrev quota_changes : ℕ → Target → Bool
  quota_changes capacity_gb target =
      not (eqb (capacity_gb * gib) target.hard_limit_bytes) && has_quota target.backend

  abbrev when : Bool → Action Site (Unit {0}) → Action Site (Unit {0})
  when test f = if test then f else pure tt

  -- Both ways back are tried, and one that raises replaces the error.
  abbrev pub rolled_back : Error → Result (Unit {0}) → Result (Unit {0}) → Error
  rolled_back e (ok done) (ok too) = e
  rolled_back e (err f) r = runtime_error "rollback failed"
  rolled_back e (ok done) (err f) = runtime_error "rollback failed"

  abbrev undone : Error → Action Site (Unit {0}) → Action Site (Unit {0}) → Action Site (Unit {0})
  undone e config quota w =
      let (r, v) = config w in let (q, u) = quota v in (err (rolled_back e r q), u)

  -- The state is saved, or the configuration and the quota are set back.
  abbrev pub save_or :
      Result (Unit {0}) → State → (config quota : Action Site (Unit {0})) → Action Site (Unit {0})
  save_or (ok done) candidate config quota w = (ok tt, record w { state = candidate })
  save_or (err e) candidate config quota w = undone e config quota w

  abbrev pub activated_or :
      Result (Unit {0}) → State → (config quota : Action Site (Unit {0})) → Action Site (Unit {0})
  activated_or (ok done) candidate config quota w = save_or H.save candidate config quota w
  activated_or (err e) candidate config quota w = undone e (pure tt) quota w

  unfoldable pub enforce :
      (current : Target) → (capacity_gb : ℕ) → (candidate : State) → Action Site (Unit {0})
  enforce current capacity_gb candidate w =
      (do
        when (quota_changes capacity_gb current) (set_quota H.quota current (capacity_gb * gib))
        (λ v.
            let (r, u) =
              on_config H
                (activate_managed_config H.system H.daemons H.again candidate.targets
                  w.state.targets)
                v in
            activated_or r candidate
              (on_config H (
                activate_managed_config H.system H.undo H.undo_again w.state.targets
                  candidate.targets))
              (when (quota_changes capacity_gb current)
                (set_quota H.quota_back current current.hard_limit_bytes))
              u))
        w

  abbrev policy_event :
      Target → (capacity_gb : ℕ) → Policy → (actor : String) → ℕ → (event_id : String) → Event
  policy_event current capacity_gb policy actor now event_id = record {
    id = event_id;
    actor = actor;
    created_at = now;
    happening =
        target_policy_updated current.id (current.hard_limit_bytes / gib) capacity_gb
          current.protection_policy policy;
  }

  -- The settings are numbers already, and `actor` is cut to 80 characters.
  unfoldable pub update_target_policy :
      (target_id : String)
      → (capacity_gb : ℕ) → Policy
      → (actor : String) → ℕ
      → (event_id : String) → Action Site (Unit {0})
  update_target_policy target_id capacity_gb policy actor now event_id = do
    raise_if (ltb capacity_gb 10 || ltb 10000000 capacity_gb)
        (value_error "Capacity must be between 10 GB and 10 PB")
    raise_if (not (is_bounded policy)) (value_error "Retention values must be between 0 and 365")
    current ← (λ w. (find_target target_id w.state.targets, w))
    raise_if (is_removed current.status) (value_error "Removed target policy cannot be changed")
    lift (assert_target_mount H current)
    lift (check_fits capacity_gb current)
    (λ w.
        enforce current capacity_gb
          (record w.state {
            targets =
                update_target_at target_id (with_policy capacity_gb policy now) w.state.targets;
            events =
                append_event (policy_event current capacity_gb policy actor now event_id)
                  w.state.events;
          })
          w)

-- `replication_ids`
abbrev pub ids_of : (target_id : String) → List Replication → List String
ids_of target_id [] = []
ids_of target_id (r ∷ rs) =
    let rest = ids_of target_id rs in if r.target_id == target_id then r.id ∷ rest else rest

abbrev pub is_running_of : List String → Job → Bool
is_running_of ids job =
    is_replication_job job.type && contains ids job.replication_id && is_running job.status

abbrev pub is_queued_of : List String → Job → Bool
is_queued_of ids job =
    is_replication_job job.type && contains ids job.replication_id && is_queued job.status

abbrev pub retire : (target_id : String) → ℕ → Replication → Replication
retire target_id now r =
    if r.target_id == target_id
    then record r {
      enabled = false;
      status = if is_promoted r.status then r.status else paused;
      updated_at = some now;
    }
    else r

abbrev pub cancel_of : List String → ℕ → Job → Job
cancel_of ids now job =
    if is_queued_of ids job then record job { status = cancelled; finished_at = some now } else job

abbrev pub taken_away : ℕ → Target → Target
taken_away now target = record target {
  enabled = false;
  status = removed;
  health_code = "removed_data_preserved";
  removed_at = some now;
}

abbrev job_ids : List Job → List String
job_ids jobs = map (λ job. job.id) jobs

unfoldable pub without_target : (target_id actor : String) → ℕ → (event_id : String) → State → State
without_target target_id actor now event_id s =
    let ids = ids_of target_id s.replications in
    record s {
      targets = update_target_at target_id (taken_away now) s.targets;
      replications = map (retire target_id now) s.replications;
      jobs = map (cancel_of ids now) s.jobs;
      events =
          append_event
            (record {
              id = event_id;
              actor = actor;
              created_at = now;
              happening = target_removed target_id ids (job_ids (keep (is_queued_of ids) s.jobs));
            })
            s.events;
    }

module _ (H : Host) where
  unfoldable pub remove_target :
      (target_id actor : String) → ℕ → (event_id : String) → Action Site (Unit {0})
  remove_target target_id actor now event_id = do
    current ← (λ w. (find_target target_id w.state.targets, w))
    (λ w.
        raise_if (any_of (is_running_of (ids_of target_id w.state.replications)) w.state.jobs)
          (value_error "Replication is running; wait for it to finish") w)
    (λ w. commit H (without_target target_id actor now event_id w.state) w)

  abbrev without_data : (target_id : String) → State → State
  without_data target_id s = record s {
    targets = drop_first (λ target. target.id == target_id) s.targets;
    protection_points = keep (λ point. not (point.target_id == target_id)) s.protection_points;
  }

  -- `destroyed` is what the checks of the path and the commands that delete the data reply.
  unfoldable pub delete_target_data :
      (target_id : String) → (destroyed : Result (Unit {0})) → Action Site (Unit {0})
  delete_target_data target_id destroyed = do
    target ← (λ w. (find_target target_id w.state.targets, w))
    raise_if (not (is_removed target.status) || target.enabled)
        (value_error "Target must be removed before deleting its data")
    lift (assert_target_mount H target)
    raise_if (H.open_handles target) (value_error "Target still has open backup handles")
    lift destroyed
    (λ w. saved_or H H.save (without_data target_id w.state) (pure tt) w)
