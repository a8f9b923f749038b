-- ===== src/TimeMachine/Queue.antt =====
-- Replications waiting for their turn: `queue_replication`, `schedule_due_replications` and
-- `update_replication_policy` of modules/time_machine.py.
use runvard.Base.{
  ℕ, String, Bool, true, false, Option, none, some, List, [], ◌∷◌, ◌++◌, not, ◌&&◌, ◌||◌, ltb, eqb,
  map, if◌then◌else◌, ok, value_error, Action, pure, raise_if, gets, modify, continue, ◌>>=◌, ◌>>◌,
}
use runvard.TimeMachine.Records.{
  Job, replication_job, queued, cancelled, Replication, ReplicationStatus, paused, passive,
  replication_policy_updated,
}
use runvard.TimeMachine.State.{
  State, is_active_for, is_queued_for, is_promoted, is_paused, last_of, first_where,
  find_replication, update_replication_at, append_event,
}

-- `{"job": ..., "already_queued": ...}`
pub record Queued : Type 0 where
  pub job : Job
  pub already_queued : Bool

-- A job that waits. `job_id` is the random id.
abbrev pub waiting_job : (job_id replication_id : String) → ℕ → Job
waiting_job job_id replication_id now = record {
  id = job_id;
  type = replication_job;
  replication_id = replication_id;
  status = queued;
  queued_at = some now;
  started_at = none;
  finished_at = none;
  recovered_at = none;
  recovery_count = 0;
  error = none;
}

-- `not enabled or status == "promoted"`
abbrev pub is_inactive : Replication → Bool
is_inactive r = not r.enabled || is_promoted r.status

abbrev pub add_job : Job → State → State
add_job job s = record s { jobs = last_of 100 (s.jobs ++ (job ∷ [])) }

abbrev pub enqueue : Option Job → (job_id replication_id : String) → ℕ → Action State Queued
enqueue (some job) job_id replication_id now s =
    (ok (record { job = job; already_queued = true }), s)
enqueue none job_id replication_id now s =
    let job = waiting_job job_id replication_id now in
    (ok (record { job = job; already_queued = false }), add_job job s)

unfoldable pub queue_replication :
    (replication_id : String) → ℕ → (job_id : String) → Action State Queued
queue_replication replication_id now job_id = do
  r ← (λ s. (find_replication replication_id s.replications, s))
  raise_if (is_inactive r) (value_error "Replication is not active")
  existing ← gets (λ s. first_where (is_active_for replication_id) s.jobs)
  enqueue existing job_id replication_id now

-- `time.localtime`: the hour, and the day as one number.
pub record LocalTime : Type 0 where
  pub hour : ℕ
  pub day : ℕ

abbrev pub is_due : LocalTime → Replication → Bool
is_due local r =
    not (is_inactive r)
    && eqb r.schedule_hour local.hour
    && not (eqb r.last_scheduled_day local.day)

-- `last_scheduled_day` of the replication, read again
abbrev pub set_day : (replication_id : String) → ℕ → Action State (Unit {0})
set_day replication_id day s =
    continue (find_replication replication_id s.replications)
      (λ r s. (
        ok tt,
        record s {
          replications =
              update_replication_at replication_id (λ r. record r { last_scheduled_day = day })
                s.replications;
        },
      ))
      s

abbrev pub unless_known : Queued → String → List String → List String
unless_known answer replication_id ids = if answer.already_queued then ids else replication_id ∷ ids

-- The loop over the replications that were listed at first. `fresh` gives each the time and the id of its job.
unfoldable pub schedule_each :
    LocalTime → (fresh : String → ℕ × String) → List Replication → Action State (List String)
schedule_each local fresh [] = pure []
schedule_each local fresh (r ∷ rs) =
    let rest = schedule_each local fresh rs in
    if not (is_due local r) then rest else (do
      answer ← queue_replication r.id (fresh r.id).0 (fresh r.id).1
      set_day r.id local.day
      ids ← rest
      pure (unless_known answer r.id ids))

unfoldable pub schedule_due_replications :
    LocalTime → (fresh : String → ℕ × String) → Action State (List String)
schedule_due_replications local fresh s = schedule_each local fresh s.replications s

abbrev pub cancel : (replication_id : String) → ℕ → Job → Job
cancel replication_id now job =
    if is_queued_for replication_id job
    then record job { status = cancelled; finished_at = some now }
    else job

abbrev pub status_with : (enabled : Bool) → ReplicationStatus → ReplicationStatus
status_with enabled status =
    if not enabled then paused else if is_paused status then passive else status

abbrev pub apply_policy : (hour bandwidth : ℕ) → (enabled : Bool) → ℕ → Replication → Replication
apply_policy hour bandwidth enabled now r = record r {
  schedule_hour = hour;
  bandwidth_mbps = bandwidth;
  enabled = enabled;
  updated_at = some now;
  status = status_with enabled r.status;
}

-- The new policy, and the event that tells what it was before.
abbrev pub set_policy :
    (replication_id : String)
    → (hour bandwidth : ℕ) → (enabled : Bool) → (actor : String) → ℕ
    → (event_id : String) → Replication
    → State
    → State
set_policy replication_id hour bandwidth enabled actor now event_id r s = record s {
  replications =
      update_replication_at replication_id (apply_policy hour bandwidth enabled now) s.replications;
  jobs = if enabled then s.jobs else map (cancel replication_id now) s.jobs;
  events =
      append_event
        (record {
          id = event_id;
          actor = actor;
          created_at = now;
          happening =
              replication_policy_updated replication_id r.target_id r.schedule_hour hour
                r.bandwidth_mbps bandwidth r.enabled enabled;
        })
        s.events;
}

-- The settings are numbers already. `actor` is cut to 80 characters, and `event_id` is the random id.
unfoldable pub update_replication_policy :
    (replication_id : String)
    → (hour bandwidth : ℕ) → (enabled : Bool) → (actor : String) → ℕ
    → (event_id : String) → Action State (Unit {0})
update_replication_policy replication_id hour bandwidth enabled actor now event_id = do
  raise_if (ltb 23 hour) (value_error "Schedule hour must be between 0 and 23")
  raise_if (ltb 100000 bandwidth) (value_error "Invalid bandwidth limit")
  r ← (λ s. (find_replication replication_id s.replications, s))
  raise_if (enabled && is_promoted r.status)
      (value_error "A promoted replication cannot be re-enabled")
  modify (set_policy replication_id hour bandwidth enabled actor now event_id r)
