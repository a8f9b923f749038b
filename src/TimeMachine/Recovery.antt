-- ===== src/TimeMachine/Recovery.antt =====
-- `recover_interrupted_jobs` of modules/time_machine.py: what becomes of the jobs that a worker left
-- running. `cleanup` is what `_cleanup_local_replica_staging` replies; the files that it removes are left out.
use runvard.Base.{
  ℕ, ◌+◌, String, Bool, none, some, List, [], ◌∷◌, not, ◌&&◌, leb, if◌then◌else◌, Result, ok, err,
  Action,
}
use runvard.TimeMachine.Records.{Job, queued, failed, Replication, passive, warning}
use runvard.TimeMachine.State.{
  State, is_replication_job, is_running, is_replicating, find_replication, update_replication_at,
}

-- The jobs and replications so far, and the ids of the jobs in the answer.
pub record Recovery : Type 0 where
  pub jobs : List Job
  pub replications : List Replication
  pub recovered : List String
  pub failed_ids : List String

-- `job.get("type") == "replication" and job.get("status") == "running"`
abbrev pub is_interrupted : Job → Bool
is_interrupted job = is_replication_job job.type && is_running job.status

abbrev pub recovery_limit : ℕ
recovery_limit = 3

abbrev pub orphaned : ℕ → Job → Job
orphaned now job = record job {
  status = failed;
  finished_at = some now;
  error = some "Replication no longer exists";
}

abbrev limit_error : String
limit_error = "Interrupted replication reached the recovery limit"

abbrev pub given_up : ℕ → Job → Job
given_up now job = record job {
  status = failed;
  finished_at = some now;
  error = some limit_error;
  recovery_count = job.recovery_count + 1;
  recovered_at = some now;
}

abbrev pub requeued : ℕ → Job → Job
requeued now job = record job {
  status = queued;
  queued_at = some now;
  recovered_at = some now;
  recovery_count = job.recovery_count + 1;
  finished_at = none;
  error = none;
}

abbrev pub at_rest : Replication → Replication
at_rest r = record r { status = if is_replicating r.status then passive else r.status }

abbrev pub in_trouble : Replication → Replication
in_trouble r = record r { status = warning; last_error = some limit_error }

-- One job in front of the others.
abbrev pub with_kept : Job → Result Recovery → Result Recovery
with_kept job (err e) = err e
with_kept job (ok rest) = ok (record rest { jobs = job ∷ rest.jobs })

abbrev pub with_failed : Job → Result Recovery → Result Recovery
with_failed job (err e) = err e
with_failed job (ok rest) =
    ok (record rest { jobs = job ∷ rest.jobs; failed_ids = job.id ∷ rest.failed_ids })

abbrev pub with_recovered : Job → Result Recovery → Result Recovery
with_recovered job (err e) = err e
with_recovered job (ok rest) =
    ok (record rest { jobs = job ∷ rest.jobs; recovered = job.id ∷ rest.recovered })

-- An interrupted job, after the clean-up of its replication. The rest of the loop goes on with the
-- replications as this job leaves them.
abbrev pub cleaned :
    ℕ → Job → (quiet warned : Result Recovery) → Result (Unit {0}) → Result Recovery
cleaned now job quiet warned (err e) = err e
cleaned now job quiet warned (ok done) =
    if leb recovery_limit (job.recovery_count + 1)
    then with_failed (given_up now job) warned
    else with_recovered (requeued now job) quiet

abbrev pub looked_up :
    (cleanup : Replication → Result (Unit {0}))
    → ℕ
    → Job
    → (same quiet warned : Result Recovery) → Result Replication
    → Result Recovery
looked_up cleanup now job same quiet warned (err e) = with_failed (orphaned now job) same
looked_up cleanup now job same quiet warned (ok r) = cleaned now job quiet warned (cleanup r)

-- The loop over the jobs. The replications change as it goes.
unfoldable pub recover_jobs :
    (cleanup : Replication → Result (Unit {0})) → ℕ → List Job → List Replication → Result Recovery
recover_jobs cleanup now [] rs =
    ok (record { jobs = []; replications = rs; recovered = []; failed_ids = [] })
recover_jobs cleanup now (job ∷ jobs) rs =
    let same = recover_jobs cleanup now jobs rs in
    let quiet =
      recover_jobs cleanup now jobs (update_replication_at job.replication_id at_rest rs) in
    let warned =
      recover_jobs cleanup now jobs (update_replication_at job.replication_id in_trouble rs) in
    if not (is_interrupted job)
    then with_kept job same
    else looked_up cleanup now job same quiet warned (find_replication job.replication_id rs)

-- The answer: `recovered` and `failed`.
abbrev pub saved : Result Recovery → Action State (List String × List String)
saved (err e) s = (err e, s)
saved (ok found) s = (
  ok (found.recovered, found.failed_ids),
  record s { jobs = found.jobs; replications = found.replications },
)

unfoldable pub recover_interrupted_jobs :
    (cleanup : Replication → Result (Unit {0})) → ℕ → Action State (List String × List String)
recover_interrupted_jobs cleanup now s = saved (recover_jobs cleanup now s.jobs s.replications) s
