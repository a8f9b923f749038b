-- ===== src/TimeMachine/Run.antt =====
-- `run_replication` and `process_replication_queue` of modules/time_machine.py. What the disks, the
-- mounts and the commands answer in a run is its `World`; `meanwhile` is what other threads do to the
-- state while data are transferred, which needs no lock.
use Prim.Native.Nat.{◌*◌}
use runvard.Base.{
  ℕ, ◌+◌, ◌-◌, String, Bool, false, Option, none, some, List, [], ◌∷◌, ◌++◌, not, ◌&&◌, ◌||◌, leb,
  ltb, eqb, ◌==◌, keep, if◌then◌else◌, Result, ok, err, Error, value_error, key_error,
  runtime_error, Action, pure, raise, raise_if, lift, modify, ◌>>=◌, ◌>>◌, or_zero,
}
use runvard.TimeMachine.Records.{
  Job, replication_job, running, completed, failed, Replication, Kind, local_kind, remote_kind,
  passive, replicating, warning, Target,
}
use runvard.TimeMachine.State.{
  State, is_id, is_replication_job, is_queued, last_of, first_where, find_replication, find_target,
  update_replication_at,
}
use runvard.TimeMachine.Queue.{is_inactive}

-- `shutil.disk_usage`, and `_remote_capacity`
pub record Usage : Type 0 where
  pub total : ℕ
  pub used : ℕ

pub record World : Type 0 where
  pub mount : Result (Unit {0})
  pub source : Result Usage
  pub is_busy : Bool
  pub destination : Result Usage
  pub transfer : Result String
  pub meanwhile : State → State
  -- writing the state file, when the run begins, when the transfer is over, and when the run has failed
  pub begin_save : Result (Unit {0})
  pub complete_save : Result (Unit {0})
  pub fail_save : Result (Unit {0})
  pub finished_at : ℕ
  -- `str(exc)`
  pub shown : Error → String

-- The state, and `_ACTIVE_REPLICATION_KEYS`.
pub record Worker : Type 0 where
  pub state : State
  pub active : List (String × String)

pub data Ran : Type 0 where
  deferred : (reason : String) → Ran
  finished : Ran

abbrev pub on_state : {A : Type 0} → Action State A → Action Worker A
on_state f w = let (r, s) = f w.state in (r, record w { state = s })

-- `used / total >= 0.95`, without fractions
abbrev pub is_full : Usage → Bool
is_full usage = leb (95 * usage.total) (100 * usage.used)

abbrev pub is_pool_full : Usage → Bool
is_pool_full usage = eqb usage.total 0 || is_full usage

abbrev destination_full : Kind → Usage → Bool
destination_full local_kind usage = is_pool_full usage
destination_full remote_kind usage = is_full usage

abbrev full_reason : Kind → String
full_reason local_kind = "pool_full"
full_reason remote_kind = "remote_pool_full"

-- `a or b`
abbrev text_or : String → String → String
text_or a b = if a == "" then b else a

abbrev pub claim_key : Replication → Target → String × String
claim_key r target = (
  text_or target.mount_source target.storage_root,
  text_or r.remote_host (text_or r.destination_mount_source r.destination_root),
)

abbrev holds : String → String × String → Bool
holds key (source, destination) = source == key || destination == key

abbrev pub is_claimed : String × String → List (String × String) → Bool
is_claimed (source, destination) [] = false
is_claimed (source, destination) (other ∷ others) =
    holds source other || holds destination other || is_claimed (source, destination) others

abbrev pub same_key : String × String → String × String → Bool
same_key (a, b) (c, d) = a == c && b == d

unfoldable pub claim_replication : Replication → Target → Action Worker (String × String)
claim_replication r target w =
    if is_claimed (claim_key r target) w.active
    then (err (runtime_error "Another replication is active for this source or destination"), w)
    else (ok (claim_key r target), record w { active = w.active ++ (claim_key r target ∷ []) })

unfoldable pub release_replication : String × String → Worker → Worker
release_replication key w = record w { active = keep (λ other. not (same_key other key)) w.active }

-- The job with this id takes this place, or the end.
abbrev pub put_job : Job → List Job → List Job
put_job job [] = job ∷ []
put_job job (other ∷ jobs) =
    let rest = put_job job jobs in if other.id == job.id then job ∷ jobs else other ∷ rest

unfoldable pub update_replication :
    (saved : Result (Unit {0}))
    → String
    → (Replication → Replication)
    → Job
    → Action State (Unit {0})
update_replication saved replication_id values job = do
  _ ← (λ s. (find_replication replication_id s.replications, s))
  lift saved
  modify (λ s. record s {
    replications = update_replication_at replication_id values s.replications;
    jobs = last_of 100 (put_job job s.jobs);
  })

abbrev is_job_of : (job_id replication_id : String) → Job → Bool
is_job_of job_id replication_id job =
    job.id == job_id && is_replication_job job.type && job.replication_id == replication_id

abbrev started : ℕ → Job → Job
started now job = record job { started_at = some now; status = running }

abbrev start_found : ℕ → Option Job → Result Job
start_found now none = err (key_error "Queued replication job not found")
start_found now (some job) = ok (started now job)

-- The job that runs: the queued one, or a new one with the id `fresh`.
unfoldable pub pick_job : Option String → (fresh replication_id : String) → ℕ → State → Result Job
pick_job none fresh replication_id now s = ok (record {
  id = fresh;
  type = replication_job;
  replication_id = replication_id;
  status = running;
  queued_at = none;
  started_at = some now;
  finished_at = none;
  recovered_at = none;
  recovery_count = 0;
  error = none;
})
pick_job (some job_id) fresh replication_id now s =
    if not (is_id job_id)
    then err (value_error "Invalid job id")
    else start_found now (first_where (is_job_of job_id replication_id) s.jobs)

abbrev pub begin_run : ℕ → Replication → Replication
begin_run now r = record r { status = replicating; last_attempt_at = some now; last_error = none }

abbrev pub end_run : ℕ → String → Replication → Replication
end_run now path r = record r {
  status = passive;
  last_complete_at = some now;
  last_complete_path = some path;
  last_error = none;
}

abbrev pub fail_run : String → Replication → Replication
fail_run message r = record r { status = warning; last_error = some message }

module _ (world : World) (replication_id : String) (now : ℕ) where
  -- The `try` block: the transfer, and its success in the state.
  abbrev pub complete : Job → Result String → Action State Ran
  complete job (err e) s = (err e, s)
  complete job (ok path) s =
      (do
        update_replication world.complete_save replication_id (end_run now path)
            (record job { status = completed; finished_at = some world.finished_at })
        pure finished)
        s

  -- The `except` block raises again, unless it raises itself.
  abbrev pub rescue : Job → Result Ran → Action State Ran
  rescue job (ok ran) = pure ran
  rescue job (err e) = do
    update_replication world.fail_save replication_id (fail_run (world.shown e)) (record job {
      status = failed;
      finished_at = some world.finished_at;
      error = some (world.shown e);
    })
    raise e

  unfoldable pub close : Job → (transfer : Result String) → Action State Ran
  close job transfer s = let (r, t) = complete job transfer s in rescue job r t

  unfoldable pub attempt : Job → Action State Ran
  attempt job s = close job world.transfer (world.meanwhile s)

  abbrev give_back : String × String → Action Worker Ran → Action Worker Ran
  give_back key f w = let (r, v) = f w in (r, release_replication key v)

  unfoldable pub start_replication :
      Replication → Target → Option String → (fresh : String) → Action Worker Ran
  start_replication r target job_id fresh = do
    key ← claim_replication r target
    job ← (λ w. (pick_job job_id fresh replication_id now w.state, w))
    on_state (update_replication world.begin_save replication_id (begin_run now) job)
    give_back key (on_state (attempt job))

  -- `if full: return {"deferred": True, ...}`
  abbrev or_deferred : Bool → (reason : String) → Action Worker Ran → Action Worker Ran
  or_deferred full reason f = if full then pure (deferred reason) else f

  unfoldable pub run_replication : Option String → (fresh : String) → Action Worker Ran
  run_replication job_id fresh = do
    r ← (λ w. (find_replication replication_id w.state.replications, w))
    target ← (λ w. (find_target r.target_id w.state.targets, w))
    raise_if (is_inactive r) (value_error "Replication is not active")
    lift world.mount
    source ← lift world.source
    or_deferred (is_pool_full source) "pool_full" (
        or_deferred world.is_busy "target_busy" (do
          destination ← lift world.destination
          or_deferred (destination_full r.kind destination) (full_reason r.kind)
              (start_replication r target job_id fresh)))

-- `queued_at`, 0 where there is none
abbrev queued_time : Job → ℕ
queued_time job = or_zero job.queued_at

abbrev pub insert_queued : Job → List Job → List Job
insert_queued job [] = job ∷ []
insert_queued job (other ∷ jobs) =
    let rest = insert_queued job jobs in
    if leb (queued_time job) (queued_time other) then job ∷ other ∷ jobs else other ∷ rest

-- The queued jobs, the longest waiting first.
unfoldable pub queue_of : List Job → List Job
queue_of [] = []
queue_of (job ∷ jobs) =
    let rest = queue_of jobs in
    if is_replication_job job.type && is_queued job.status then insert_queued job rest else rest

abbrev pub first_of : {A : Type 0} → ℕ → List A → List A
first_of n [] = []
first_of n (x ∷ xs) = let rest = first_of (n - 1) xs in if ltb 0 n then x ∷ rest else []

abbrev clamp : ℕ → ℕ
clamp limit = if ltb limit 1 then 1 else if ltb 10 limit then 10 else limit

-- `processed`, `deferred`, and the errors with the ids of their jobs
pub record Report : Type 0 where
  pub processed : ℕ
  pub deferred_jobs : ℕ
  pub errors : List (String × Error)

abbrev add_result : Job → Result Ran → Report → Report
add_result job (ok (deferred reason)) report = record report {
  deferred_jobs = report.deferred_jobs + 1;
}
add_result job (ok finished) report = record report { processed = report.processed + 1 }
add_result job (err e) report = record report {
  processed = report.processed + 1;
  errors = (job.id, e) ∷ report.errors;
}

module _ (worlds : Job → World) (now : ℕ) where
  unfoldable pub process_each : List Job → Worker → Report × Worker
  process_each [] w = (record { processed = 0; deferred_jobs = 0; errors = [] }, w)
  process_each (job ∷ jobs) w =
      let (r, v) = run_replication (worlds job) job.replication_id now (some job.id) "" w in
      let (report, u) = process_each jobs v in (add_result job r report, u)

  unfoldable pub process_replication_queue : (limit : ℕ) → Worker → Report × Worker
  process_replication_queue limit w =
      process_each (first_of (clamp limit) (queue_of w.state.jobs)) w
