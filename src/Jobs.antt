-- ===== src/Jobs.antt =====
-- modules/jobs.py: operations that run in background threads. The dict `_jobs`, and the threads that
-- have not finished yet; what a thread's function returns or raises is the argument of its end. What holds
-- the lock is one step, and so is the start of a thread, so a run is a list of steps.
pub mod Run
pub mod Listing
pub mod Tests
use runvard.Base.{
  Action, true, false, ℕ, String, Bool, Option, none, some, List, [], ◌∷◌, leb, if◌then◌else◌,
  key_error, Result, ok, err,
}
use runvard.Base.Dict
use runvard.Base.Dict.{Dict, values}

pub data Status : Type 0 where
  running : Status
  succeeded : Status
  failed : Status

pub record Job : Type 0 where
  pub id : String
  pub name : String
  pub status : Status
  pub started_at : ℕ
  pub finished_at : Option ℕ
  pub result : Option String
  pub error : Option String

-- A job that `start_job` has stored and not yet started the thread of, or a thread.
pub data Phase : Type 0 where
  starting : Phase
  alive : Phase

-- `_jobs`, and the threads by the ids of their jobs.
pub record Jobs : Type 0 where
  pub jobs : Dict Job
  pub threads : Dict Phase

-- What a thread's function returned, where nothing is `None`, the text of the `Exception` that it raised, or
-- that it raised something that is no `Exception`, which ends the thread.
pub data Outcome : Type 0 where
  returned : Option String → Outcome
  raised : String → Outcome
  died : Outcome

-- The locked part of `start_job`, with the random id.
unfoldable pub store_job : (id name : String) → ℕ → Jobs → Jobs
store_job id name now s =
    let job : Job = record {
      id = id;
      name = name;
      status = Status.running;
      started_at = now;
      finished_at = none;
      result = none;
      error = none;
    } in
    record { jobs = Dict.insert id job s.jobs; threads = Dict.insert id starting s.threads }

abbrev pub launched : String → (start : Result (Unit {0})) → Dict Phase → Dict Phase
launched id (ok done) threads = Dict.insert id alive threads
launched id (err e) threads = Dict.erase id threads

abbrev pub in_phase : Phase → Option Phase → Bool
in_phase phase none = false
in_phase starting (some starting) = true
in_phase starting (some alive) = false
in_phase alive (some starting) = false
in_phase alive (some alive) = true

abbrev id_of : String → Result (Unit {0}) → Result String
id_of id (ok done) = ok id
id_of id (err e) = err e

-- The rest of `start_job`, where `thread.start` may raise; nothing, if no call has come so far.
unfoldable pub launch_job : String → (start : Result (Unit {0})) → Action Jobs String
launch_job id start s = (
  id_of id start,
  if in_phase starting (Dict.get id s.threads)
      then record s { threads = launched id start s.threads }
      else s,
)

-- `start_job`, if no other thread comes in between.
unfoldable pub start_job : (id name : String) → ℕ → (start : Result (Unit {0})) → Action Jobs String
start_job id name now start s = launch_job id start (store_job id name now s)

-- `_jobs[job_id].update(...)`
unfoldable pub finished : ℕ → Outcome → Job → Job
finished now (Outcome.returned result) job = record job {
  status = Status.succeeded;
  finished_at = some now;
  result = result;
}
finished now (Outcome.raised message) job = record job {
  status = Status.failed;
  finished_at = some now;
  error = some message;
}
finished now Outcome.died job = job

update_job : String → ℕ → Outcome → Option Job → Dict Job → Dict Job
update_job id now outcome none jobs = jobs
update_job id now outcome (some job) jobs = Dict.insert id (finished now outcome job) jobs

-- The end of `runner` in the thread of a job; nothing, if there is no such thread.
unfoldable pub finish_job : String → ℕ → Outcome → Jobs → Jobs
unfolding update_job
finish_job id now outcome s =
    if in_phase alive (Dict.get id s.threads)
    then record {
      jobs = update_job id now outcome (Dict.get id s.jobs) s.jobs;
      threads = Dict.erase id s.threads;
    }
    else s

unfoldable pub get_job : String → Jobs → Result Job
get_job id s = elim (Dict.get id s.jobs) [
  | none ↦ err (key_error "Job not found")
  | some job ↦ ok job
]

-- `sorted(..., key=started_at, reverse=True)`, which keeps the order of equal times
unfoldable pub insert_job : Job → List Job → List Job
insert_job job [] = job ∷ []
insert_job job (other ∷ jobs) =
    let rest = insert_job job jobs in
    if leb other.started_at job.started_at then job ∷ other ∷ jobs else other ∷ rest

unfoldable pub sort_jobs : List Job → List Job
sort_jobs [] = []
sort_jobs (job ∷ jobs) = insert_job job (sort_jobs jobs)

unfoldable pub list_jobs : Jobs → List Job
list_jobs s = sort_jobs (values s.jobs)
