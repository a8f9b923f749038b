-- ===== src/Jobs/Run.antt =====
-- Runs of jobs, with their threads interleaved in any order.
use runvard.Base.{
  Result, err, after, ℕ, String, ◌≡◌, ◌≢◌, Bool, true, false, Option, none, some, List, [], ◌∷◌,
  arith, All, is_some, not, ◌&&◌, Option-cases, inl, inr, ok,
}
use runvard.Base.Dict
use runvard.Jobs.{
  Status, Job, Jobs, Outcome, Phase, starting, alive, store_job, launch_job, finished, finish_job,
  get_job,
}

-- `start_job` is two steps, since another thread may come in between.
pub data Step : Type 0 where
  store : (id name : String) → ℕ → Step
  launch : (id : String) → (start : Result (Unit {0})) → Step
  finish : String → ℕ → Outcome → Step

abbrev pub step : Step → Jobs → Jobs
step (Step.store id name now) s = store_job id name now s
step (Step.launch id start) s = after (launch_job id start) s
step (Step.finish id now outcome) s = finish_job id now outcome s

abbrev pub run : List Step → Jobs → Jobs
run [] s = s
run (x ∷ xs) s = run xs (step x s)

-- A job that has ended has the time of its end, and no thread. It has no error if it succeeded, and an error and
-- no result if it failed. A running job has none of these yet.
abbrev pub is_whole : Job → (has_thread : Bool) → Bool
is_whole job has_thread = elim job.status [
  | Status.running ↦
      not (is_some job.finished_at) && not (is_some job.result) && not (is_some job.error)
  | Status.succeeded ↦ not has_thread && is_some job.finished_at && not (is_some job.error)
  | Status.failed ↦
      not has_thread && is_some job.finished_at && not (is_some job.result) && is_some job.error
]

-- A job and its thread.
abbrev agrees : Option Job → Option Phase → Bool
agrees none thread = not (is_some thread)
agrees (some job) thread = is_whole job (is_some thread)

-- Every job is whole, and no thread is without a job.
pub record IsSound (s : Jobs) : Type 0 where
  pub at_id : (id : String) → agrees (Dict.get id s.jobs) (Dict.get id s.threads) ≡ true

store_job-IsSound :
    (id name : String) (now : ℕ) (s : Jobs) → IsSound s → IsSound (store_job id name now s)
unfolding store_job
store_job-IsSound id name now s h = record {
  at_id = λ k. ground (
    arith,
    h.at_id k,
    Dict.get-insert k id
        (record {
          id = id;
          name = name;
          status = Status.running;
          started_at = now;
          finished_at = none;
          result = none;
          error = none;
        })
        s.jobs,
    Dict.get-insert k id starting s.threads,
  );
}

launch_job-IsSound :
    (id : String) (start : Result (Unit {0})) (s : Jobs)
    → IsSound s
    → IsSound (after (launch_job id start) s)
unfolding launch_job
launch_job-IsSound id (ok done) s h = record {
  at_id = λ k. ground (arith, h.at_id k, h.at_id id, Dict.get-insert k id alive s.threads);
}
launch_job-IsSound id (err e) s h = record {
  at_id = λ k. ground (arith, h.at_id k, h.at_id id, Dict.get-erase k id s.threads);
}

finish_job-IsSound :
    (id : String) (now : ℕ) (outcome : Outcome) (s : Jobs)
    → IsSound s
    → IsSound (finish_job id now outcome s)
unfolding finish_job finished
finish_job-IsSound id now outcome s h = elim (Option-cases (Dict.get id s.jobs)) [
  | inl e ↦ record {
    at_id = λ k. ground (arith, h.at_id k, h.at_id id, Dict.get-erase k id s.threads);
  }
  | inr (job, e) ↦ record {
    at_id = λ k. ground (
      arith,
      h.at_id k,
      h.at_id id,
      Dict.get-erase k id s.threads,
      Dict.get-insert k id (finished now outcome job) s.jobs,
    );
  }
]

step-IsSound : (x : Step) (s : Jobs) → IsSound s → IsSound (step x s)
step-IsSound (Step.store id name now) s h = store_job-IsSound id name now s h
step-IsSound (Step.launch id start) s h = launch_job-IsSound id start s h
step-IsSound (Step.finish id now outcome) s h = finish_job-IsSound id now outcome s h

-- Whatever jobs are stored, get their threads, fail to get them, and end, in any order, a job that has a
-- thread is running, a running job has no time of its end, no result and no error, one that succeeded has
-- that time and no error, and one that failed has it with an error and no result. A job may be running
-- without a thread, where the thread could not start or died. The start is assumed to be such a state, as
-- no jobs are.
pub run-IsSound : (xs : List Step) (s : Jobs) → IsSound s → IsSound (run xs s)
run-IsSound [] s h = h
run-IsSound (x ∷ xs) s h = run-IsSound xs (step x s) (step-IsSound x s h)

abbrev StartsOther : String → Step → Type 0
StartsOther k (Step.store id name now) = id ≢ k
StartsOther k (Step.launch id start) = Unit
StartsOther k (Step.finish id now outcome) = Unit

abbrev is_over : Job → Bool
is_over job = elim job.status [ Status.running ↦ false | _ ↦ true ]

step-over :
    (k : String) (job : Job) (x : Step) (s : Jobs)
    → IsSound s
    → StartsOther k x
    → Dict.get k s.jobs ≡ some job
    → is_over job ≡ true
    → Dict.get k (step x s).jobs ≡ some job
unfolding store_job launch_job finish_job
step-over k job (Step.launch id (ok done)) s h other e over = ground arith
step-over k job (Step.launch id (err e')) s h other e over = ground arith
step-over k job (Step.store id name now) s h other e over = ground (
  arith,
  Dict.get-insert k id
      (record {
        id = id;
        name = name;
        status = Status.running;
        started_at = now;
        finished_at = none;
        result = none;
        error = none;
      })
      s.jobs,
)
step-over k job (Step.finish id now outcome) s h other e over =
    elim (Option-cases (Dict.get id s.jobs)) [
      | inl e' ↦ ground (arith, h.at_id k)
      | inr (job', e') ↦
          ground
            (arith, h.at_id k, h.at_id id, Dict.get-insert k id (finished now outcome job') s.jobs)
    ]

-- A job that has ended never changes: whatever jobs start and end after it, `get_job` gives the same
-- job, if no later job is given its id.
pub get_job-run :
    (k : String) (job : Job) (xs : List Step) (s : Jobs)
    → IsSound s
    → All (StartsOther k) xs
    → get_job k s ≡ ok job
    → is_over job ≡ true
    → get_job k (run xs s) ≡ ok job
unfolding get_job
get_job-run k job [] s h others e over = e
get_job-run k job (x ∷ xs) s h (other, others) e over =
    let kept = step-over k job x s h other (ground arith) over in
    get_job-run k job xs (step x s) (step-IsSound x s h) others (ground (arith, kept)) over
