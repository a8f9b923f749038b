-- ===== src/TimeMachine/Waiting.antt =====
-- What a queued job that cannot run does to those behind it.
use runvard.Base.{
  ℕ, String, ◌≡◌, refl, true, Option, some, List, [], ◌∷◌, arith, ok, err, value_error,
}
use runvard.TimeMachine.Records.{Job, Replication, Target}
use runvard.TimeMachine.State.{find_replication, find_target}
use runvard.TimeMachine.Queue.{is_inactive}
use runvard.TimeMachine.Run.{
  World, Worker, run_replication, process_each, process_replication_queue, queue_of, first_of,
}

run_replication-inactive :
    (world : World) (replication_id : String) (now : ℕ) (job_id : Option String) (fresh : String)
    (r : Replication) (target : Target) (w : Worker)
    → find_replication replication_id w.state.replications ≡ ok r
    → find_target r.target_id w.state.targets ≡ ok target
    → is_inactive r ≡ true
    → run_replication world replication_id now job_id fresh w
      ≡ (err (value_error "Replication is not active"), w)
unfolding run_replication
run_replication-inactive world replication_id now job_id fresh r target w known at inactive =
    ground arith

first_of-zero : {A : Type 0} (xs : List A) → first_of 0 xs ≡ []
first_of-zero [] = refl
first_of-zero (x ∷ xs) = refl

-- While the job that waits longest belongs to a replication that is disabled or promoted, a call of
-- `process_replication_queue` for one job reports that the replication is not active, and changes nothing:
-- the job stays in front, and no job behind it runs. The target of the replication is assumed to be known.
pub process_replication_queue-inactive :
    (worlds : Job → World) (now : ℕ) (w : Worker) (job : Job) (jobs : List Job) (r : Replication)
    (target : Target)
    → queue_of w.state.jobs ≡ job ∷ jobs
    → find_replication job.replication_id w.state.replications ≡ ok r
    → find_target r.target_id w.state.targets ≡ ok target
    → is_inactive r ≡ true
    → process_replication_queue worlds now 1 w ≡ (
      record {
        processed = 1;
        deferred_jobs = 0;
        errors = (job.id, value_error "Replication is not active") ∷ [];
      },
      w,
    )
unfolding process_replication_queue process_each
process_replication_queue-inactive worlds now w job jobs r target first known at inactive =
    rw
      (
        first,
        first_of-zero jobs,
        run_replication-inactive (worlds job) job.replication_id now (some job.id) "" r target w
            known at inactive,
      )
      refl
