-- ===== src/Jobs/Tests.antt =====
-- The theorems on jobs at concrete data.
use runvard.Base.{ok, err, runtime_error, refl, none, some, [], ◌∷◌, List, arith}
use runvard.Base.Dict
use runvard.Base.Dict.{values}
use runvard.Jobs.{Status, Job, Jobs, Outcome}
use runvard.Jobs.Run.{Step, IsSound, run, run-IsSound}

abbrev no_jobs : Jobs
no_jobs = record { jobs = []; threads = [] }

no_jobs-IsSound : IsSound no_jobs
unfolding Dict.get
no_jobs-IsSound = record { at_id = λ id. refl }

abbrev done : Job
done = record {
  id = "j1";
  name = "backup";
  status = Status.succeeded;
  started_at = 10;
  finished_at = some 30;
  result = some "saved";
  error = none;
}

abbrev one : Jobs
one = record { jobs = ("j1", done) ∷ []; threads = [] }

one-IsSound : IsSound one
unfolding Dict.get
one-IsSound = record { at_id = λ id. ground arith }

-- The thread of "j3" cannot start, and the function of "j4" returns nothing.
abbrev later : List Step
later =
    Step.store "j2" "scrub" 40
    ∷ Step.store "j3" "update" 50
    ∷ Step.launch "j2" (ok tt)
    ∷ Step.launch "j3" (err (runtime_error "can't start new thread"))
    ∷ Step.store "j4" "trim" 52
    ∷ Step.launch "j4" (ok tt)
    ∷ Step.finish "j4" 55 (Outcome.returned none)
    ∷ Step.finish "j2" 60 (Outcome.raised "no disk")
    ∷ []

run-IsSound_example : IsSound (run later no_jobs)
run-IsSound_example = run-IsSound later no_jobs no_jobs-IsSound
