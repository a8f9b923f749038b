-- ===== src/TimeMachine/Settled.antt =====
-- What a recovery makes of the jobs.
use runvard.Base.{
  ℕ, ◌+◌, ◌<◌, String, ◌≡◌, refl, true, false, List, [], ◌∷◌, leb, arith, Result, ok, err, Error,
  reply, after, Bool-cases, inl, inr,
}
use runvard.TimeMachine.Records.{Job, queued, failed, Replication}
use runvard.TimeMachine.State.{State, find_replication, update_replication_at}
use runvard.TimeMachine.Recovery.{
  Recovery, is_interrupted, recover_jobs, recover_interrupted_jobs, recovery_limit, orphaned,
  given_up, requeued, with_kept, with_failed, with_recovered, at_rest, in_trouble, saved, cleaned,
  looked_up,
}

-- What one job may become.
pub data IsFate (job : Job) : Job → Type 0 where
  untouched : is_interrupted job ≡ false → IsFate job job
  for_good :
      {after : Job}
      → is_interrupted job ≡ true
      → after.replication_id ≡ job.replication_id
      → after.status ≡ failed
      → IsFate job after
  once_more :
      {after : Job}
      → is_interrupted job ≡ true
      → after.type ≡ job.type
      → after.replication_id ≡ job.replication_id
      → after.status ≡ queued
      → after.recovery_count ≡ job.recovery_count + 1
      → after.recovery_count < recovery_limit
      → IsFate job after

abbrev pub AreFates : List Job → List Job → Type 0
AreFates [] [] = Unit
AreFates (job ∷ jobs) (other ∷ others) = IsFate job other × AreFates jobs others
AreFates [] (other ∷ others) = ⊥
AreFates (job ∷ jobs) [] = ⊥

abbrev FatesOf : List Job → Result Recovery → Type 0
FatesOf jobs (err e) = Unit
FatesOf jobs (ok found) = AreFates jobs found.jobs

module _ (job other : Job) (jobs : List Job) (fate : IsFate job other) where
  with_kept-Fates :
      (r : Result Recovery) → FatesOf jobs r → FatesOf (job ∷ jobs) (with_kept other r)
  with_kept-Fates (err e) h = tt
  with_kept-Fates (ok found) h = (fate, h)

  with_failed-Fates :
      (r : Result Recovery) → FatesOf jobs r → FatesOf (job ∷ jobs) (with_failed other r)
  with_failed-Fates (err e) h = tt
  with_failed-Fates (ok found) h = (fate, h)

  with_recovered-Fates :
      (r : Result Recovery) → FatesOf jobs r → FatesOf (job ∷ jobs) (with_recovered other r)
  with_recovered-Fates (err e) h = tt
  with_recovered-Fates (ok found) h = (fate, h)

module _ (cleanup : Replication → Result (Unit {0})) (now : ℕ) where
  cleaned-Fates :
      (job : Job) (jobs : List Job) (quiet warned : Result Recovery) (r : Result (Unit {0}))
      → is_interrupted job ≡ true
      → FatesOf jobs quiet
      → FatesOf jobs warned
      → FatesOf (job ∷ jobs) (cleaned now job quiet warned r)
  cleaned-Fates job jobs quiet warned (err e) yes_it_is q w = tt
  cleaned-Fates job jobs quiet warned (ok done) yes_it_is q w =
      elim (Bool-cases (leb recovery_limit (job.recovery_count + 1))) [
        | inl e ↦
            rw (e) (
              with_failed-Fates job (given_up now job) jobs (for_good yes_it_is refl refl) warned w)
        | inr e ↦ rw (e) (
            with_recovered-Fates job (requeued now job) jobs
              (once_more yes_it_is refl refl refl refl (ground arith)) quiet q)
      ]

  looked_up-Fates :
      (job : Job) (jobs : List Job) (same quiet warned : Result Recovery)
      (found : Result Replication)
      → is_interrupted job ≡ true
      → FatesOf jobs same
      → FatesOf jobs quiet
      → FatesOf jobs warned
      → FatesOf (job ∷ jobs) (looked_up cleanup now job same quiet warned found)
  looked_up-Fates job jobs same quiet warned (err e) yes_it_is s q w =
      with_failed-Fates job (orphaned now job) jobs (for_good yes_it_is refl refl) same s
  looked_up-Fates job jobs same quiet warned (ok r) yes_it_is s q w =
      cleaned-Fates job jobs quiet warned (cleanup r) yes_it_is q w

  recover_jobs-Fates :
      (jobs : List Job) (rs : List Replication) → FatesOf jobs (recover_jobs cleanup now jobs rs)
  unfolding recover_jobs
  recover_jobs-Fates [] rs = tt
  recover_jobs-Fates (job ∷ jobs) rs =
      let same = recover_jobs cleanup now jobs rs in
      let calm = update_replication_at job.replication_id at_rest rs in
      let worried = update_replication_at job.replication_id in_trouble rs in
      elim (Bool-cases (is_interrupted job)) [
        | inr e ↦
            rw (e) (with_kept-Fates job job jobs (untouched e) same (recover_jobs-Fates jobs rs))
        | inl e ↦ rw (e) (
            looked_up-Fates job jobs same (recover_jobs cleanup now jobs calm)
              (recover_jobs cleanup now jobs worried) (find_replication job.replication_id rs) e
              (recover_jobs-Fates jobs rs) (recover_jobs-Fates jobs calm)
              (recover_jobs-Fates jobs worried))
      ]

  saved-Fates :
      (r : Result Recovery) (s : State) (answer : List String × List String)
      → FatesOf s.jobs r
      → reply (saved r) s ≡ ok answer
      → AreFates s.jobs (after (saved r) s).jobs
  saved-Fates (err e) s answer fates h = absurd (ground arith)
  saved-Fates (ok found) s answer fates h = fates

  -- After a recovery that returns, no replication job is running: each that was has failed for good, or
  -- waits again with one more recovery on its account, which leaves it below the limit of three. All
  -- other jobs are as they were, and so is the order of the jobs.
  pub recover_interrupted_jobs-AreFates :
      (s : State) (answer : List String × List String)
      → reply (recover_interrupted_jobs cleanup now) s ≡ ok answer
      → AreFates s.jobs (after (recover_interrupted_jobs cleanup now) s).jobs
  unfolding recover_interrupted_jobs
  recover_interrupted_jobs-AreFates s answer h =
      saved-Fates (recover_jobs cleanup now s.jobs s.replications) s answer
        (recover_jobs-Fates s.jobs s.replications) h

  saved-err :
      (r : Result Recovery) (s : State) (e : Error)
      → reply (saved r) s ≡ err e
      → after (saved r) s ≡ s
  saved-err (err e) s f h = refl
  saved-err (ok found) s f h = absurd (ground arith)

  -- A recovery that raises saves nothing.
  pub recover_interrupted_jobs-err :
      (s : State) (e : Error)
      → reply (recover_interrupted_jobs cleanup now) s ≡ err e
      → after (recover_interrupted_jobs cleanup now) s ≡ s
  unfolding recover_interrupted_jobs
  recover_interrupted_jobs-err s e h =
      saved-err (recover_jobs cleanup now s.jobs s.replications) s e h
