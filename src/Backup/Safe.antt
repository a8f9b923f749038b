-- ===== src/Backup/Safe.antt =====
-- What holds of the saved jobs and of the history.
use runvard.Base.{
  ℕ, ◌-◌, ◌≤◌, String, ◌≡◌, true, false, Option, none, some, List, [], ◌∷◌, ◌==◌, eqb, contains,
  length, first_of, All, All-append, All-keep, arith, Result, Result-cases, ok, after, inl, inr,
  Bool-cases, Keeps, Keeps-raise, keeps_rules,
}
use runvard.Backup.{
  Paths, Disk, Validation, Job, Store, Copied, is_blocked, is_within, validate_paths, schedules,
  add_job, delete_job, find_job, mark_run, run_job, copy, ran, entry_of,
}

module _ (P : Paths) where
  -- Two folders that may be copied onto each other.
  pub record IsApart (source dest : String) : Type 0 where
    pub open_source : is_blocked P source ≡ false
    pub open_dest : is_blocked P dest ≡ false
    pub differ : (source == dest) ≡ false
    pub outside : is_within P dest source ≡ false
    pub apart : is_within P source dest ≡ false

  validate_paths-IsApart :
      (disk : Disk) (source dest : String) (v : Validation)
      → validate_paths P disk source dest ≡ ok v
      → IsApart v.source v.dest
  unfolding validate_paths
  validate_paths-IsApart disk source dest v h = record {
    open_source = ground arith;
    open_dest = ground arith;
    differ = ground arith;
    outside = ground arith;
    apart = ground arith;
  }

  pub record IsSound (job : Job) : Type 0 where
    pub apart : IsApart job.source job.dest
    pub named : (job.name == "") ≡ false
    pub scheduled : contains schedules job.schedule ≡ true

  pub record IsSafe (s : Store) : Type 0 where
    pub sound : All IsSound s.jobs
    pub bounded : length s.history ≤ 100

  All-mark_run :
      (job_id start : ℕ) (jobs : List Job)
      → All IsSound jobs
      → All IsSound (mark_run job_id start jobs)
  All-mark_run job_id start [] all = tt
  All-mark_run job_id start (job ∷ jobs) (first, all) = elim (Bool-cases (eqb job.id job_id)) [
    | inl e ↦
        rw (e)
          (record { apart = first.apart; named = first.named; scheduled = first.scheduled }, all)
    | inr e ↦ rw (e) (first, All-mark_run job_id start jobs all)
  ]

  length-first_of-le : {A : Type 0} (n : ℕ) (xs : List A) → length (first_of n xs) ≤ n
  length-first_of-le n [] = omega arith
  length-first_of-le n (x ∷ xs) = ground (arith, length-first_of-le (n - 1) xs)

  add_job-IsSafe :
      (disk : Disk) (name source dest schedule direction : String) (now : ℕ) (s : Store)
      → IsSafe s
      → IsSafe (after (add_job P disk name source dest schedule direction now) s)
  unfolding add_job
  add_job-IsSafe disk name source dest schedule direction now s h =
      elim (Result-cases (validate_paths P disk source dest)) [
        | inl (e, refused) ↦ rw (refused) h
        | inr (v, valid) ↦ elim (Bool-cases (P.strip name == "")) [
          | inl e ↦ rw (valid, e) h
          | inr named ↦ elim (Bool-cases (contains schedules schedule)) [
            | inl known ↦
                rw (valid, named, known)
                  (record {
                    sound = All-append IsSound s.jobs _ h.sound (
                      record {
                        apart = validate_paths-IsApart disk source dest v valid;
                        named = named;
                        scheduled = known;
                      },
                      tt,
                    );
                    bounded = h.bounded;
                  })
            | inr e ↦ rw (valid, named, e) h
          ]
        ]
      ]

  ran-IsSafe :
      (job : Job) (start : ℕ) (copied : Copied) (s : Store)
      → IsSafe s
      → IsSafe (ran job start copied s)
  ran-IsSafe job start copied s h = record {
    sound = All-mark_run job.id start s.jobs h.sound;
    bounded = length-first_of-le 100 (entry_of job start copied ∷ s.history);
  }

  copy-IsSafe :
      (found : Option Job) (disk : Disk) (start : ℕ) (rsync : Result Copied)
      → Keeps IsSafe (copy P found disk start rsync)
  copy-IsSafe none disk start rsync = Keeps-raise _
  copy-IsSafe (some job) disk start rsync = search (keeps_rules, ran-IsSafe) depth 12

  pub data BackupCall : Type 0 where
    add : Disk → (name source dest schedule direction : String) → (now : ℕ) → BackupCall
    delete : (job_id : ℕ) → BackupCall
    run : (job_id : ℕ) → Disk → (start : ℕ) → Result (Copied) → BackupCall

  unfoldable pub perform : BackupCall → Store → Store
  perform (add disk name source dest schedule direction now) s =
      after (add_job P disk name source dest schedule direction now) s
  perform (delete job_id) s = delete_job P job_id s
  perform (run job_id disk start rsync) s = after (run_job P job_id disk start rsync) s

  unfoldable pub perform_all : List BackupCall → Store → Store
  perform_all [] s = s
  perform_all (call ∷ calls) s = perform_all calls (perform call s)

  perform-IsSafe : (call : BackupCall) (s : Store) → IsSafe s → IsSafe (perform call s)
  unfolding perform delete_job run_job
  perform-IsSafe (add disk name source dest schedule direction now) s h =
      add_job-IsSafe disk name source dest schedule direction now s h
  perform-IsSafe (delete job_id) s h = record {
    sound = All-keep IsSound _ s.jobs h.sound;
    bounded = h.bounded;
  }
  perform-IsSafe (run job_id disk start rsync) s h =
      (copy-IsSafe (find_job job_id s.jobs) disk start rsync).at s h

  -- However jobs are added, deleted and run, and whatever the file system and rsync answer, every saved
  -- job has a name, a known schedule, and two folders none of which is a system location, the same as or
  -- inside the other, and the history has at most a hundred entries, if that holds before. The real path
  -- of a path is taken to be the same throughout.
  pub perform_all-IsSafe :
      (calls : List BackupCall) (s : Store) → IsSafe s → IsSafe (perform_all calls s)
  unfolding perform_all
  perform_all-IsSafe [] s h = h
  perform_all-IsSafe (call ∷ calls) s h =
      perform_all-IsSafe calls (perform call s) (perform-IsSafe call s h)
