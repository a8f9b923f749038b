-- ===== src/Jobs/Listing.antt =====
-- The list of jobs: newest first, and all of them.
use runvard.Base.{
  ℕ, ◌≤◌, ◌≡◌, refl, Bool, List, [], ◌∷◌, arith, All, leb, count_if, Bool-cases, inl, inr,
}
use runvard.Base.Dict.{values}
use runvard.Jobs.{Job, Jobs, insert_job, sort_jobs, list_jobs}

abbrev StartedBy : ℕ → Job → Type 0
StartedBy t job = job.started_at ≤ t

-- Every job started no later than those before it.
abbrev pub IsNewestFirst : List Job → Type 0
IsNewestFirst [] = Unit
IsNewestFirst (job ∷ jobs) = All (StartedBy job.started_at) jobs × IsNewestFirst jobs

All-weaken : (t u : ℕ) (jobs : List Job) → t ≤ u → All (StartedBy t) jobs → All (StartedBy u) jobs
All-weaken t u [] le h = tt
All-weaken t u (job ∷ jobs) le (first, rest) = (omega arith, All-weaken t u jobs le rest)

All-insert_job :
    (t : ℕ) (job : Job) (jobs : List Job)
    → job.started_at ≤ t
    → All (StartedBy t) jobs
    → All (StartedBy t) (insert_job job jobs)
unfolding insert_job
All-insert_job t job [] le h = (le, tt)
All-insert_job t job (other ∷ jobs) le (first, rest) =
    elim (Bool-cases (leb other.started_at job.started_at)) [
      | inl e ↦ rw e (le, (first, rest))
      | inr e ↦ rw e (first, All-insert_job t job jobs le rest)
    ]

insert_job-IsNewestFirst :
    (job : Job) (jobs : List Job) → IsNewestFirst jobs → IsNewestFirst (insert_job job jobs)
unfolding insert_job
insert_job-IsNewestFirst job [] h = (tt, tt)
insert_job-IsNewestFirst job (other ∷ jobs) (first, rest) =
    elim (Bool-cases (leb other.started_at job.started_at)) [
      | inl e ↦
          let le : other.started_at ≤ job.started_at = ground arith in
          rw e ((le, All-weaken other.started_at job.started_at jobs le first), (first, rest))
      | inr e ↦
          let le : job.started_at ≤ other.started_at = ground arith in
          rw e (
            All-insert_job other.started_at job jobs le first,
            insert_job-IsNewestFirst job jobs rest,
          )
    ]

sort_jobs-IsNewestFirst : (jobs : List Job) → IsNewestFirst (sort_jobs jobs)
unfolding sort_jobs
sort_jobs-IsNewestFirst [] = tt
sort_jobs-IsNewestFirst (job ∷ jobs) =
    insert_job-IsNewestFirst job (sort_jobs jobs) (sort_jobs-IsNewestFirst jobs)

count_if-insert_job :
    (p : Job → Bool) (job : Job) (jobs : List Job)
    → count_if p (insert_job job jobs) ≡ count_if p (job ∷ jobs)
unfolding insert_job
count_if-insert_job p job [] = refl
count_if-insert_job p job (other ∷ jobs) = ground (arith, count_if-insert_job p job jobs)

count_if-sort_jobs :
    (p : Job → Bool) (jobs : List Job) → count_if p (sort_jobs jobs) ≡ count_if p jobs
unfolding sort_jobs
count_if-sort_jobs p [] = refl
count_if-sort_jobs p (job ∷ jobs) =
    ground (arith, count_if-insert_job p job (sort_jobs jobs), count_if-sort_jobs p jobs)

-- `list_jobs` gives the jobs in the order of their starts, the newest first, and exactly the jobs of
-- the dict: of each kind as many.
pub list_jobs-IsNewestFirst :
    (s : Jobs) (p : Job → Bool)
    → IsNewestFirst (list_jobs s) × (count_if p (list_jobs s) ≡ count_if p (values s.jobs))
unfolding list_jobs
list_jobs-IsNewestFirst s p =
    (sort_jobs-IsNewestFirst (values s.jobs), count_if-sort_jobs p (values s.jobs))
