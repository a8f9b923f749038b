-- ===== src/TimeMachine/Single.antt =====
-- How many jobs of one replication wait or run.
use runvard.Base.{
  ℕ, suc, ◌≤◌, String, ◌≡◌, refl, Bool, true, false, Option, none, some, List, [], ◌∷◌, ◌++◌, not,
  ◌==◌, if◌then◌else◌, arith, map, Result, reply, after, count_if, count_if-append, length, ap,
  keeps_rules, Keeps, Keeps-read, Keeps-bind, Keeps-then, Keeps-raise_if, Keeps-continue,
  Keeps-pure, Keeps-if, raise_if, value_error, Bool-cases, inl, inr, Result-cases, subst, sym, ==→≡,
  ==-refl,
}
use runvard.TimeMachine.Records.{Job, Replication}
use runvard.TimeMachine.State.{State, is_active_for, first_where, find_replication, last_of}
use runvard.TimeMachine.Queue.{
  LocalTime, is_inactive, waiting_job, enqueue, cancel, queue_replication, schedule_each,
  schedule_due_replications, set_day, set_policy, is_due, update_replication_policy,
}
use runvard.TimeMachine.Settled.{
  IsFate, untouched, for_good, once_more, AreFates, recover_interrupted_jobs-AreFates,
  recover_interrupted_jobs-err,
}
use runvard.TimeMachine.Recovery.{recover_interrupted_jobs}

module _ {A : Type 0} where
  pub count-last_of-le :
      (p : A → Bool) (n : ℕ) (xs : List A) → count_if p (last_of n xs) ≤ count_if p xs
  count-last_of-le p n [] = omega arith
  count-last_of-le p n (x ∷ xs) = ground (arith, count-last_of-le p n xs)

  pub length-last_of-le : (n : ℕ) (xs : List A) → length (last_of n xs) ≤ n
  length-last_of-le n [] = omega arith
  length-last_of-le n (x ∷ xs) = ground (arith, length-last_of-le n xs)

  first_where-none : (p : A → Bool) (xs : List A) → first_where p xs ≡ none → count_if p xs ≡ 0
  first_where-none p [] h = refl
  first_where-none p (x ∷ xs) h = ground (arith, first_where-none p xs)

-- At most a hundred jobs are kept, and at most one of each replication waits or runs.
pub record IsOrderly (s : State) : Type 0 where
  pub bounded : length s.jobs ≤ 100
  pub single : (replication_id : String) → count_if (is_active_for replication_id) s.jobs ≤ 1

count-waiting_job :
    (asked job_id replication_id : String) (now : ℕ) (jobs : List Job)
    → count_if (is_active_for replication_id) jobs ≡ 0
    → count_if (is_active_for asked) jobs ≤ 1
    → count_if (is_active_for asked) (jobs ++ (waiting_job job_id replication_id now ∷ [])) ≤ 1
count-waiting_job asked job_id replication_id now jobs free le =
    elim (Bool-cases (replication_id == asked)) [
      | inl e ↦
          subst
            (λ id.
              count_if (is_active_for id) (jobs ++ (waiting_job job_id replication_id now ∷ []))
              ≤ 1)
            (==→≡ replication_id asked e)
            (ground (
              arith,
              ==-refl replication_id,
              count_if-append (is_active_for replication_id) jobs
                  (waiting_job job_id replication_id now ∷ []),
            ))
      | inr e ↦ ground (
        arith,
        count_if-append (is_active_for asked) jobs (waiting_job job_id replication_id now ∷ []),
      )
    ]

enqueue-IsOrderly :
    (existing : Option Job) (job_id replication_id : String) (now : ℕ) (s : State)
    → first_where (is_active_for replication_id) s.jobs ≡ existing
    → IsOrderly s
    → IsOrderly (after (enqueue existing job_id replication_id now) s)
enqueue-IsOrderly (some job) job_id replication_id now s e h = h
enqueue-IsOrderly none job_id replication_id now s e h =
    let jobs = s.jobs ++ (waiting_job job_id replication_id now ∷ []) in
    record {
      bounded = length-last_of-le 100 jobs;
      single = λ asked. omega (
        arith,
        count-last_of-le (is_active_for asked) 100 jobs,
        count-waiting_job asked job_id replication_id now s.jobs
            (first_where-none (is_active_for replication_id) s.jobs e) (h.single asked),
      );
    }

queue_replication-IsOrderly :
    (replication_id : String) (now : ℕ) (job_id : String)
    → Keeps IsOrderly (queue_replication replication_id now job_id)
unfolding queue_replication
queue_replication-IsOrderly replication_id now job_id =
    Keeps-bind _ _ (Keeps-read (λ s. find_replication replication_id s.replications)) λ r.
      Keeps-then (raise_if (is_inactive r) (value_error "Replication is not active")) _
        (Keeps-raise_if _ _)
        (record {
          at = λ s h.
              enqueue-IsOrderly (first_where (is_active_for replication_id) s.jobs) job_id
                replication_id now s refl h;
        })

set_day-IsOrderly :
    (replication_id : String) (day : ℕ) → Keeps IsOrderly (set_day replication_id day)
set_day-IsOrderly replication_id day = record {
  at = λ s h.
      Keeps-continue {P = IsOrderly} (find_replication replication_id s.replications) _ s
        (λ r. record { at = λ s h. record { bounded = h.bounded; single = h.single } }) h;
}

schedule_each-IsOrderly :
    (local : LocalTime) (fresh : String → ℕ × String) (rs : List Replication)
    → Keeps IsOrderly (schedule_each local fresh rs)
unfolding schedule_each
schedule_each-IsOrderly local fresh [] = Keeps-pure []
schedule_each-IsOrderly local fresh (r ∷ rs) =
    let rest = schedule_each-IsOrderly local fresh rs in
    Keeps-if (not (is_due local r)) _ _ rest (
      Keeps-bind _ _ (queue_replication-IsOrderly r.id (fresh r.id).0 (fresh r.id).1) λ answer.
        Keeps-then _ _ (set_day-IsOrderly r.id local.day) (Keeps-bind _ _ rest λ ids. Keeps-pure _))

count-cancel-le :
    (asked replication_id : String) (now : ℕ) (jobs : List Job)
    → count_if (is_active_for asked) (map (cancel replication_id now) jobs)
      ≤ count_if (is_active_for asked) jobs
count-cancel-le asked replication_id now [] = omega arith
count-cancel-le asked replication_id now (job ∷ jobs) =
    ground (arith, count-cancel-le asked replication_id now jobs)

length-cancel :
    (replication_id : String) (now : ℕ) (jobs : List Job)
    → length (map (cancel replication_id now) jobs) ≡ length jobs
length-cancel replication_id now [] = refl
length-cancel replication_id now (job ∷ jobs) = ap suc (length-cancel replication_id now jobs)

set_policy-IsOrderly :
    (replication_id : String) (hour bandwidth : ℕ) (enabled : Bool) (actor : String) (now : ℕ)
    (event_id : String) (r : Replication) (s : State)
    → IsOrderly s
    → IsOrderly (set_policy replication_id hour bandwidth enabled actor now event_id r s)
set_policy-IsOrderly replication_id hour bandwidth true actor now event_id r s h = record {
  bounded = h.bounded;
  single = h.single;
}
set_policy-IsOrderly replication_id hour bandwidth false actor now event_id r s h = record {
  bounded = omega (arith, length-cancel replication_id now s.jobs, h.bounded);
  single = λ asked. omega (arith, count-cancel-le asked replication_id now s.jobs, h.single asked);
}

update_replication_policy-IsOrderly :
    (replication_id : String) (hour bandwidth : ℕ) (enabled : Bool) (actor : String) (now : ℕ)
    (event_id : String)
    → Keeps IsOrderly
        (update_replication_policy replication_id hour bandwidth enabled actor now event_id)
unfolding update_replication_policy
update_replication_policy-IsOrderly replication_id hour bandwidth enabled actor now event_id =
    search (keeps_rules, Keeps-read, set_policy-IsOrderly) depth 12

count-fate-le :
    (asked : String) (job other : Job)
    → IsFate job other
    → (if is_active_for asked other then 1 else 0) ≤ (if is_active_for asked job then 1 else 0)
count-fate-le asked job _ (untouched e) = omega arith
count-fate-le asked job other (for_good e same state) = ground arith
count-fate-le asked job other (once_more e type same state count low) = ground arith

AreFates-le :
    (asked : String) (jobs others : List Job)
    → AreFates jobs others
    → count_if (is_active_for asked) others ≤ count_if (is_active_for asked) jobs
AreFates-le asked [] [] fates = omega arith
AreFates-le asked [] (other ∷ others) fates = absurd fates
AreFates-le asked (job ∷ jobs) [] fates = absurd fates
AreFates-le asked (job ∷ jobs) (other ∷ others) (fate, fates) =
    ground (arith, AreFates-le asked jobs others fates, count-fate-le asked job other fate)

AreFates-length : (jobs others : List Job) → AreFates jobs others → length others ≡ length jobs
AreFates-length [] [] fates = refl
AreFates-length [] (other ∷ others) fates = absurd fates
AreFates-length (job ∷ jobs) [] fates = absurd fates
AreFates-length (job ∷ jobs) (other ∷ others) (fate, fates) =
    ap suc (AreFates-length jobs others fates)

recover_interrupted_jobs-IsOrderly :
    (cleanup : Replication → Result (Unit {0})) (now : ℕ)
    → Keeps IsOrderly (recover_interrupted_jobs cleanup now)
recover_interrupted_jobs-IsOrderly cleanup now = record {
  at = λ s h. elim (Result-cases (reply (recover_interrupted_jobs cleanup now) s)) [
    | inl (e, refused) ↦
        subst IsOrderly (sym (recover_interrupted_jobs-err cleanup now s e refused)) h
    | inr (answer, done) ↦
        let fates = recover_interrupted_jobs-AreFates cleanup now s answer done in
        let jobs = (after (recover_interrupted_jobs cleanup now) s).jobs in
        record {
          bounded = omega (arith, h.bounded, AreFates-length s.jobs jobs fates);
          single = λ asked. omega (arith, AreFates-le asked s.jobs jobs fates, h.single asked);
        }
  ];
}

-- The calls that change which jobs wait.
pub data QueueCall : Type 0 where
  queue : (replication_id : String) → ℕ → (job_id : String) → QueueCall
  schedule : LocalTime → (fresh : String → ℕ × String) → QueueCall
  set_replication_policy :
      (replication_id : String)
      → (hour bandwidth : ℕ) → (enabled : Bool) → (actor : String) → ℕ
      → (event_id : String) → QueueCall
  recover : (cleanup : Replication → Result (Unit {0})) → ℕ → QueueCall

unfoldable pub perform : QueueCall → State → State
perform (queue replication_id now job_id) s = after (queue_replication replication_id now job_id) s
perform (schedule local fresh) s = after (schedule_due_replications local fresh) s
perform (set_replication_policy replication_id hour bandwidth enabled actor now event_id) s =
    after (update_replication_policy replication_id hour bandwidth enabled actor now event_id) s
perform (recover cleanup now) s = after (recover_interrupted_jobs cleanup now) s

unfoldable pub perform_all : List QueueCall → State → State
perform_all [] s = s
perform_all (call ∷ calls) s = perform_all calls (perform call s)

perform-IsOrderly : (call : QueueCall) (s : State) → IsOrderly s → IsOrderly (perform call s)
unfolding perform schedule_due_replications
perform-IsOrderly (queue replication_id now job_id) s h =
    (queue_replication-IsOrderly replication_id now job_id).at s h
perform-IsOrderly (schedule local fresh) s h =
    (schedule_each-IsOrderly local fresh s.replications).at s h
perform-IsOrderly (set_replication_policy replication_id hour bandwidth enabled actor now event_id)
      s h =
    (update_replication_policy-IsOrderly replication_id hour bandwidth enabled actor now
        event_id).at
      s h
perform-IsOrderly (recover cleanup now) s h =
    (recover_interrupted_jobs-IsOrderly cleanup now).at s h

-- Whatever replications are queued, scheduled, paused, changed and recovered, in whatever order and
-- whether the calls succeed or not, at most a hundred jobs are kept, and of no replication more than one
-- waits or runs, if that holds before them.
pub perform_all-IsOrderly :
    (calls : List QueueCall) (s : State) → IsOrderly s → IsOrderly (perform_all calls s)
unfolding perform_all
perform_all-IsOrderly [] s h = h
perform_all-IsOrderly (call ∷ calls) s h =
    perform_all-IsOrderly calls (perform call s) (perform-IsOrderly call s h)
