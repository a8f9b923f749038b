-- ===== src/TimeMachine/Claims.antt =====
-- The claims on sources and destinations that a run of a replication takes and gives back.
use runvard.Base.{
  Result-cases, ℕ, String, ◌≡◌, true, false, Option, List, [], ◌∷◌, ◌++◌, not, arith, keep, ok, err,
  Error, reply, after, Bool-cases, inl, inr, runtime_error, ==-refl,
}
use runvard.TimeMachine.Records.{Job, Replication, Target}
use runvard.TimeMachine.State.{find_replication, find_target}
use runvard.TimeMachine.Run.{
  World, Worker, claim_key, is_claimed, same_key, claim_replication, release_replication,
  update_replication, pick_job, start_replication, run_replication,
}

keep-unclaimed :
    (key : String × String) (active : List (String × String))
    → is_claimed key active ≡ false
    → keep (λ other. not (same_key other key)) (active ++ (key ∷ [])) ≡ active
keep-unclaimed (source, destination) [] h = ground arith
keep-unclaimed (source, destination) ((a, b) ∷ active) h =
    ground (arith, keep-unclaimed (source, destination) active)

module _ (world : World) (replication_id : String) (now : ℕ) where
  start_replication-active :
      (r found : Replication) (target : Target) (job_id : Option String) (fresh : String)
      (job : Job) (w : Worker)
      → find_replication replication_id w.state.replications ≡ ok found
      → pick_job job_id fresh replication_id now w.state ≡ ok job
      → world.begin_save ≡ ok tt
      → (after (start_replication world replication_id now r target job_id fresh) w).active
        ≡ w.active
  unfolding start_replication claim_replication release_replication update_replication
  start_replication-active r found target job_id fresh job w known picked begun =
      elim (Bool-cases (is_claimed (claim_key r target) w.active)) [
        | inl e ↦ ground arith
        | inr e ↦ ground (arith, keep-unclaimed (claim_key r target) w.active e)
      ]

  -- If the job that a run of a replication is asked to run can be picked, and the state file can be written
  -- when the run begins, the claims after the run are those before it, however the checks, the transfer and
  -- the later writes of the state file end, and whatever other threads do to the state during the
  -- transfer.
  pub run_replication-active :
      (job_id : Option String) (fresh : String) (job : Job) (w : Worker)
      → pick_job job_id fresh replication_id now w.state ≡ ok job
      → world.begin_save ≡ ok tt
      → (after (run_replication world replication_id now job_id fresh) w).active ≡ w.active
  unfolding run_replication
  run_replication-active job_id fresh job w picked begun =
      elim (Result-cases (find_replication replication_id w.state.replications)) [
        | inl (e, refused) ↦ ground arith
        | inr (r, known) ↦ elim (Result-cases (find_target r.target_id w.state.targets)) [
          | inl (e, refused) ↦ ground arith
          | inr (target, at) ↦
              ground
                (arith, start_replication-active r r target job_id fresh job w known picked begun)
        ]
      ]

is_claimed_self :
    (source destination : String) (active : List (String × String))
    → is_claimed (source, destination) (active ++ ((source, destination) ∷ [])) ≡ true
is_claimed_self source destination [] = ground (arith, ==-refl source)
is_claimed_self source destination (other ∷ active) =
    ground (arith, is_claimed_self source destination active)

-- Where the job cannot be picked, the claim is kept: the next run between the same places is refused,
-- whatever its job.
pub start_replication-leaks :
    (world later_world : World) (replication_id : String) (now later : ℕ) (r : Replication)
    (target : Target) (lost next : Option String) (fresh : String) (e : Error) (w : Worker)
    → is_claimed (claim_key r target) w.active ≡ false
    → pick_job lost fresh replication_id now w.state ≡ err e
    → reply
        (start_replication later_world replication_id later r target next fresh)
        (after (start_replication world replication_id now r target lost fresh) w)
      ≡ err (runtime_error "Another replication is active for this source or destination")
unfolding start_replication claim_replication
start_replication-leaks world later_world replication_id now later r target lost next fresh e w free
      unpicked =
    let (source, destination) = claim_key r target in
    ground (arith, is_claimed_self source destination w.active)
