-- ===== src/TimeMachine/Retired.antt =====
-- What is left of a target that was removed, and of targets that cannot be used.
use runvard.Base.{
  ℕ, String, ◌≡◌, refl, sym, subst, true, false, Option, none, some, List, [], ◌∷◌, ◌&&◌, ◌||◌,
  ◌==◌, count_if, map, arith, Result-cases, ok, reply, after, inl, inr, Bool-cases, Option-cases,
  All,
}
use runvard.TimeMachine.Records.{Job, Replication, Target}
use runvard.TimeMachine.State.{State, find_target}
use runvard.TimeMachine.Targets.{
  is_removed, unavailable, Mount, Site, Host, any_of, commit, quarantine_code, quarantine_target,
  quarantined, codes_of, commit_found, quarantine_unavailable_targets,
}
use runvard.TimeMachine.Removal.{
  ids_of, is_running_of, is_queued_of, retire, cancel_of, without_target, remove_target,
}

-- The target's replications are off, and none of their jobs waits or runs.
pub record IsRetired (target_id : String) (s : State) : Type 0 where
  pub off : count_if (λ r. r.target_id == target_id && r.enabled) s.replications ≡ 0
  pub idle :
      count_if
        (λ job.
          is_queued_of (ids_of target_id s.replications) job
          || is_running_of (ids_of target_id s.replications) job)
        s.jobs
      ≡ 0

module _ (H : Host) where
  commit-ok :
      (candidate : State) (w : Site)
      → reply (commit H candidate) w ≡ ok tt
      → (after (commit H candidate) w).state ≡ candidate
  unfolding commit
  commit-ok candidate w h = elim (Result-cases H.save) [
    | inl (e, failed) ↦ absurd (ground arith)
    | inr (done, saved) ↦ ground arith
  ]

ids_of-retire :
    (target_id : String) (now : ℕ) (rs : List Replication)
    → ids_of target_id (map (retire target_id now) rs) ≡ ids_of target_id rs
ids_of-retire target_id now [] = refl
ids_of-retire target_id now (r ∷ rs) = ground (arith, ids_of-retire target_id now rs)

count-retire :
    (target_id : String) (now : ℕ) (rs : List Replication)
    → count_if (λ r. r.target_id == target_id && r.enabled) (map (retire target_id now) rs) ≡ 0
count-retire target_id now [] = refl
count-retire target_id now (r ∷ rs) = ground (arith, count-retire target_id now rs)

count-cancel_of :
    (ids : List String) (now : ℕ) (jobs : List Job)
    → any_of (is_running_of ids) jobs ≡ false
    → count_if (λ job. is_queued_of ids job || is_running_of ids job) (map (cancel_of ids now) jobs)
      ≡ 0
count-cancel_of ids now [] h = refl
count-cancel_of ids now (job ∷ jobs) h = ground (arith, count-cancel_of ids now jobs)

without_target-IsRetired :
    (target_id actor : String) (now : ℕ) (event_id : String) (s : State)
    → any_of (is_running_of (ids_of target_id s.replications)) s.jobs ≡ false
    → IsRetired target_id (without_target target_id actor now event_id s)
unfolding without_target
without_target-IsRetired target_id actor now event_id s quiet = record {
  off = count-retire target_id now s.replications;
  idle =
      rw (ids_of-retire target_id now s.replications)
        (count-cancel_of (ids_of target_id s.replications) now s.jobs quiet);
}

module _ (H : Host) where
  -- A target that was removed has no replication that is on, and no job of its replications waits or
  -- runs. In particular it is not removed while one runs.
  pub remove_target-IsRetired :
      (target_id actor : String) (now : ℕ) (event_id : String) (w : Site)
      → reply (remove_target H target_id actor now event_id) w ≡ ok tt
      → IsRetired target_id (after (remove_target H target_id actor now event_id) w).state
  unfolding remove_target
  remove_target-IsRetired target_id actor now event_id w h =
      elim (Result-cases (find_target target_id w.state.targets)) [
        | inl (e, refused) ↦ absurd (ground arith)
        | inr (target, known) ↦
            elim (Bool-cases
              (any_of (is_running_of (ids_of target_id w.state.replications)) w.state.jobs)) [
                | inl busy ↦ absurd (ground arith)
                | inr quiet ↦
                    let candidate = without_target target_id actor now event_id w.state in
                    let committed : reply (commit H candidate) w ≡ ok tt =
                      ground (arith, known, quiet) in
                    let same : (after (remove_target H target_id actor now event_id) w).state
                        ≡ candidate =
                      ground (arith, known, quiet, commit-ok H candidate w committed) in
                    subst (IsRetired target_id) (sym same)
                      (without_target-IsRetired target_id actor now event_id w.state quiet)
              ]
      ]

  -- The root of the target is a mount point of its own, the device there is the one that the target was
  -- made on, where it has one written down, and the folder is there.
  pub record IsAvailable (target : Target) : Type 0 where
    pub mount : Mount
    pub rooted : (target.storage_root == "") ≡ false
    pub found : H.mount_info target.storage_root ≡ some mount
    pub own : (H.realpath mount.mountpoint == H.realpath target.storage_root) ≡ true
    pub device : (target.mount_source == "" || mount.source == target.mount_source) ≡ true
    pub folder : H.is_dir target.path ≡ true

  pub data IsUsable (target : Target) : Type 0 where
    off : target.enabled ≡ false → IsUsable target
    gone : is_removed target.status ≡ true → IsUsable target
    available : IsAvailable target → IsUsable target

  unavailable-IsAvailable : (target : Target) → unavailable H target ≡ none → IsAvailable target
  unfolding unavailable
  unavailable-IsAvailable target h = elim (Bool-cases (target.storage_root == "")) [
    | inl e ↦ absurd (ground arith)
    | inr e ↦ elim (Option-cases (H.mount_info target.storage_root)) [
      | inl lost ↦ absurd (ground arith)
      | inr (mount, at) ↦ record {
        mount = mount;
        rooted = e;
        found = at;
        own = ground arith;
        device = ground arith;
        folder = ground arith;
      }
    ]
  ]

  quarantine_code-IsUsable : (target : Target) → quarantine_code H target ≡ none → IsUsable target
  unfolding quarantine_code
  quarantine_code-IsUsable target h = elim (Bool-cases target.enabled) [
    | inr e ↦ IsUsable.off e
    | inl on ↦ elim (Bool-cases (is_removed target.status)) [
      | inl e ↦ IsUsable.gone e
      | inr e ↦ IsUsable.available (unavailable-IsAvailable target (ground arith))
    ]
  ]

  codes_of-none : (targets : List Target) → codes_of H targets ≡ [] → All IsUsable targets
  codes_of-none [] h = tt
  codes_of-none (target ∷ targets) h = elim (Option-cases (quarantine_code H target)) [
    | inl e ↦ (quarantine_code-IsUsable target e, codes_of-none targets (ground arith))
    | inr (code, e) ↦ absurd (ground arith)
  ]

  quarantined-IsUsable :
      (now : ℕ) (target : Target) (code : Option String)
      → quarantine_code H target ≡ code
      → IsUsable (quarantined H now code target)
  quarantined-IsUsable now target none e = quarantine_code-IsUsable target e
  quarantined-IsUsable now target (some code) e = IsUsable.off refl

  quarantine_target-IsUsable :
      (now : ℕ) (target : Target) → IsUsable (quarantine_target H now target)
  quarantine_target-IsUsable now target =
      quarantined-IsUsable now target (quarantine_code H target) refl

  All-quarantine_target :
      (now : ℕ) (targets : List Target) → All IsUsable (map (quarantine_target H now) targets)
  All-quarantine_target now [] = tt
  All-quarantine_target now (target ∷ targets) =
      (quarantine_target-IsUsable now target, All-quarantine_target now targets)

  commit_found-IsUsable :
      (found : List (String × String)) (candidate : State) (w : Site)
      (answer : List (String × String))
      → codes_of H w.state.targets ≡ found
      → All IsUsable candidate.targets
      → reply (commit_found H found candidate) w ≡ ok answer
      → All IsUsable (after (commit_found H found candidate) w).state.targets
  commit_found-IsUsable [] candidate w answer none_found usable h =
      codes_of-none w.state.targets none_found
  commit_found-IsUsable (item ∷ items) candidate w answer some_found usable h =
      elim (Result-cases (reply (commit H candidate) w)) [
        | inl (e, refused) ↦ absurd (ground arith)
        | inr (done, taken) ↦
            let same : (after (commit_found H (item ∷ items) candidate) w).state ≡ candidate =
              ground (arith, commit-ok H candidate w taken) in
            subst (λ s. All IsUsable s.targets) (sym same) usable
      ]

  -- After a pass that succeeds, every target that is still on, and not removed, has a root that is a mount
  -- point of its own and a folder that exists, and the device mounted there is the one that the target has
  -- written down, where it has one.
  pub quarantine_unavailable_targets-IsUsable :
      (event_ids : String → String) (now : ℕ) (w : Site) (answer : List (String × String))
      → reply (quarantine_unavailable_targets H event_ids now) w ≡ ok answer
      → All IsUsable (after (quarantine_unavailable_targets H event_ids now) w).state.targets
  unfolding quarantine_unavailable_targets
  quarantine_unavailable_targets-IsUsable event_ids now w answer h =
      commit_found-IsUsable (codes_of H w.state.targets) _ w answer refl
        (All-quarantine_target now w.state.targets) h
