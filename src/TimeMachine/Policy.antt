-- ===== src/TimeMachine/Policy.antt =====
-- What `update_replication_policy` makes of a promoted replication.
use runvard.Base.{
  ℕ, String, ◌≡◌, refl, Bool, true, false, some, List, [], ◌∷◌, ◌==◌, arith, leb, Option-cases, inl,
  inr, ap, ◌&&◌, value_error, ok, err, reply, after,
}
use runvard.TimeMachine.Records.{Replication, promoted}
use runvard.TimeMachine.State.{
  State, find_replication, first_where, change_first, has_replication_id, is_promoted,
  update_replication_at,
}
use runvard.TimeMachine.Queue.{is_inactive, apply_policy, update_replication_policy}

first_where-change_first :
    {A : Type 0} (p : A → Bool) (f : A → A) (xs : List A) (x : A)
    → ((y : A) → p (f y) ≡ p y)
    → first_where p xs ≡ some x
    → first_where p (change_first p f xs) ≡ some (f x)
first_where-change_first p f [] x same h = absurd (ground arith)
first_where-change_first p f (y ∷ xs) x same h =
    ground (arith, same y, first_where-change_first p f xs x same)

pub find_replication-update :
    (replication_id : String) (f : Replication → Replication) (rs : List Replication)
    (r : Replication)
    → ((x : Replication) → (f x).id ≡ x.id)
    → find_replication replication_id rs ≡ ok r
    → find_replication replication_id (update_replication_at replication_id f rs) ≡ ok (f r)
unfolding find_replication
find_replication-update replication_id f rs r same h =
    elim (Option-cases (first_where (has_replication_id replication_id) rs)) [
      | inl missing ↦ absurd (ground arith)
      | inr (found, e) ↦ ground (
        arith,
        first_where-change_first (has_replication_id replication_id) f rs found
            (λ y. ap (λ id. id == replication_id) (same y)) e,
      )
    ]

module _ (replication_id : String) (hour bandwidth : ℕ) (actor : String) (now : ℕ)
    (event_id : String) where
  abbrev policy_set : Bool → State → State
  policy_set enabled =
      after (update_replication_policy replication_id hour bandwidth enabled actor now event_id)

  -- An update with proper settings is taken over, unless it enables a promoted replication.
  find-policy_set :
      (enabled : Bool) (s : State) (r : Replication)
      → find_replication replication_id s.replications ≡ ok r
      → (enabled && is_promoted r.status) ≡ false
      → leb hour 23 ≡ true
      → leb bandwidth 100000 ≡ true
      → find_replication replication_id (policy_set enabled s).replications
        ≡ ok (apply_policy hour bandwidth enabled now r)
  unfolding update_replication_policy
  find-policy_set enabled s r known allowed hour_ok bandwidth_ok = ground (
    arith,
    find_replication-update replication_id (apply_policy hour bandwidth enabled now) s.replications
        r (λ x. refl) known,
  )

  update_replication_policy-promoted :
      (s : State) (r : Replication)
      → find_replication replication_id s.replications ≡ ok r
      → r.status ≡ promoted
      → leb hour 23 ≡ true
      → leb bandwidth 100000 ≡ true
      → reply (update_replication_policy replication_id hour bandwidth true actor now event_id) s
        ≡ err (value_error "A promoted replication cannot be re-enabled")
  unfolding update_replication_policy
  update_replication_policy-promoted s r known state hour_ok bandwidth_ok = ground arith

  -- A promoted replication is active again after two updates of its policy, the first of which disables
  -- it and the second enables it, although an update that enables a promoted replication is refused.
  pub promoted_active_again :
      (s : State) (r : Replication)
      → find_replication replication_id s.replications ≡ ok r
      → r.status ≡ promoted
      → leb hour 23 ≡ true
      → leb bandwidth 100000 ≡ true
      → (reply (update_replication_policy replication_id hour bandwidth true actor now event_id) s
          ≡ err (value_error "A promoted replication cannot be re-enabled"))
        × (find_replication replication_id (policy_set true (policy_set false s)).replications
            ≡ ok (apply_policy hour bandwidth true now (apply_policy hour bandwidth false now r)))
        × (is_inactive
              (apply_policy hour bandwidth true now (apply_policy hour bandwidth false now r))
            ≡ false)
  promoted_active_again s r known state hour_ok bandwidth_ok = (
    update_replication_policy-promoted s r known state hour_ok bandwidth_ok,
    find-policy_set true (policy_set false s) (apply_policy hour bandwidth false now r)
        (find-policy_set false s r known refl hour_ok bandwidth_ok) refl hour_ok bandwidth_ok,
    refl,
  )
