-- ===== src/TimeMachine/Retention.antt =====
-- How many protection points pruning keeps.
use runvard.Base.{
  ℕ, ◌≤◌, String, ◌≡◌, refl, sym, ap, subst, Bool, true, false, List, [], ◌∷◌, ◌++◌, not, ◌&&◌,
  ◌==◌, ==-refl, string_dec, leb, ltb, contains, length, keep, count_if, count_if-le, All,
  All-append, All-keep, arith, Result, Result-cases, ok, err, reply, after, inl, inr, Bool-cases,
}
use runvard.TimeMachine.Records.{Target, Point, PointKind, manual, daily, weekly, monthly}
use runvard.TimeMachine.State.{State, find_target}
use runvard.TimeMachine.Targets.{has_quota}
use runvard.TimeMachine.Points.{
  OsPath, Scene, is_kind, insert_point, by_time, all_but_last, retention, surplus, candidates,
  check_point, after_check, destroy_all, forget, prune_protection_points,
}

module _ {A : Type 0} where
  count-keep_swap : (p q : A → Bool) (xs : List A) → count_if p (keep q xs) ≡ count_if q (keep p xs)
  count-keep_swap p q [] = refl
  count-keep_swap p q (x ∷ xs) = ground (arith, count-keep_swap p q xs)

  All-left : (Q : A → Type 0) (xs ys : List A) → All Q (xs ++ ys) → All Q xs
  All-left Q [] ys all = tt
  All-left Q (x ∷ xs) ys (first, all) = (first, All-left Q xs ys all)

  All-right : (Q : A → Type 0) (xs ys : List A) → All Q (xs ++ ys) → All Q ys
  All-right Q [] ys all = all
  All-right Q (x ∷ xs) ys (first, all) = All-right Q xs ys all

module _ (O : OsPath) (decimal : ℕ → String) where
  count-insert_point :
      (q : Point → Bool) (point : Point) (points : List Point)
      → count_if q (insert_point O decimal point points) ≡ count_if q (point ∷ points)
  count-insert_point q point [] = refl
  count-insert_point q point (other ∷ points) = ground (arith, count-insert_point q point points)

  count-by_time :
      (q : Point → Bool) (points : List Point)
      → count_if q (by_time O decimal points) ≡ count_if q points
  count-by_time q [] = refl
  count-by_time q (point ∷ points) =
      ground (arith, count-insert_point q point (by_time O decimal points), count-by_time q points)

  -- Points whose ids are listed, and points whose ids are not.
  abbrev IsListed : List String → Point → Type 0
  IsListed ids point = contains ids point.id ≡ true

  abbrev unlisted : List String → Point → Bool
  unlisted ids point = not (contains ids point.id)

  all_but_last-more :
      (n : ℕ) (point : Point) (points : List Point)
      → ltb n (length (point ∷ points)) ≡ true
      → all_but_last O decimal n (point ∷ points) ≡ point ∷ all_but_last O decimal n points
  all_but_last-more n point points more = rw (more) refl

  count-unlisted-le :
      (ids : List String) (n : ℕ) (points : List Point)
      → All (IsListed ids) (all_but_last O decimal n points)
      → count_if (unlisted ids) points ≤ n
  count-unlisted-le ids n [] all = omega arith
  count-unlisted-le ids n (point ∷ points) all =
      elim (Bool-cases (ltb n (length (point ∷ points)))) [
        | inl more ↦
            let listed : All (IsListed ids) (point ∷ all_but_last O decimal n points) =
              subst (All (IsListed ids)) (all_but_last-more n point points more) all in
            ground (arith, listed.0, count-unlisted-le ids n points listed.1)
        | inr few ↦ ground (arith, count_if-le (unlisted ids) (point ∷ points))
      ]

  IsListed-more :
      (id : String) (ids : List String) (points : List Point)
      → All (IsListed ids) points
      → All (IsListed (id ∷ ids)) points
  IsListed-more id ids [] all = tt
  IsListed-more id ids (point ∷ points) (first, all) =
      (ground arith, IsListed-more id ids points all)

  check_point-true :
      (target : Target) (point : Point) (b : Bool)
      → has_quota point.backend ≡ true
      → check_point O decimal target point ≡ ok b
      → b ≡ true
  unfolding check_point
  check_point-true target point b quota h = ground arith

  after_check-IsListed :
      (destroy : Point → Result (Unit {0})) (point : Point) (points : List Point)
      (checked : Result Bool) (rest : Result (List String)) (ids : List String)
      → ((b : Bool) → checked ≡ ok b → b ≡ true)
      → ((some_ids : List String) → rest ≡ ok some_ids → All (IsListed some_ids) points)
      → after_check O decimal destroy point checked rest ≡ ok ids
      → All (IsListed ids) (point ∷ points)
  after_check-IsListed destroy point points (err e) rest ids right listed h = absurd (ground arith)
  after_check-IsListed destroy point points (ok false) rest ids right listed h =
      absurd (ground (arith, right false refl))
  after_check-IsListed destroy point points (ok true) (err e) ids right listed h =
      absurd (ground arith)
  after_check-IsListed destroy point points (ok true) (ok others) ids right listed h =
      let same : (point.id ∷ others) ≡ ids = ground arith in
      subst (λ i. All (IsListed i) (point ∷ points)) same
        (
          ground (arith, ==-refl point.id),
          IsListed-more point.id others points (listed others refl),
        )

  destroy_all-IsListed :
      (destroy : Point → Result (Unit {0})) (target : Target) (points : List Point)
      (ids : List String)
      → All (λ point. has_quota point.backend ≡ true) points
      → destroy_all O decimal destroy target points ≡ ok ids
      → All (IsListed ids) points
  unfolding destroy_all
  destroy_all-IsListed destroy target [] ids all h = tt
  destroy_all-IsListed destroy target (point ∷ points) ids (first, all) h =
      after_check-IsListed destroy point points (check_point O decimal target point)
        (destroy_all O decimal destroy target points) ids
        (λ b e. check_point-true target point b first e)
        (λ some_ids e. destroy_all-IsListed destroy target points some_ids all e) h

  -- The points of a target and a kind.
  abbrev of_kind : Target → PointKind → Point → Bool
  of_kind target kind point = point.target_id == target.id && is_kind point.kind kind

  count-kept-le :
      (target : Target) (kind : PointKind) (points : List Point) (ids : List String)
      → All (IsListed ids) (surplus O decimal target kind points)
      → count_if (of_kind target kind) (keep (unlisted ids) points)
        ≤ retention O decimal target.protection_policy kind
  unfolding surplus
  count-kept-le target kind points ids listed =
      let mine = keep (of_kind target kind) points in
      omega (
        arith,
        count-keep_swap (of_kind target kind) (unlisted ids) points,
        count-by_time (unlisted ids) mine,
        count-unlisted-le ids (retention O decimal target.protection_policy kind)
            (by_time O decimal mine) listed,
      )

  abbrev HasQuota : Point → Type 0
  HasQuota point = has_quota point.backend ≡ true

  All-insert_point :
      (point : Point) (points : List Point)
      → HasQuota point
      → All HasQuota points
      → All HasQuota (insert_point O decimal point points)
  All-insert_point point [] first all = (first, tt)
  All-insert_point point (other ∷ points) first (next, all) =
      elim (Bool-cases (leb point.created_at other.created_at)) [
        | inl e ↦ rw (e) (first, (next, all))
        | inr e ↦ rw (e) (next, All-insert_point point points first all)
      ]

  All-by_time :
      (points : List Point) → All HasQuota points → All HasQuota (by_time O decimal points)
  All-by_time [] all = tt
  All-by_time (point ∷ points) (first, all) =
      All-insert_point point (by_time O decimal points) first (All-by_time points all)

  All-all_but_last :
      (n : ℕ) (points : List Point)
      → All HasQuota points
      → All HasQuota (all_but_last O decimal n points)
  All-all_but_last n [] all = tt
  All-all_but_last n (point ∷ points) (first, all) =
      elim (Bool-cases (ltb n (length (point ∷ points)))) [
        | inl e ↦ rw (e) (first, All-all_but_last n points all)
        | inr e ↦ rw (e) tt
      ]

  All-surplus :
      (target : Target) (kind : PointKind) (points : List Point)
      → All HasQuota points
      → All HasQuota (surplus O decimal target kind points)
  unfolding surplus
  All-surplus target kind points all =
      All-all_but_last (retention O decimal target.protection_policy kind)
        (by_time O decimal (keep (of_kind target kind) points))
        (All-by_time (keep (of_kind target kind) points)
          (All-keep HasQuota (of_kind target kind) points all))

  All-candidates :
      (target : Target) (points : List Point)
      → All HasQuota points
      → All HasQuota (candidates O decimal target points)
  unfolding candidates
  All-candidates target points all =
      All-append HasQuota (surplus O decimal target daily points) _
        (All-surplus target daily points all)
        (All-append HasQuota (surplus O decimal target weekly points)
          (surplus O decimal target monthly points) (All-surplus target weekly points all)
          (All-surplus target monthly points all))

  surplus-IsListed :
      (target : Target) (kind : PointKind) (points : List Point) (ids : List String)
      → is_kind kind manual ≡ false
      → All (IsListed ids) (candidates O decimal target points)
      → All (IsListed ids) (surplus O decimal target kind points)
  unfolding candidates string_dec
  surplus-IsListed target manual points ids other listed = absurd (ground arith)
  surplus-IsListed target daily points ids other listed =
      All-left (IsListed ids) (surplus O decimal target daily points) _ listed
  surplus-IsListed target weekly points ids other listed =
      All-left (IsListed ids) (surplus O decimal target weekly points)
        (surplus O decimal target monthly points)
        (All-right (IsListed ids) (surplus O decimal target daily points) _ listed)
  surplus-IsListed target monthly points ids other listed =
      All-right (IsListed ids) (surplus O decimal target weekly points)
        (surplus O decimal target monthly points)
        (All-right (IsListed ids) (surplus O decimal target daily points) _ listed)

  keep-unlisted_nil : (points : List Point) → keep (unlisted []) points ≡ points
  keep-unlisted_nil [] = refl
  keep-unlisted_nil (point ∷ points) = ap (λ rest. point ∷ rest) (keep-unlisted_nil points)

  forget_lem :
      (save : Result (Unit {0})) (ids : List String) (s : State) (n : ℕ)
      → reply (forget O decimal save ids) s ≡ ok n
      → (after (forget O decimal save ids) s).protection_points
        ≡ keep (unlisted ids) s.protection_points
  forget_lem save [] s n h = sym (keep-unlisted_nil s.protection_points)
  forget_lem (err e) (id ∷ ids) s n h = absurd (ground arith)
  forget_lem (ok done) (id ∷ ids) s n h = refl

  -- After a pruning that succeeds, a target has no more daily, weekly and monthly points than its policy
  -- keeps of each. All points are assumed to be of ZFS or Btrfs, as those that the code creates are.
  pub prune_protection_points-bounded :
      (target_id : String) (kind : PointKind) (scene : Scene) (s : State) (target : Target)
      (deleted : ℕ)
      → is_kind kind manual ≡ false
      → find_target target_id s.targets ≡ ok target
      → All (λ point. has_quota point.backend ≡ true) s.protection_points
      → reply (prune_protection_points O decimal target_id scene) s ≡ ok deleted
      → count_if
          (λ point. point.target_id == target.id && is_kind point.kind kind)
          (after (prune_protection_points O decimal target_id scene) s).protection_points
        ≤ retention O decimal target.protection_policy kind
  unfolding prune_protection_points
  prune_protection_points-bounded target_id kind scene s target deleted other known quotas h =
      elim (Result-cases (
        destroy_all O decimal scene.destroy target
          (candidates O decimal target s.protection_points))) [
            | inl (e, refused) ↦ absurd (ground arith)
            | inr (ids, done) ↦
                let forgot : reply (forget O decimal scene.save ids) s ≡ ok deleted =
                  ground (arith, known, done) in
                let listed =
                  destroy_all-IsListed scene.destroy target
                    (candidates O decimal target s.protection_points) ids
                    (All-candidates target s.protection_points quotas) done in
                let kept =
                  count-kept-le target kind s.protection_points ids
                    (surplus-IsListed target kind s.protection_points ids other listed) in
                let same : (after (prune_protection_points O decimal target_id scene)
                      s).protection_points
                    ≡ keep (unlisted ids) s.protection_points =
                  ground (arith, known, done, forget_lem scene.save ids s deleted forgot) in
                subst
                  (λ points.
                    count_if (of_kind target kind) points
                    ≤ retention O decimal target.protection_policy kind)
                  (sym same) kept
          ]
