-- ===== src/TimeMachine/Points.antt =====
-- Protection points of modules/time_machine.py: `create_protection_point`, `list_protection_points` and
-- `prune_protection_points`. `os.path` is a parameter; what the commands and the state file answer is an argument.
use runvard.Base.{
  ℕ, ◌<>◌, String, Bool, true, false, Option, none, some, List, [], ◌∷◌, ◌++◌, not, ◌&&◌, ◌||◌, leb,
  ltb, ◌==◌, length, keep, contains, starts_with, if◌then◌else◌, Result, ok, err, value_error,
  runtime_error, Action, pure, raise_if, lift, gets, continue, ◌>>=◌, ◌>>◌,
}
use runvard.TimeMachine.Records.{
  Target, zfs, btrfs, directory, PointKind, manual, daily, weekly, monthly, Point, Policy,
}
use runvard.TimeMachine.State.{State, is_id, find_target}
use runvard.TimeMachine.Targets.{is_removed, has_quota}

-- `os.path.realpath`, `join` and `commonpath`
pub record OsPath : Type 0 where
  pub realpath : String → String
  pub join : List String → String
  pub commonpath : String → String → String

-- What a call meets: the mount, open handles, the snapshots, and the writing of the state file.
pub record Scene : Type 0 where
  pub mount : Result (Unit {0})
  pub is_busy : Bool
  pub snapshot : Result (Unit {0})
  pub destroy : Point → Result (Unit {0})
  pub save : Result (Unit {0})

pub data Made : Type 0 where
  target_busy : Made
  made : Point → Made

abbrev kind_name : PointKind → String
kind_name manual = "manual"
kind_name daily = "daily"
kind_name weekly = "weekly"
kind_name monthly = "monthly"

abbrev pub is_kind : PointKind → PointKind → Bool
is_kind a b = kind_name a == kind_name b

-- `save_state(candidate)`
abbrev write : Result (Unit {0}) → State → Action State (Unit {0})
write (err e) candidate s = (err e, s)
write (ok done) candidate s = (ok tt, candidate)

module _ (O : OsPath) (decimal : ℕ → String) where
  abbrev protection_root : Target → String
  protection_root target = O.join (target.storage_root ∷ ".runvard-tm-protection" ∷ target.id ∷ [])

  abbrev suffix_of : PointKind → ℕ → String
  suffix_of kind now = "runvard-" <> (kind_name kind <> ("-" <> decimal now))

  abbrev native_name : Target → PointKind → ℕ → String
  native_name target kind now = elim target.backend [
    | zfs ↦ target.dataset <> ("@" <> suffix_of kind now)
    | btrfs ↦ O.join (protection_root target ∷ suffix_of kind now ∷ [])
    | directory ↦ ""
  ]

  abbrev point_of : Target → PointKind → ℕ → (point_id : String) → Point
  point_of target kind now point_id = record {
    id = point_id;
    target_id = target.id;
    kind = kind;
    backend = target.backend;
    native_name = native_name target kind now;
    created_at = now;
  }

  abbrev take_snapshot : Scene → Point → Action State Made
  take_snapshot scene point = do
    lift scene.snapshot
    s ← gets (λ s. s)
    write scene.save (record s { protection_points = s.protection_points ++ (point ∷ []) })
    pure (made point)

  abbrev unless_busy : Bool → Action State Made → Action State Made
  unless_busy busy f = if busy then pure target_busy else f

  -- `now` is the time in whole seconds, and `point_id` the random id.
  unfoldable pub create_protection_point :
      (target_id : String) → PointKind → ℕ → (point_id : String) → Scene → Action State Made
  create_protection_point target_id kind now point_id scene = do
    target ← (λ s. (find_target target_id s.targets, s))
    raise_if (not target.enabled || is_removed target.status) (value_error "Target is not active")
    raise_if (not (has_quota target.backend))
        (value_error "Storage protection points require ZFS or Btrfs")
    lift scene.mount
    unless_busy scene.is_busy (take_snapshot scene (point_of target kind now point_id))

  abbrev of_target : Option String → List Point → Result (List Point)
  of_target none points = ok points
  of_target (some target_id) points =
      if is_id target_id
      then ok (keep (λ point. point.target_id == target_id) points)
      else err (value_error "Invalid target id")

  unfoldable pub list_protection_points : Option String → Action State (List Point)
  list_protection_points target_id s = (of_target target_id s.protection_points, s)

  abbrev pub insert_point : Point → List Point → List Point
  insert_point point [] = point ∷ []
  insert_point point (other ∷ points) =
      let rest = insert_point point points in
      if leb point.created_at other.created_at then point ∷ other ∷ points else other ∷ rest

  -- `sorted(points, key=created_at)`
  abbrev pub by_time : List Point → List Point
  by_time [] = []
  by_time (point ∷ points) = insert_point point (by_time points)

  -- `points[:-n] if n else points`
  abbrev pub all_but_last : ℕ → List Point → List Point
  all_but_last n [] = []
  all_but_last n (point ∷ points) =
      let rest = all_but_last n points in
      if ltb n (length (point ∷ points)) then point ∷ rest else []

  abbrev pub retention : Policy → PointKind → ℕ
  retention policy manual = 0
  retention policy daily = policy.daily_points
  retention policy weekly = policy.weekly_points
  retention policy monthly = policy.monthly_points

  unfoldable pub surplus : Target → PointKind → List Point → List Point
  surplus target kind points =
      all_but_last (retention target.protection_policy kind)
        (by_time (keep (λ point. point.target_id == target.id && is_kind point.kind kind) points))

  unfoldable pub candidates : Target → List Point → List Point
  candidates target points =
      surplus target daily points ++ (surplus target weekly points ++ surplus target monthly points)

  -- Whether a point is to be destroyed; where its name is not one that the code gives, it raises.
  unfoldable pub check_point : Target → Point → Result Bool
  check_point target point = elim point.backend [
    | zfs ↦
        if target.dataset == "" || not (starts_with point.native_name (target.dataset <> "@"))
        then err (runtime_error "Invalid ZFS protection point")
        else ok true
    | btrfs ↦
        let root = O.realpath (protection_root target) in
        let path = O.realpath point.native_name in
        if path == root || not (O.commonpath path root == root)
        then err (runtime_error "Invalid Btrfs protection point")
        else ok true
    | directory ↦ ok false
  ]

  abbrev in_front : String → Result (List String) → Result (List String)
  in_front id (err e) = err e
  in_front id (ok ids) = ok (id ∷ ids)

  abbrev after_destroy : String → Result (Unit {0}) → Result (List String) → Result (List String)
  after_destroy id (err e) rest = err e
  after_destroy id (ok done) rest = in_front id rest

  abbrev pub after_check :
      (Point → Result (Unit {0}))
      → Point
      → Result Bool
      → Result (List String)
      → Result (List String)
  after_check destroy point (err e) rest = err e
  after_check destroy point (ok false) rest = rest
  after_check destroy point (ok true) rest = after_destroy point.id (destroy point) rest

  -- The ids of the points that were destroyed, if all went well.
  unfoldable pub destroy_all :
      (Point → Result (Unit {0})) → Target → List Point → Result (List String)
  destroy_all destroy target [] = ok []
  destroy_all destroy target (point ∷ points) =
      after_check destroy point (check_point target point) (destroy_all destroy target points)

  abbrev pub forget : Result (Unit {0}) → List String → Action State ℕ
  forget save [] s = (ok 0, s)
  forget save (id ∷ ids) s =
      continue save
        (λ done s. (
          ok (length (id ∷ ids)),
          record s {
            protection_points =
                keep (λ point. not (contains (id ∷ ids) point.id)) s.protection_points;
          },
        ))
        s

  unfoldable pub prune_protection_points : (target_id : String) → Scene → Action State ℕ
  prune_protection_points target_id scene = do
    target ← (λ s. (find_target target_id s.targets, s))
    ids ← (λ s. (destroy_all scene.destroy target (candidates target s.protection_points), s))
    forget scene.save ids
