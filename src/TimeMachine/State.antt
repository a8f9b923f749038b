-- ===== src/TimeMachine/State.antt =====
-- The state of modules/time_machine.py, and what the operations on it share.
use runvard.Base.{
  ℕ, String, Bool, true, false, Option, none, some, List, [], ◌∷◌, ◌++◌, ◌&&◌, ◌||◌, leb, ◌==◌,
  length, if◌then◌else◌, Result, ok, err, Error, value_error, key_error,
}
use runvard.Base.Dict.{Dict}
use runvard.Base.{codes, in_range}
use runvard.Validators.{at_most}
use runvard.TimeMachine.Records.{
  Job, JobType, replication_job, maintenance_job, JobStatus, queued, running, completed, failed,
  cancelled, Replication, ReplicationStatus, passive, replicating, warning, paused, promoted,
  Target, Point, Event,
}

pub record State : Type 0 where
  pub targets : List Target
  pub protection_points : List Point
  pub replications : List Replication
  pub jobs : List Job
  pub events : List Event
  pub alert_cooldowns : Dict ℕ

-- `_default_state`
abbrev pub default_state : State
default_state = record {
  targets = [];
  protection_points = [];
  replications = [];
  jobs = [];
  events = [];
  alert_cooldowns = [];
}

abbrev pub is_replication_job : JobType → Bool
is_replication_job replication_job = true
is_replication_job maintenance_job = false

abbrev pub is_queued : JobStatus → Bool
is_queued queued = true
is_queued running = false
is_queued completed = false
is_queued failed = false
is_queued cancelled = false

abbrev pub is_running : JobStatus → Bool
is_running queued = false
is_running running = true
is_running completed = false
is_running failed = false
is_running cancelled = false

-- `status in {"queued", "running"}`, of the jobs of one replication
abbrev pub is_active_for : String → Job → Bool
is_active_for replication_id job =
    is_replication_job job.type
    && job.replication_id == replication_id
    && (is_queued job.status || is_running job.status)

abbrev pub is_queued_for : String → Job → Bool
is_queued_for replication_id job =
    is_replication_job job.type && job.replication_id == replication_id && is_queued job.status

abbrev pub is_promoted : ReplicationStatus → Bool
is_promoted passive = false
is_promoted replicating = false
is_promoted warning = false
is_promoted paused = false
is_promoted promoted = true

abbrev pub is_paused : ReplicationStatus → Bool
is_paused passive = false
is_paused replicating = false
is_paused warning = false
is_paused paused = true
is_paused promoted = false

abbrev pub is_replicating : ReplicationStatus → Bool
is_replicating passive = false
is_replicating replicating = true
is_replicating warning = false
is_replicating paused = false
is_replicating promoted = false

-- `_ID_RE`: 8 to 32 lowercase hexadecimal digits
abbrev is_hex : ℕ → Bool
is_hex c = in_range b'a' b'f' c || in_range b'0' b'9' c

unfoldable pub is_id : String → Bool
is_id s = let cs = codes s in leb 8 (length cs) && at_most 32 is_hex cs

module _ {A : Type 0} where
  -- `items[-n:]`
  abbrev pub last_of : ℕ → List A → List A
  last_of n [] = []
  last_of n (x ∷ xs) = let rest = last_of n xs in if leb (length (x ∷ xs)) n then x ∷ xs else rest

  -- `next((x for x in xs if p(x)), None)`
  abbrev pub first_where : (A → Bool) → List A → Option A
  first_where p [] = none
  first_where p (x ∷ xs) = let rest = first_where p xs in if p x then some x else rest

  -- `xs[i] = f(xs[i])` at the first index where `p` holds
  abbrev pub change_first : (A → Bool) → (A → A) → List A → List A
  change_first p f [] = []
  change_first p f (x ∷ xs) = let rest = change_first p f xs in if p x then f x ∷ xs else x ∷ rest

  -- `_replication_index` and `_target_index`, with what stands at the index
  abbrev pub found_or : Error → Option A → Result A
  found_or e none = err e
  found_or e (some a) = ok a

abbrev pub has_replication_id : String → Replication → Bool
has_replication_id replication_id r = r.id == replication_id

unfoldable pub find_replication : String → List Replication → Result Replication
find_replication replication_id rs =
    if is_id replication_id
    then found_or (key_error "Time Machine replication not found")
        (first_where (has_replication_id replication_id) rs)
    else err (value_error "Invalid replication id")

unfoldable pub find_target : String → List Target → Result Target
find_target target_id ts =
    if is_id target_id
    then found_or (key_error "Time Machine target not found")
        (first_where (λ target. target.id == target_id) ts)
    else err (value_error "Invalid target id")

-- `state["replications"][index].update(...)`
abbrev pub update_replication_at :
    String → (Replication → Replication) → List Replication → List Replication
update_replication_at replication_id = change_first (has_replication_id replication_id)

abbrev pub update_target_at : String → (Target → Target) → List Target → List Target
update_target_at target_id = change_first (λ target. target.id == target_id)

-- `_append_event`
abbrev pub append_event : Event → List Event → List Event
append_event event events = last_of 200 (events ++ (event ∷ []))
