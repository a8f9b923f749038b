-- ===== src/TimeMachine/Records.antt =====
-- What the lists of time_machine.json hold: jobs, replications, targets, protection points and events.
use runvard.Base.{ℕ, String, Bool, Option, List}

-- `type` and `status` of a job
pub data JobType : Type 0 where
  replication_job : JobType
  maintenance_job : JobType

pub data JobStatus : Type 0 where
  queued : JobStatus
  running : JobStatus
  completed : JobStatus
  failed : JobStatus
  cancelled : JobStatus

-- A maintenance job has no replication. Its lists of actions and errors are left out.
pub record Job : Type 0 where
  pub id : String
  pub type : JobType
  pub replication_id : String
  pub status : JobStatus
  pub queued_at : Option ℕ
  pub started_at : Option ℕ
  pub finished_at : Option ℕ
  pub recovered_at : Option ℕ
  pub recovery_count : ℕ
  pub error : Option String

pub data ReplicationStatus : Type 0 where
  passive : ReplicationStatus
  replicating : ReplicationStatus
  warning : ReplicationStatus
  paused : ReplicationStatus
  promoted : ReplicationStatus

pub data Kind : Type 0 where
  local_kind : Kind
  remote_kind : Kind

-- `last_scheduled_day` is 0 before the first day.
pub record Replication : Type 0 where
  pub id : String
  pub target_id : String
  pub kind : Kind
  pub remote_host : String
  pub destination_root : String
  pub destination_mount_source : String
  pub enabled : Bool
  pub status : ReplicationStatus
  pub schedule_hour : ℕ
  pub bandwidth_mbps : ℕ
  pub last_scheduled_day : ℕ
  pub created_at : ℕ
  pub updated_at : Option ℕ
  pub last_attempt_at : Option ℕ
  pub last_complete_at : Option ℕ
  pub last_complete_path : Option String
  pub last_error : Option String

pub data Backend : Type 0 where
  zfs : Backend
  btrfs : Backend
  directory : Backend

pub data TargetStatus : Type 0 where
  waiting : TargetStatus
  target_paused : TargetStatus
  critical : TargetStatus
  removed : TargetStatus

pub data PointKind : Type 0 where
  manual : PointKind
  daily : PointKind
  weekly : PointKind
  monthly : PointKind

-- `protection_policy`
pub record Policy : Type 0 where
  pub daily_points : ℕ
  pub weekly_points : ℕ
  pub monthly_points : ℕ

pub record Target : Type 0 where
  pub id : String
  pub enabled : Bool
  pub status : TargetStatus
  pub health_code : String
  pub share_name : String
  pub owner : String
  pub storage_root : String
  pub mount_source : String
  pub path : String
  pub backend : Backend
  pub dataset : String
  pub hard_limit_bytes : ℕ
  pub advertised_bytes : ℕ
  pub protection_policy : Policy
  pub allocated_bytes : Option ℕ
  pub usage_measured_at : Option ℕ
  pub policy_updated_at : Option ℕ
  pub quarantined_at : Option ℕ
  pub removed_at : Option ℕ
  pub last_activity : Option ℕ

pub record Point : Type 0 where
  pub id : String
  pub target_id : String
  pub kind : PointKind
  pub backend : Backend
  pub native_name : String
  pub created_at : ℕ

-- The `type` of an event, with what only events of that type say.
pub data Happening : Type 0 where
  replication_policy_updated :
      (replication_id target_id : String)
      → (old_hour new_hour old_bandwidth new_bandwidth : ℕ) → (was_enabled is_enabled : Bool)
      → Happening
  target_policy_updated :
      (target_id : String)
      → (old_capacity_gb new_capacity_gb : ℕ) → (old_policy new_policy : Policy) → Happening
  target_quarantined : (target_id health_code : String) → Happening
  target_removed :
      (target_id : String) → (disabled_replication_ids cancelled_job_ids : List String) → Happening

pub record Event : Type 0 where
  pub id : String
  pub actor : String
  pub created_at : ℕ
  pub happening : Happening
