-- ===== src/TimeMachine/Outcome.antt =====
-- How a run of a replication ends.
use runvard.Base.{ℕ, String, ◌≡◌, none, some, Result, ok, err}
use runvard.TimeMachine.Records.{Replication, passive, warning}
use runvard.TimeMachine.State.{State}
use runvard.TimeMachine.Run.{World, Ran, finished}

-- What the caller gets.
abbrev pub answer_of : Result String → Result Ran
answer_of (ok path) = ok finished
answer_of (err e) = err e

-- What a run comes to: a transfer whose completion cannot be written has failed.
abbrev pub reached : Result String → (complete_save : Result (Unit {0})) → Result String
reached (err e) saved = err e
reached (ok path) (ok done) = ok path
reached (ok path) (err e) = err e

-- `r` after a transfer to the path.
pub record IsComplete (now : ℕ) (path : String) (r replication : Replication) : Type 0 where
  pub calm : replication.status ≡ passive
  pub time : replication.last_complete_at ≡ some now
  pub place : replication.last_complete_path ≡ some path
  pub error : replication.last_error ≡ none
  pub id : replication.id ≡ r.id
  pub enabled : replication.enabled ≡ r.enabled

-- `r` after a failure: the last complete copy is still the one before.
pub record IsFailed (message : String) (r replication : Replication) : Type 0 where
  pub warned : replication.status ≡ warning
  pub error : replication.last_error ≡ some message
  pub time : replication.last_complete_at ≡ r.last_complete_at
  pub place : replication.last_complete_path ≡ r.last_complete_path
  pub id : replication.id ≡ r.id
  pub enabled : replication.enabled ≡ r.enabled

abbrev pub IsEnd : World → ℕ → Result String → (r replication : Replication) → Type 0
IsEnd world now (ok path) r replication = IsComplete now path r replication
IsEnd world now (err e) r replication = IsFailed (world.shown e) r replication

-- The replication that is found is `r` as the run has left it.
pub record IsOutcome (world : World) (now : ℕ) (transfer : Result String) (r : Replication)
    (found : Result Replication) : Type 0 where
  pub replication : Replication
  pub stored : found ≡ ok replication
  pub ended : IsEnd world now transfer r replication
