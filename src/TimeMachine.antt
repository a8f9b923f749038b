-- ===== src/TimeMachine.antt =====
-- modules/time_machine.py: the state file and what changes it. The state is what `load_state` reads
-- and `save_state` writes; every time is an argument, in microseconds. What the commands, the mounts and the
-- files do is given to the operations by their results.
pub mod Records
pub mod State
pub mod Samba
pub mod Rollback
pub mod Targets
pub mod Removal
pub mod Retired
pub mod Queue
pub mod Recovery
pub mod Run
pub mod Settled
pub mod Claims
pub mod Outcome
pub mod Waiting
pub mod Policy
pub mod Single
pub mod Points
pub mod Retention
pub mod Tests
pub mod SiteTests
