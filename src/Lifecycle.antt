-- ===== src/Lifecycle.antt =====
-- src/runpod_jobrunner/lifecycle.py: the run's durable state and its reconciliation.
pub mod State
pub mod Step
pub mod Failures
pub mod Provision
pub mod Start
pub mod Closeout
pub mod Absence
pub mod Delete
pub mod Controller
pub mod History
pub mod Invariant
pub mod Safety
pub mod Durability
pub mod Deadline
pub mod Pods
mod Tests
