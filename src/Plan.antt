-- ===== src/Plan.antt =====
-- src/sdk_test_agent/plan: the planning layer.
pub mod Models
pub mod Enums
pub mod Issues
pub mod Validator
pub mod StepChecks
pub mod SnapshotChecks
pub mod Validation
pub mod Finalizer
pub mod Examples
