-- ===== src/Execution.antt =====
-- src/sdk_test_agent/execution: the serial interpreter of plans.
pub mod StepStatus
pub mod RunStatus
pub mod Models
pub mod FailurePolicy
pub mod Action
pub mod Registry
pub mod Recording
pub mod Engine
