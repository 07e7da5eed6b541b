-- ===== src/Capability.antt =====
-- src/sdk_test_agent/capability: the contract of what steps a plan may hold.
pub mod Schema
pub mod SchemaValidation
pub mod Models
pub mod Registry
pub mod Builtin
pub mod Panel
pub mod Validator
pub mod Resolution
pub mod Examples
