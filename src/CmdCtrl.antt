-- ===== src/CmdCtrl.antt =====
-- src/sdk_test_agent/cmd_ctrl: commands and file actions on a sandbox, with their policies.
pub mod Errors
pub mod Paths
pub mod Policies
pub mod Sandbox
pub mod Operators
pub mod Controller
mod Examples
