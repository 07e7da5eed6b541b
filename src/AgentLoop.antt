-- ===== src/AgentLoop.antt =====
-- src/sdk_test_agent/agent_loop: the loop from a request to a report.
pub mod Bindings
pub mod Nodes
pub mod TaskCheck
pub mod Preflight
pub mod Graph
pub mod Interaction
mod Examples
