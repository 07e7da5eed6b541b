-- ===== src/Execution/FailurePolicy.antt =====
-- src/sdk_test_agent/execution/policies/failure_policy.py.
use sth_boring.Base.{String, Bool, true, false, if◌then◌else◌, ◌==◌}
use sth_boring.Plan.Enums.{continue, request_replan}

pub record FailurePolicyDecision : Type 0 where
  pub action : String
  pub should_stop : Bool
  pub should_request_replan : Bool

unfoldable pub decide_failure_action : String → FailurePolicyDecision
decide_failure_action on_failure =
    if on_failure == continue
    then record { action = on_failure; should_stop = false; should_request_replan = false }
    else if on_failure == request_replan
    then record { action = on_failure; should_stop = true; should_request_replan = true }
    else record { action = on_failure; should_stop = true; should_request_replan = false }
