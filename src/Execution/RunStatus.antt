-- ===== src/Execution/RunStatus.antt =====
-- ExecutionRunStatus of src/sdk_test_agent/execution/execution_enums.py.
use sth_boring.Base.{String}

abbrev pub running : String
running = "running"

abbrev pub succeeded : String
succeeded = "succeeded"

abbrev pub failed : String
failed = "failed"

abbrev pub waiting_replan : String
waiting_replan = "waiting_replan"
