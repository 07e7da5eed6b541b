-- ===== src/Execution/Models.antt =====
-- src/sdk_test_agent/execution/execution_models.py and execution_context.py. Of the context the
-- handles of other components are not data: the executors and the artifact manager are arguments of
-- the engine. Clock values are numbers of milliseconds.
use sth_boring.Base.{ℕ, String, Option, List}
use sth_boring.Base.Dict.{Dict}
use sth_boring.Json.{Fields}
use sth_boring.Plan.Models.{ReplanRequest}

pub record ExecutionStepRun : Type 0 where
  pub step_run_id : String
  pub run_id : String
  pub step_id : String
  pub step_kind : String
  pub status : String
  pub started_at : Option ℕ
  pub finished_at : Option ℕ
  pub duration_ms : Option ℕ
  pub inputs_snapshot : Fields
  pub outputs : Fields
  pub artifact_refs : List String
  pub stdout_ref : Option String
  pub stderr_ref : Option String
  pub log_ref : Option String
  pub error_type : Option String
  pub error_message : Option String
  pub metadata : Fields

pub record ExecutionRun : Type 0 where
  pub run_id : String
  pub task_id : String
  pub plan_id : String
  pub status : String
  pub started_at : Option ℕ
  pub finished_at : Option ℕ
  pub step_runs : List ExecutionStepRun
  pub result_summary : Option String
  pub metadata : Fields

pub record StepExecutionResult : Type 0 where
  pub status : String
  pub outputs : Fields
  pub artifact_refs : List String
  pub stdout : Option String
  pub stderr : Option String
  pub log_text : Option String
  pub error_type : Option String
  pub error_message : Option String
  pub metadata : Fields

pub record ExecutionRunResult : Type 0 where
  pub run : ExecutionRun
  pub status : String
  pub step_results : Dict StepExecutionResult
  pub replan_request : Option ReplanRequest
  pub artifact_refs : List String
  pub metadata : Fields

pub record ExecutionContext : Type 0 where
  pub task_id : String
  pub plan_id : String
  pub run_id : String
  pub variables : Fields
  pub step_outputs : Dict Fields
  pub artifact_refs : Dict String
  pub runtime_refs : Fields
  pub metadata : Fields
