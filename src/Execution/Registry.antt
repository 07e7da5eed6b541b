-- ===== src/Execution/Registry.antt =====
-- src/sdk_test_agent/execution/step_executor_registry.py, with the exception of execution_errors.py
-- and the protocol of step_executor_base.py: an executor is an action on the context and the world.
use sth_boring.Base.{String, List, none, some, Exception, Result, ok, raise, ◌<>◌}
use sth_boring.Base.Dict.{Dict, get, put, keys}
use sth_boring.Plan.Models.{PlanStep}
use sth_boring.Execution.Models.{StepExecutionResult}
use sth_boring.Execution.Action.{Action}

pub record StepExecutor (W : Type 0) : Type 0 where
  pub step_kind : String
  pub execute : PlanStep → Action W StepExecutionResult

abbrev pub StepExecutorRegistry : Type 0 → Type 0
StepExecutorRegistry W = Dict (StepExecutor W)

abbrev pub unsupported_step_kind : String → Exception
unsupported_step_kind kind = record {
  class_name = "ExecutionUnsupportedStepKindError";
  message = "unsupported execution step kind: " <> kind;
}

module _ {W : Type 0} where
  unfoldable pub register : StepExecutor W → StepExecutorRegistry W → StepExecutorRegistry W
  register executor r = put executor.step_kind executor r

  unfoldable pub lookup : StepExecutorRegistry W → String → Result (StepExecutor W)
  lookup r kind = elim (get kind r) [ none ↦ raise (unsupported_step_kind kind) | some x ↦ ok x ]

  unfoldable pub supported_step_kinds : StepExecutorRegistry W → List String
  supported_step_kinds r = keys r
