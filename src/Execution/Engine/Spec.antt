-- ===== src/Execution/Engine/Spec.antt =====
-- What a run of a plan may look like, with no clock, no ids, no artifacts and no executors: the step
-- runs, in order, against a table of the last status of each step id.
use sth_boring.Base.{String, List, [], ◌∷◌, Option, none, some, ◌≡◌, ◌≢◌, ◌⊎◌, All}
use sth_boring.Base.Dict
use sth_boring.Base.Dict.{Dict}
use sth_boring.Plan.Models.{PlanStep, ReplanRequest}
use sth_boring.Plan.Enums.{continue, request_replan}
use sth_boring.Execution.StepStatus
use sth_boring.Execution.RunStatus
use sth_boring.Execution.Models.{ExecutionStepRun}

-- Every step that `step` depends on has status succeeded in the table.
abbrev pub IsReady : PlanStep → Dict String → Type 0
IsReady step table = All (λ dep. Dict.get dep table ≡ some StepStatus.succeeded) step.depends_on

-- `sr` is the run of `step`.
abbrev pub IsOf : ExecutionStepRun → PlanStep → Type 0
IsOf sr step = sr.step_id ≡ step.step_id

abbrev pub enter : PlanStep → ExecutionStepRun → Dict String → Dict String
enter step sr table = Dict.put step.step_id sr.status table

pub data Runs
    : List PlanStep
      → Dict String
      → List ExecutionStepRun
      → String
      → Option ReplanRequest
      → Type 0 where
  finish : {table : Dict String} → Runs [] table [] RunStatus.succeeded none
  skip :
      {step : PlanStep} {steps : List PlanStep} {table : Dict String} {sr : ExecutionStepRun}
      {srs : List ExecutionStepRun} {status : String} {rq : Option ReplanRequest}
      → IsOf sr step
      → ¬ IsReady step table
      → sr.status ≡ StepStatus.skipped
      → Runs steps (enter step sr table) srs status rq
      → Runs (step ∷ steps) table (sr ∷ srs) status rq
  go_on :
      {step : PlanStep} {steps : List PlanStep} {table : Dict String} {sr : ExecutionStepRun}
      {srs : List ExecutionStepRun} {status : String} {rq : Option ReplanRequest}
      → IsOf sr step
      → IsReady step table
      → (sr.status ≡ StepStatus.succeeded) ⊎ (step.on_failure ≡ continue)
      → Runs steps (enter step sr table) srs status rq
      → Runs (step ∷ steps) table (sr ∷ srs) status rq
  wait :
      {step : PlanStep} {steps : List PlanStep} {table : Dict String} {sr : ExecutionStepRun}
      {rq : ReplanRequest}
      → IsOf sr step
      → IsReady step table
      → step.on_failure ≡ request_replan
      → sr.status ≡ StepStatus.waiting_replan
      → rq.failed_step_id ≡ some step.step_id
      → Runs (step ∷ steps) table (sr ∷ []) RunStatus.waiting_replan (some rq)
  fail :
      {step : PlanStep} {steps : List PlanStep} {table : Dict String} {sr : ExecutionStepRun}
      → IsOf sr step
      → IsReady step table
      → step.on_failure ≢ continue
      → step.on_failure ≢ request_replan
      → sr.status ≢ StepStatus.succeeded
      → Runs (step ∷ steps) table (sr ∷ []) RunStatus.failed none
