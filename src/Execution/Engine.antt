-- ===== src/Execution/Engine.antt =====
-- src/sdk_test_agent/execution/execution_engine.py: one function per method. `run`, `result` and
-- `step_run` are objects that the source changes in place; here each method returns them anew, and
-- what the source stores before a change is stored after it.
mod Methods
pub mod Spec
pub mod Refinement
pub mod Order
pub mod Totality
pub mod Policy
mod Examples
use sth_boring.Base.{
  ℕ, ◌-◌, String, List, [], ◌∷◌, ◌++◌, Option, none, some, Bool, true, false, not, Exception,
  Result, ok, raise, ◌<>◌, ◌==◌, if◌then◌else◌, all, length, str, or_text, strip,
}
use sth_boring.Base.Dict
use sth_boring.Base.Dict.{Dict}
use sth_boring.Json
use sth_boring.Json.{Fields, Value, no_fields, entry}
use sth_boring.Plan.Models.{PlanStep, ExecutionPlan, ReplanRequest}
use sth_boring.Plan.Enums.{continue, request_replan}
use sth_boring.Execution.StepStatus
use sth_boring.Execution.RunStatus
use sth_boring.Execution.Models.{
  ExecutionStepRun, ExecutionRun, StepExecutionResult, ExecutionRunResult, ExecutionContext,
}
use sth_boring.Execution.Action.{
  State, Action, pure, catch, throw, and_then, ◌>>=◌, ◌>>◌, PersistRequest, Services,
}
use sth_boring.Execution.Recording.{
  now, new_id, get_context, start_step_run, mark_skipped, finish_step_run,
  finish_artifact_recording,
}
use sth_boring.Execution.Registry.{StepExecutor, StepExecutorRegistry, lookup}

-- What the loop of `run` carries from step to step.
pub record Progress : Type 0 where
  pub run : ExecutionRun
  pub step_results : Dict StepExecutionResult
  pub step_status : Dict String

-- The body of the loop goes on to the next step, or returns from `run`.
pub data Flow : Type 0 where
  next : Progress → Flow
  return : ExecutionRunResult → Flow

abbrev is_succeeded : Option String → Bool
is_succeeded none = false
is_succeeded (some status) = status == StepStatus.succeeded

pub dependencies_satisfied : PlanStep → Dict String → Bool
dependencies_satisfied step step_status =
    all (λ dep. is_succeeded (Dict.get dep step_status)) step.depends_on

-- `_result_from_exception`
pub result_from_exception : Exception → StepExecutionResult
result_from_exception exc = record {
  status = StepStatus.failed;
  outputs = no_fields;
  artifact_refs = [];
  stdout = none;
  stderr = none;
  log_text = none;
  error_type = some exc.class_name;
  error_message = some exc.message;
  metadata = no_fields;
}

-- `{k: v for ...}` of the step outputs, as a value
step_outputs_value : Dict Fields → Fields
step_outputs_value [] = no_fields
step_outputs_value ((k, v) ∷ d) = entry k (Value.obj v) (step_outputs_value d)

abbrev add_step_run : ExecutionRun → ExecutionStepRun → ExecutionRun
add_step_run run step_run = record run { step_runs = run.step_runs ++ step_run ∷ [] }

pub initial : ExecutionRun → Progress
initial run = record { run = run; step_results = []; step_status = [] }

module _ {W : Type 0} (services : Services W) where
  -- `_create_run`
  pub create_run : ExecutionPlan → Action W ExecutionRun
  create_run plan = do
    t ← now services
    context ← get_context services
    pure (record {
      run_id = context.run_id;
      task_id = or_text (some context.task_id) plan.task_id;
      plan_id = or_text (some context.plan_id) plan.plan_id;
      status = RunStatus.running;
      started_at = some t;
      finished_at = none;
      step_runs = [];
      result_summary = none;
      metadata =
          entry "planner_name" (Value.str plan.planner_name)
            (entry "planner_version" (Value.str plan.planner_version) no_fields);
    })

  -- `_build_replan_request`
  pub build_replan_request : ExecutionPlan → PlanStep → StepExecutionResult → Action W ReplanRequest
  unfolding step_outputs_value
  build_replan_request plan step result = do
    context ← get_context services
    t ← now services
    pure (record {
      task_id = or_text (some context.task_id) plan.task_id;
      parent_plan_id = plan.plan_id;
      reason = or_text result.error_message ("step " <> step.step_id <> " requested replan");
      failed_step_id = some step.step_id;
      execution_observations =
          strip (
            "step "
            <> step.step_id
            <> " ("
            <> step.kind
            <> ") failed with "
            <> or_text result.error_type result.status
            <> ": "
            <> or_text result.error_message "")
          ∷ [];
      latest_env_report_ref = Dict.get "latest_env_report" context.artifact_refs;
      latest_artifact_refs = Dict.values context.artifact_refs;
      metadata =
          entry "step_outputs" (Value.obj (step_outputs_value context.step_outputs))
            (entry "run_id" (Value.str context.run_id) no_fields);
      created_at = some t;
    })

  -- The end of `run`, the same on its three ways out but for the status, the text and the request.
  pub conclude : String → String → Option ReplanRequest → Progress → Action W ExecutionRunResult
  conclude status result_summary replan_request p = do
    t ← now services
    let run = record p.run {
      status = status;
      finished_at = some t;
      result_summary = some result_summary;
    }
    refs ← finish_artifact_recording services run p.step_results
    pure (record {
      run = run;
      status = status;
      step_results = p.step_results;
      replan_request = replan_request;
      metadata = no_fields;
      artifact_refs = refs;
    })

  -- `run.step_runs.append(step_run)`, `step_results[...] = result`, `step_status[...] = ...`
  pub record_step : PlanStep → ExecutionStepRun → StepExecutionResult → Progress → Progress
  record_step step step_run result p = record {
    run = add_step_run p.run step_run;
    step_results = Dict.put step.step_id result p.step_results;
    step_status = Dict.put step.step_id result.status p.step_status;
  }

  -- `context.step_outputs[step.step_id] = result.outputs`
  abbrev save_outputs : PlanStep → StepExecutionResult → Action W (Unit {0})
  save_outputs step result s = (
    ok tt,
    record s {
      context = record s.context {
        step_outputs = Dict.put step.step_id result.outputs s.context.step_outputs;
      };
    },
  )

  -- The branch `REQUEST_REPLAN`: the result, the step run and the status table are changed after
  -- they were stored.
  pub wait_for_replan :
      ExecutionPlan → PlanStep → ExecutionStepRun → StepExecutionResult → Progress → Action W Flow
  wait_for_replan plan step step_run result p = do
    let waiting = record result { status = StepStatus.waiting_replan }
    request ← build_replan_request plan step waiting
    answer ←
        conclude RunStatus.waiting_replan
          ("Execution waiting for replan after step " <> step.step_id <> ".") (some request)
          (record_step step (record step_run { status = StepStatus.waiting_replan }) waiting p)
    pure (return answer)

  pub abort_run : PlanStep → ExecutionStepRun → StepExecutionResult → Progress → Action W Flow
  abort_run step step_run result p = do
    answer ←
        conclude RunStatus.failed
          ("Execution failed at step "
            <> step.step_id
            <> ": "
            <> or_text result.error_message result.status)
          none (record_step step step_run result p)
    pure (return answer)

  -- What follows `_finish_step_run` in the loop.
  pub settle :
      ExecutionPlan → PlanStep → ExecutionStepRun → StepExecutionResult → Progress → Action W Flow
  settle plan step step_run result p =
      if result.status == StepStatus.succeeded
      then (do save_outputs step result; pure (next (record_step step step_run result p)))
      else if step.on_failure == continue
      then pure (next (record_step step step_run result p))
      else if step.on_failure == request_replan
      then wait_for_replan plan step step_run result p
      else abort_run step step_run result p

  module _ (registry : StepExecutorRegistry W) where
    -- `self.registry.get(step.kind)`
    pub get_executor : String → Action W (StepExecutor W)
    get_executor kind s = (lookup registry kind, s)

    -- `try: executor.execute(step, context)` / `except Exception`
    pub attempt : StepExecutor W → PlanStep → Action W StepExecutionResult
    attempt executor step = catch (executor.execute step) (λ exc. pure (result_from_exception exc))

    -- The body of the `for` loop, for a step whose dependencies succeeded, and for one that is skipped.
    pub execute_step : ExecutionPlan → PlanStep → Progress → Action W Flow
    execute_step plan step p = do
      executor ← get_executor step.kind
      started ← start_step_run services step p.run
      result ← attempt executor step
      finished ← finish_step_run services started result
      settle plan step finished.0 finished.1 p

    pub skip_step : PlanStep → Progress → Action W Flow
    skip_step step p = do
      skipped ← mark_skipped services step p.run
      pure (
          next (record {
            run = add_step_run p.run skipped;
            step_results = p.step_results;
            step_status = Dict.put step.step_id StepStatus.skipped p.step_status;
          }))

    pub visit : ExecutionPlan → PlanStep → Progress → Action W Flow
    visit plan step p =
        if dependencies_satisfied step p.step_status
        then execute_step plan step p
        else skip_step step p

    pub steps_loop : ExecutionPlan → List PlanStep → Progress → Action W ExecutionRunResult
    steps_loop plan [] p =
        conclude RunStatus.succeeded
          ("Execution succeeded with " <> str (length p.run.step_runs) <> " step run(s).") none p
    steps_loop plan (step ∷ steps) p =
        let rest = λ (p' : Progress). steps_loop plan steps p' in
        do flow ← visit plan step p; elim flow [ next p' ↦ rest p' | return answer ↦ pure answer ]

    pub run : ExecutionPlan → Action W ExecutionRunResult
    run plan = do run' ← create_run plan; steps_loop plan plan.steps (initial run')
