-- ===== src/Execution/Engine/Examples.antt =====
-- Runs of small plans, and the theorems at them.
use sth_boring.Base.{
  ℕ, ◌+◌, Exception, ◌⊎◌, inl, inr, String, List, [], ◌∷◌, none, some, true, false, Result, ok,
  raise, ◌≡◌, ◌≢◌, refl, ◌<>◌, str, map, ap, sym, all, strip, ◌==◌, arith,
}
use Prim.Native.Char.{code}
use text.Mathlib.TextBridge.{to_list}
use sth_boring.Base.Dict
use sth_boring.Json.{no_fields}
use sth_boring.Plan.Models.{PlanStep, ExecutionPlan}
use sth_boring.Plan.Enums.{abort, continue, request_replan, low}
use sth_boring.Execution.StepStatus
use sth_boring.Execution.RunStatus
use sth_boring.Execution.Models.{ExecutionRunResult, ExecutionStepRun, StepExecutionResult}
use sth_boring.Execution.Action.{State, Services, PersistRequest, ◌>>=◌}
use sth_boring.Execution.Registry.{StepExecutorRegistry, lookup}
use sth_boring.Execution.FailurePolicy.{decide_failure_action}
use sth_boring.Execution.Engine.Policy.{Follows, settle-decide}
use sth_boring.Execution.Recording.{
  start_step_run, mark_skipped, finish_step_run, finish_artifact_recording, persist,
  persist_optional, add_ref,
}
use sth_boring.Execution.Recording.Totality.{RaiseOnly}
use sth_boring.Execution.Engine.{
  Progress, next, run, steps_loop, visit, execute_step, skip_step, settle, conclude,
  wait_for_replan, abort_run, build_replan_request, create_run, record_step, get_executor, attempt,
  dependencies_satisfied, initial, result_from_exception,
}
use sth_boring.Execution.Engine.Spec.{Runs}
use sth_boring.Execution.Engine.Refinement.{run-Runs}
use sth_boring.Execution.Engine.Order.{IsBacked, run-IsBacked, run_complete}
use sth_boring.Execution.Engine.Totality.{IsSupported, run-Ends, run-Returns}

abbrev step : String → String → List String → String → PlanStep
step id kind deps on_failure = record {
  step_id = id;
  title = id;
  kind = kind;
  intent = "test";
  depends_on = deps;
  branch_group = none;
  branch_condition = none;
  inputs = no_fields;
  expected_outputs = [];
  required_capabilities = [];
  timeout_sec = none;
  retryable = false;
  optional = false;
  risk_level = low;
  on_failure = on_failure;
  on_success = none;
  metadata = no_fields;
}

abbrev plan : List PlanStep → ExecutionPlan
plan steps = record {
  plan_id = "plan_1";
  task_id = "task_1";
  task_type = "sdk_deploy";
  goal = "test execution";
  planner_kind = "demo";
  planner_name = "test_planner";
  planner_version = "v1";
  status = "validated";
  steps = steps;
  assumptions = [];
  missing_information = [];
  risk_notes = [];
  global_constraints = no_fields;
  plan_metadata = no_fields;
  parent_plan_id = none;
  revision_no = 0;
  created_at = none;
}

-- The world is a counter: the clock and the ids read it and advance it.
abbrev store : PersistRequest → ℕ → Result String × ℕ
store req w = (ok ("artifact_" <> str w), w + 1)

abbrev counter : Services ℕ
counter = record {
  time_func = λ w. (w, w + 1);
  new_id = λ prefix w. (prefix <> "_" <> str w, w + 1);
  encode = λ t. ok (map code (to_list t));
  dumps = λ run results. ok run.run_id;
  artifact_manager = some store;
}

abbrev start : State ℕ
start = record {
  world = 0;
  context = record {
    task_id = "task_1";
    plan_id = "plan_1";
    run_id = "run_1";
    variables = no_fields;
    step_outputs = [];
    artifact_refs = [];
    runtime_refs = no_fields;
    metadata = no_fields;
  };
}

abbrev result : String → StepExecutionResult
result status = record {
  status = status;
  outputs = no_fields;
  artifact_refs = [];
  stdout = some "out";
  stderr = none;
  log_text = none;
  error_type = none;
  error_message = none;
  metadata = no_fields;
}

-- `good` succeeds, `bad` returns a failure, and `broken` raises.
abbrev registry : StepExecutorRegistry ℕ
registry =
    ("good", record { step_kind = "good"; execute = λ _ s. (ok (result StepStatus.succeeded), s) })
    ∷ ("bad", record { step_kind = "bad"; execute = λ _ s. (ok (result StepStatus.failed), s) })
    ∷ (
      "broken",
      record {
        step_kind = "broken";
        execute = λ _ s. (raise (record { class_name = "ValueError"; message = "no" }), s);
      },
    )
    ∷ []

program : Unit {0}
unfolding run create_run initial steps_loop visit execute_step skip_step settle conclude
    wait_for_replan abort_run build_replan_request record_step get_executor attempt
    dependencies_satisfied result_from_exception start_step_run mark_skipped finish_step_run
    finish_artifact_recording persist persist_optional add_ref lookup ◌>>=◌ Dict.get Dict.put
    Dict.values all str strip
program = tt

abbrev statuses : Result ExecutionRunResult → List String
statuses (ok a) = a.status ∷ map (λ sr. sr.status) a.run.step_runs
statuses (raise e) = e.message ∷ []

abbrev skipping : ExecutionPlan
skipping = plan (
    step "a" "broken" [] continue
    ∷ step "b" "good" ("a" ∷ []) abort
    ∷ step "c" "good" [] abort
    ∷ [])

run_skipping :
    statuses (run counter registry skipping start).0
    ≡ RunStatus.succeeded ∷ StepStatus.failed ∷ StepStatus.skipped ∷ StepStatus.succeeded ∷ []
unfolding program
run_skipping = refl

run_replanning :
    statuses (run counter registry (plan (step "a" "bad" [] request_replan ∷ [])) start).0
    ≡ RunStatus.waiting_replan ∷ StepStatus.waiting_replan ∷ []
unfolding program
run_replanning = refl

run_unsupported :
    statuses (run counter registry (plan (step "a" "missing" [] continue ∷ [])) start).0
    ≡ "unsupported execution step kind: missing" ∷ []
unfolding program
run_unsupported = refl

skipping-IsSupported : IsSupported registry skipping.steps
unfolding Dict.get
skipping-IsSupported = ((_, refl), ((_, refl), ((_, refl), tt)))

counter-RaiseOnly : RaiseOnly (λ _. ⊥) counter
counter-RaiseOnly = record {
  encodes = λ t. inl (_, refl);
  writes = λ run results. inl (_, refl);
  stores = λ req w. inl (_, refl);
}

-- A store that is full.
abbrev full : Services ℕ
full = record counter {
  artifact_manager =
      some (λ req w. (raise (record { class_name = "OSError"; message = "no space" }), w));
}

abbrev IsOsError : Exception → Type 0
IsOsError e = e.class_name ≡ "OSError"

full-RaiseOnly : RaiseOnly IsOsError full
full-RaiseOnly = record {
  encodes = λ t. inl (_, refl);
  writes = λ run results. inl (_, refl);
  stores = λ req w. inr (_, refl, refl);
}

run-Ends_example :
    ((a : ExecutionRunResult) × ((run full registry skipping start).0 ≡ ok a))
    ⊎ ((e : Exception) × ((run full registry skipping start).0 ≡ raise e) × IsOsError e)
run-Ends_example =
    run-Ends IsOsError full full-RaiseOnly registry skipping skipping-IsSupported start

-- The result of the run above.
abbrev ran : (a : ExecutionRunResult) × ((run counter registry skipping start).0 ≡ ok a)
ran = run-Returns counter registry skipping counter-RaiseOnly skipping-IsSupported start

run-Runs_example :
    Runs skipping.steps [] ran.0.run.step_runs ran.0.status ran.0.replan_request
    × (ran.0.run.status ≡ ran.0.status)
run-Runs_example = run-Runs counter skipping registry start ran.0 ran.1

run-IsBacked_example : IsBacked [] skipping.steps ran.0.run.step_runs
run-IsBacked_example = run-IsBacked counter skipping registry start ran.0 ran.1

status_of : Result ExecutionRunResult → String
status_of (ok a) = a.status
status_of (raise e) = e.message

ran_succeeded : ran.0.status ≡ RunStatus.succeeded
unfolding program status_of
ran_succeeded =
    let e : (run counter registry skipping start).0 ≡ ok ran.0 = ran.1 in
    let same : RunStatus.succeeded ≡ status_of (ok ran.0) = ap status_of e in sym same

run_complete_example : map (λ sr. sr.step_id) ran.0.run.step_runs ≡ "a" ∷ "b" ∷ "c" ∷ []
run_complete_example = run_complete counter skipping registry start ran.0 ran.1 ran_succeeded

abbrev failed_run : ExecutionStepRun
failed_run = record {
  step_run_id = "stp_1";
  run_id = "run_1";
  step_id = "a";
  step_kind = "bad";
  status = StepStatus.failed;
  started_at = some 1;
  finished_at = some 2;
  duration_ms = some 1000;
  inputs_snapshot = no_fields;
  outputs = no_fields;
  artifact_refs = [];
  stdout_ref = none;
  stderr_ref = none;
  log_ref = none;
  error_type = none;
  error_message = none;
  metadata = no_fields;
}

abbrev fresh : Progress
fresh = record { run = ran.0.run; step_results = []; step_status = [] }

abbrev going_on : PlanStep
going_on = step "a" "bad" [] continue

settled :
    (settle counter skipping going_on failed_run (result StepStatus.failed) fresh start).0
    ≡ ok (next (record_step counter going_on failed_run (result StepStatus.failed) fresh))
unfolding settle
settled = refl

failed_not_succeeded : (result StepStatus.failed).status ≢ StepStatus.succeeded
failed_not_succeeded same =
    let e : false ≡ true = ap (λ x. x == StepStatus.succeeded) same in absurd (ground arith)

settle-decide_example :
    Follows
      (decide_failure_action continue)
      (next (record_step counter going_on failed_run (result StepStatus.failed) fresh))
settle-decide_example =
    settle-decide counter skipping going_on failed_run (result StepStatus.failed) fresh start
      (next (record_step counter going_on failed_run (result StepStatus.failed) fresh))
      failed_not_succeeded settled
