-- ===== src/Execution/Recording.antt =====
-- The methods of src/sdk_test_agent/execution/execution_engine.py that use the clock, the source of
-- ids, the encoder, the JSON writer and the artifact manager.
pub mod Totality
use sth_boring.Base.{
  ℕ, ◌-◌, String, List, [], ◌∷◌, ◌++◌, Option, none, some, Bool, true, false, not, Exception,
  Result, ok, raise, ◌<>◌, ◌==◌, if◌then◌else◌, all, length, str, or_text, strip,
}
use sth_boring.Base.Dict
use sth_boring.Base.Dict.{Dict}
use sth_boring.Json
use sth_boring.Json.{Fields, Value, no_fields, entry}
use sth_boring.Plan.Models.{PlanStep, ExecutionPlan, ReplanRequest}
use sth_boring.Plan.Enums.{continue, request_replan}
use sth_boring.Execution.StepStatus
use sth_boring.Execution.RunStatus
use sth_boring.Execution.Models.{
  ExecutionStepRun, ExecutionRun, StepExecutionResult, ExecutionRunResult, ExecutionContext,
}
use sth_boring.Execution.Action.{
  State, Action, pure, throw, and_then, ◌>>=◌, ◌>>◌, PersistRequest, Services,
}

-- `if ref: refs.append(ref)`
unfoldable pub add_ref : Option String → List String → List String
add_ref none refs = refs
add_ref (some ref) refs = if ref == "" then refs else refs ++ ref ∷ []

-- `except TypeError`: the positional call, which has the first six arguments.
abbrev pub positional : PersistRequest → PersistRequest
positional req = record req { mime_type = none; created_by_action = none }

module _ {W : Type 0} where
  -- One call of the artifact manager, with the bytes of a text, if it can be encoded.
  abbrev pub send :
      (PersistRequest → W → Result String × W)
      → Result (List ℕ)
      → (List ℕ → PersistRequest)
      → W
      → Result String × W
  send manager (ok bytes) req w = manager (req bytes) w
  send manager (raise exc) req w = (raise exc, w)

  -- The `try` of `_persist_text`; the text is encoded again for the second call.
  pub persist_with :
      (PersistRequest → W → Result String × W)
      → Result (List ℕ)
      → (List ℕ → PersistRequest)
      → W
      → Result String × W
  persist_with manager encoded req w =
      let (reply, w') = send manager encoded req w in
      elim reply [
        | ok ref ↦ (ok ref, w')
        | raise exc ↦
            if exc.class_name == "TypeError"
            then send manager encoded (λ bytes. positional (req bytes)) w'
            else (raise exc, w')
      ]

module _ {W : Type 0} (services : Services W) where
  abbrev pub now : Action W ℕ
  now s = let (t, w) = services.time_func s.world in (ok t, record s { world = w })

  abbrev pub new_id : String → Action W String
  new_id prefix s = let (id, w) = services.new_id prefix s.world in (ok id, record s { world = w })

  abbrev pub get_context : Action W ExecutionContext
  get_context s = (ok s.context, s)

  abbrev record_ref : String → String → Action W (Option String)
  record_ref name ref s = (
    ok (some ref),
    record s {
      context = record s.context { artifact_refs = Dict.put name ref s.context.artifact_refs };
    },
  )

  pub persist_by :
      Option (PersistRequest → W → Result String × W)
      → String
      → Result (List ℕ)
      → (List ℕ → PersistRequest)
      → Action W (Option String)
  unfolding persist_with
  persist_by none name encoded req = pure none
  persist_by (some manager) name encoded req = do
    ref ← λ s.
        let (reply, w) = persist_with manager encoded req s.world in (reply, record s { world = w })
    record_ref name ref

  -- `_persist_text`
  unfoldable pub persist : String → String → String → String → Action W (Option String)
  unfolding persist_by
  persist kind name content mime_type = do
    context ← get_context
    persist_by services.artifact_manager name (services.encode content) (λ bytes. record {
      task_id = context.task_id;
      stage_id = none;
      kind = kind;
      name = name;
      content = bytes;
      subdir = "outputs";
      mime_type = some mime_type;
      created_by_action = some "execution";
    })

  -- `if text is not None: ref = self._persist_text(...)`
  unfoldable pub persist_optional : String → String → Option String → Action W (Option String)
  unfolding persist
  persist_optional kind name none = pure none
  persist_optional kind name (some t) = persist kind name t "text/plain"

  -- `step_run.duration_ms = max(0, finished - started)`, when it was started
  abbrev elapsed : Option ℕ → ℕ → Option ℕ → Option ℕ
  elapsed none finished duration = duration
  elapsed (some started) finished duration = some (finished - started)

  -- `_start_step_run`
  unfoldable pub start_step_run : PlanStep → ExecutionRun → Action W ExecutionStepRun
  start_step_run step run = do
    id ← new_id "step_run"
    t ← now
    pure (record {
      step_run_id = id;
      run_id = run.run_id;
      step_id = step.step_id;
      step_kind = step.kind;
      status = StepStatus.running;
      started_at = some t;
      finished_at = none;
      duration_ms = none;
      inputs_snapshot = step.inputs;
      outputs = no_fields;
      artifact_refs = [];
      stdout_ref = none;
      stderr_ref = none;
      log_ref = none;
      error_type = none;
      error_message = none;
      metadata = no_fields;
    })

  -- `_mark_skipped_due_to_dependency`
  unfoldable pub mark_skipped : PlanStep → ExecutionRun → Action W ExecutionStepRun
  mark_skipped step run = do
    t ← now
    id ← new_id "step_run"
    pure (record {
      step_run_id = id;
      run_id = run.run_id;
      step_id = step.step_id;
      step_kind = step.kind;
      status = StepStatus.skipped;
      started_at = some t;
      finished_at = some t;
      duration_ms = some 0;
      inputs_snapshot = step.inputs;
      outputs = no_fields;
      artifact_refs = [];
      stdout_ref = none;
      stderr_ref = none;
      log_ref = none;
      error_type = some "DependencyNotSatisfied";
      error_message = some "one or more dependencies did not succeed";
      metadata = no_fields;
    })

  -- `_finish_step_run`: the step run and the result as it leaves them
  unfoldable pub finish_step_run :
      ExecutionStepRun → StepExecutionResult → Action W (ExecutionStepRun × StepExecutionResult)
  finish_step_run step_run result = do
    t ← now
    out ← persist_optional "exec.stdout" (step_run.step_id <> ".stdout.txt") result.stdout
    err ← persist_optional "exec.stderr" (step_run.step_id <> ".stderr.txt") result.stderr
    log ← persist_optional "exec.log" (step_run.step_id <> ".log.txt") result.log_text
    let refs = λ (old : List String). add_ref log (add_ref err (add_ref out old))
    pure (
      record step_run {
        finished_at = some t;
        duration_ms = elapsed step_run.started_at t step_run.duration_ms;
        status = result.status;
        outputs = result.outputs;
        artifact_refs = refs result.artifact_refs;
        stdout_ref = out;
        stderr_ref = err;
        log_ref = log;
        error_type = result.error_type;
        error_message = result.error_message;
        metadata = result.metadata;
      },
      record result { artifact_refs = refs result.artifact_refs },
    )

  -- `_finish_artifact_recording`
  unfoldable pub finish_artifact_recording :
      ExecutionRun → Dict StepExecutionResult → Action W (List String)
  finish_artifact_recording run step_results = do
    payload ← λ s. (services.dumps run step_results, s)
    ref ← persist "report.json" (run.run_id <> ".execution_summary.json") payload "application/json"
    pure (add_ref ref [])
