-- ===== src/Execution/Engine/Totality.antt =====
-- What `run` raises: a failing executor ends no run with an exception.
use sth_boring.Base.{
  String, List, [], ◌∷◌, Option, some, ok, raise, Exception, ◌⊎◌, inl, inr, ◌≡◌, refl, All,
}
use sth_boring.Base.Dict
use sth_boring.Plan.Models.{PlanStep, ExecutionPlan, ReplanRequest}
use sth_boring.Execution.Models.{ExecutionStepRun, StepExecutionResult, ExecutionRunResult}
use sth_boring.Execution.Action.{State, Services, Ends, Ends-bind, Ends-pure, Ends-if, Ends-catch}
use sth_boring.Execution.Registry.{StepExecutor, StepExecutorRegistry, lookup}
use sth_boring.Execution.Recording.Totality.{
  RaiseOnly, now-Ends, new_id-Ends, get_context-Ends, start_step_run-Ends, mark_skipped-Ends,
  finish_step_run-Ends, finish_artifact_recording-Ends,
}
use sth_boring.Execution.Engine.{
  Progress, next, return, create_run, build_replan_request, conclude, settle, save_outputs,
  wait_for_replan, abort_run, get_executor, attempt, execute_step, skip_step, visit, steps_loop,
  run,
}

-- Each step's kind has an executor.
abbrev pub IsSupported : {W : Type 0} → StepExecutorRegistry W → List PlanStep → Type 0
IsSupported {W} registry steps =
    All (λ step. (x : StepExecutor W) × (Dict.get step.kind registry ≡ some x)) steps

module _ {W : Type 0} (E : Exception → Type 0) (services : Services W)
    (only : RaiseOnly E services) where
  ruleset method_rules = (Ends-bind, Ends-pure, now-Ends, new_id-Ends, get_context-Ends)

  conclude-Ends :
      (status txt : String) (rq : Option ReplanRequest) (p : Progress)
      → Ends E (conclude services status txt rq p)
  unfolding conclude
  conclude-Ends status txt rq p =
      search (method_rules, finish_artifact_recording-Ends E services only)

  save_outputs-Ends :
      (step : PlanStep) (r : StepExecutionResult) → Ends E (save_outputs services step r)
  save_outputs-Ends step r = record { at = λ s. inl (tt, refl) }

  settle-Ends :
      (plan : ExecutionPlan) (step : PlanStep) (sr : ExecutionStepRun) (r : StepExecutionResult)
      (p : Progress)
      → Ends E (settle services plan step sr r p)
  unfolding settle wait_for_replan abort_run build_replan_request
  settle-Ends plan step sr r p =
      search (method_rules, Ends-if, conclude-Ends, save_outputs-Ends) depth 12

  attempt-Ends :
      (registry : StepExecutorRegistry W) (x : StepExecutor W) (step : PlanStep)
      → Ends E (attempt services registry x step)
  unfolding attempt
  attempt-Ends registry x step = Ends-catch _ _ (λ exc. Ends-pure _)

  get_executor-Ends :
      (registry : StepExecutorRegistry W) (kind : String) (x : StepExecutor W)
      → Dict.get kind registry ≡ some x
      → Ends E (get_executor services registry kind)
  unfolding get_executor lookup
  get_executor-Ends registry kind x found = record { at = λ s. inl (x, rw (found, lookup)) }

  module _ (registry : StepExecutorRegistry W) (plan : ExecutionPlan) where
    execute_step-Ends :
        (step : PlanStep) (p : Progress) (x : StepExecutor W)
        → Dict.get step.kind registry ≡ some x
        → Ends E (execute_step services registry plan step p)
    unfolding execute_step
    execute_step-Ends step p x found =
        Ends-bind _ _ (get_executor-Ends registry step.kind x found) λ executor.
          Ends-bind _ _ (start_step_run-Ends E services step p.run) λ started.
            Ends-bind _ _ (attempt-Ends registry executor step) λ result.
              Ends-bind _ _ (finish_step_run-Ends E services only started result)
                λ finished. settle-Ends plan step _ _ p

    skip_step-Ends : (step : PlanStep) (p : Progress) → Ends E (skip_step services registry step p)
    unfolding skip_step
    skip_step-Ends step p =
        Ends-bind _ _ (mark_skipped-Ends E services step p.run) λ skipped. Ends-pure _

    visit-Ends :
        (step : PlanStep) (p : Progress)
        → (x : StepExecutor W) × (Dict.get step.kind registry ≡ some x)
        → Ends E (visit services registry plan step p)
    unfolding visit
    visit-Ends step p (x, found) =
        Ends-if _ _ _ (execute_step-Ends step p x found) (skip_step-Ends step p)

    steps_loop-Ends :
        (steps : List PlanStep) (p : Progress)
        → IsSupported registry steps
        → Ends E (steps_loop services registry plan steps p)
    unfolding steps_loop
    steps_loop-Ends [] p h = conclude-Ends _ _ _ p
    steps_loop-Ends (step ∷ steps) p (found, h) =
        Ends-bind _ _ (visit-Ends step p found)
          (elim [ next p' ↦ steps_loop-Ends steps p' h | return a ↦ Ends-pure a ])

  -- If each step's kind has an executor, and what the UTF-8 encoder, the JSON writer and the artifact
  -- manager raise has a property, then `run` returns or raises an exception with this property, from
  -- every state and whatever the executors return, raise or change.
  pub run-Ends :
      (registry : StepExecutorRegistry W) (plan : ExecutionPlan)
      → IsSupported registry plan.steps
      → (s : State W)
      → ((a : ExecutionRunResult) × ((run services registry plan s).0 ≡ ok a))
        ⊎ ((e : Exception) × ((run services registry plan s).0 ≡ raise e) × E e)
  unfolding run create_run
  run-Ends registry plan h =
      (Ends-bind _ _ (search method_rules) λ r. steps_loop-Ends registry plan plan.steps _ h).at

-- If nothing of this raises, `run` returns.
pub run-Returns :
    {W : Type 0} (services : Services W) (registry : StepExecutorRegistry W) (plan : ExecutionPlan)
    → RaiseOnly (λ _. ⊥) services
    → IsSupported registry plan.steps
    → (s : State W) → (a : ExecutionRunResult) × ((run services registry plan s).0 ≡ ok a)
run-Returns services registry plan only h s =
    elim (run-Ends (λ _. ⊥) services only registry plan h s) [
      | inl returned ↦ returned
      | inr (e, raised, never) ↦ absurd never
    ]
