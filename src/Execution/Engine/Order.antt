-- ===== src/Execution/Engine/Order.antt =====
-- The order of step runs against the order and the dependencies of the plan's steps.
use sth_boring.Base.{
  String, List, [], ◌∷◌, Option, some, ok, ◌≡◌, refl, ◌⊎◌, inl, inr, arith, ◌==◌, eq_iff, map, ap₂,
  ◌∙◌, All, Ex, Bool-cases,
}
use sth_boring.Base.Dict
use sth_boring.Base.Dict.{Dict, get-put}
use sth_boring.Plan.Models.{PlanStep, ExecutionPlan, ReplanRequest}
use sth_boring.Execution.StepStatus
use sth_boring.Execution.RunStatus
use sth_boring.Execution.Models.{ExecutionStepRun, ExecutionRunResult}
use sth_boring.Execution.Action.{State, Services}
use sth_boring.Execution.Registry.{StepExecutorRegistry}
use sth_boring.Execution.Engine.{run}
use sth_boring.Execution.Engine.Spec.{IsOf, enter, Runs, finish, skip, go_on, wait, fail}
use sth_boring.Execution.Engine.Refinement.{run-Runs}

-- One of the runs is a run of step `dep` that succeeded.
abbrev pub HasSucceeded : List ExecutionStepRun → String → Type 0
HasSucceeded seen dep = Ex (λ sr. (sr.step_id ≡ dep) × (sr.status ≡ StepStatus.succeeded)) seen

-- The runs are those of the first steps, one for each and in their order; each of them is either
-- marked as skipped or has, for each dependency, a run before it that succeeded. `seen` holds the
-- runs before these.
abbrev pub IsBacked : List ExecutionStepRun → List PlanStep → List ExecutionStepRun → Type 0
IsBacked seen steps [] = Unit
IsBacked seen [] (sr ∷ srs) = ⊥
IsBacked seen (step ∷ steps) (sr ∷ srs) =
    IsOf sr step
    × ((sr.status ≡ StepStatus.skipped) ⊎ All (HasSucceeded seen) step.depends_on)
    × IsBacked (sr ∷ seen) steps srs

abbrev IsSound : Dict String → List ExecutionStepRun → Type 0
IsSound table seen =
    (dep : String) → Dict.get dep table ≡ some StepStatus.succeeded → HasSucceeded seen dep

enter-IsSound :
    (step : PlanStep) (sr : ExecutionStepRun) (table : Dict String) (seen : List ExecutionStepRun)
    → IsOf sr step
    → IsSound table seen
    → IsSound (enter step sr table) (sr ∷ seen)
enter-IsSound step sr table seen of sound dep h = elim (Bool-cases (step.step_id == dep)) [
  | inl same ↦ inl (
    of ∙ (eq_iff step.step_id dep).0 same,
    ground (arith, h, same, get-put step.step_id dep sr.status table),
  )
  | inr other ↦ inr (sound dep (ground (arith, h, other, get-put step.step_id dep sr.status table)))
]

IsSound-empty : IsSound [] []
unfolding Dict.get
IsSound-empty dep h = cc

ready-HasSucceeded :
    (deps : List String) (table : Dict String) (seen : List ExecutionStepRun)
    → IsSound table seen
    → All (λ dep. Dict.get dep table ≡ some StepStatus.succeeded) deps
    → All (HasSucceeded seen) deps
ready-HasSucceeded [] table seen sound h = tt
ready-HasSucceeded (dep ∷ deps) table seen sound h =
    (sound dep h.0, ready-HasSucceeded deps table seen sound h.1)

Runs-IsBacked :
    {steps : List PlanStep} {table : Dict String} {srs : List ExecutionStepRun} {status : String}
    {rq : Option ReplanRequest} (seen : List ExecutionStepRun)
    → Runs steps table srs status rq
    → IsSound table seen
    → IsBacked seen steps srs
Runs-IsBacked seen finish sound = tt
Runs-IsBacked seen (skip {step} {table = table} {sr = sr} of unmet status rest) sound =
    (of, inl status, Runs-IsBacked (sr ∷ seen) rest (enter-IsSound step sr table seen of sound))
Runs-IsBacked seen (go_on {step} {table = table} {sr = sr} of ready good rest) sound = (
  of,
  inr (ready-HasSucceeded step.depends_on table seen sound ready),
  Runs-IsBacked (sr ∷ seen) rest (enter-IsSound step sr table seen of sound),
)
Runs-IsBacked seen (wait {step} {table = table} of ready asks status names) sound =
    (of, inr (ready-HasSucceeded step.depends_on table seen sound ready), tt)
Runs-IsBacked seen (fail {step} {table = table} of ready goes asks lost) sound =
    (of, inr (ready-HasSucceeded step.depends_on table seen sound ready), tt)

-- A run that ends as succeeded, or that has no replan request and is not failed, went through all steps.
Runs-complete :
    {steps : List PlanStep} {table : Dict String} {srs : List ExecutionStepRun} {status : String}
    {rq : Option ReplanRequest}
    → Runs steps table srs status rq
    → status ≡ RunStatus.succeeded
    → map (λ sr. sr.step_id) srs ≡ map (λ step. step.step_id) steps
Runs-complete finish e = refl
Runs-complete (skip of unmet skipped rest) e = ap₂ (◌∷◌) of (Runs-complete rest e)
Runs-complete (go_on of ready good rest) e = ap₂ (◌∷◌) of (Runs-complete rest e)
Runs-complete (wait of ready asks status names) e =
    absurd (ground (arith, eq_iff RunStatus.waiting_replan RunStatus.succeeded))
Runs-complete (fail of ready goes asks lost) e =
    absurd (ground (arith, eq_iff RunStatus.failed RunStatus.succeeded))

module _ {W : Type 0} (services : Services W) (plan : ExecutionPlan)
    (registry : StepExecutorRegistry W) (s : State W) (a : ExecutionRunResult) where
  -- Whenever `run` returns, its step runs are those of the first steps of the plan, one for each and
  -- in their order, and each of them is marked as skipped or has, for each step id that its step
  -- depends on, an earlier step run with that id that succeeded.
  pub run-IsBacked :
      (run services registry plan s).0 ≡ ok a → IsBacked [] plan.steps a.run.step_runs
  run-IsBacked e = Runs-IsBacked [] (run-Runs services plan registry s a e).0 IsSound-empty

  -- If `run` returns the status succeeded, it has one step run for each step of the plan, in order.
  pub run_complete :
      (run services registry plan s).0 ≡ ok a
      → a.status ≡ RunStatus.succeeded
      → map (λ sr. sr.step_id) a.run.step_runs ≡ map (λ step. step.step_id) plan.steps
  run_complete e status = Runs-complete (run-Runs services plan registry s a e).0 status
