-- ===== src/Execution/Engine/Methods.antt =====
-- What the methods that `run` calls leave in the records that they return.
use sth_boring.Base.{String, [], ◌∷◌, ◌++◌, Option, none, some, ok, ◌≡◌, arith, sym, ◌∙◌}
use sth_boring.Plan.Models.{PlanStep, ExecutionPlan, ReplanRequest}
use sth_boring.Execution.StepStatus
use sth_boring.Execution.RunStatus
use sth_boring.Execution.Models.{
  ExecutionStepRun, ExecutionRun, StepExecutionResult, ExecutionRunResult,
}
use sth_boring.Execution.Action.{State, Services, and_then-eq-ok, ◌>>=◌}
use sth_boring.Execution.Recording.{start_step_run, mark_skipped, finish_step_run}
use sth_boring.Execution.Engine.{
  Progress, Flow, create_run, build_replan_request, return, conclude, record_step, wait_for_replan,
  abort_run,
}

module _ {W : Type 0} (services : Services W) where
  pub create_run_lem :
      (plan : ExecutionPlan) (s : State W) {r : ExecutionRun}
      → (create_run services plan s).0 ≡ ok r
      → r.step_runs ≡ []
  unfolding create_run ◌>>=◌
  create_run_lem plan s e = ground arith

  pub start_step_run_lem :
      (step : PlanStep) (run : ExecutionRun) (s : State W) {sr : ExecutionStepRun}
      → (start_step_run services step run s).0 ≡ ok sr
      → sr.step_id ≡ step.step_id
  unfolding start_step_run ◌>>=◌
  start_step_run_lem step run s e = ground arith

  pub mark_skipped_lem :
      (step : PlanStep) (run : ExecutionRun) (s : State W) {sr : ExecutionStepRun}
      → (mark_skipped services step run s).0 ≡ ok sr
      → (sr.step_id ≡ step.step_id) × (sr.status ≡ StepStatus.skipped)
  unfolding mark_skipped ◌>>=◌
  mark_skipped_lem step run s e = ground arith

  pub finish_step_run_lem :
      (sr : ExecutionStepRun) (r : StepExecutionResult) (s : State W)
      {f : ExecutionStepRun × StepExecutionResult}
      → (finish_step_run services sr r s).0 ≡ ok f
      → (f.0.step_id ≡ sr.step_id)
        × (f.0.status ≡ r.status)
        × (f.1.status ≡ r.status)
        × (f.1.outputs ≡ r.outputs)
  unfolding finish_step_run ◌>>=◌
  finish_step_run_lem sr r s e = ground arith

  pub build_replan_request_lem :
      (plan : ExecutionPlan) (step : PlanStep) (r : StepExecutionResult) (s : State W)
      {rq : ReplanRequest}
      → (build_replan_request services plan step r s).0 ≡ ok rq
      → rq.failed_step_id ≡ some step.step_id
  unfolding build_replan_request ◌>>=◌
  build_replan_request_lem plan step r s e = ground arith

  pub conclude_lem :
      (status txt : String) (rq : Option ReplanRequest) (p : Progress) (s : State W)
      {a : ExecutionRunResult}
      → (conclude services status txt rq p s).0 ≡ ok a
      → (a.run.step_runs ≡ p.run.step_runs)
        × (a.status ≡ status)
        × (a.run.status ≡ status)
        × (a.replan_request ≡ rq)
        × (a.step_results ≡ p.step_results)
  unfolding conclude ◌>>=◌
  conclude_lem status txt rq p s e = ground arith

  pub wait_for_replan_lem :
      (plan : ExecutionPlan) (step : PlanStep) (sr : ExecutionStepRun) (r : StepExecutionResult)
      (p : Progress) (s : State W) {flow : Flow}
      → (wait_for_replan services plan step sr r p s).0 ≡ ok flow
      → (a : ExecutionRunResult) × (flow ≡ return a)
        × (a.run.step_runs
            ≡ p.run.step_runs ++ record sr { status = StepStatus.waiting_replan } ∷ [])
        × (a.status ≡ RunStatus.waiting_replan)
        × (a.run.status ≡ a.status)
        × ((rq : ReplanRequest) × (a.replan_request ≡ some rq)
            × (rq.failed_step_id ≡ some step.step_id))
  unfolding wait_for_replan record_step ◌>>=◌
  wait_for_replan_lem plan step sr r p s e =
      let waiting = record r { status = StepStatus.waiting_replan } in
      let m = build_replan_request services plan step waiting s in
      let (rq, built, e1) = and_then-eq-ok m.0 _ m.1 e in
      let (a, concluded, e2) = and_then-eq-ok _ _ _ e1 in
      let (runs, status, run_status, asked, _) = conclude_lem _ _ _ _ _ concluded in
      (
        a,
        cc,
        runs,
        status,
        run_status ∙ sym status,
        (rq, asked, build_replan_request_lem plan step waiting s built),
      )

  pub abort_run_lem :
      (step : PlanStep) (sr : ExecutionStepRun) (r : StepExecutionResult) (p : Progress)
      (s : State W) {flow : Flow}
      → (abort_run services step sr r p s).0 ≡ ok flow
      → (a : ExecutionRunResult) × (flow ≡ return a)
        × (a.run.step_runs ≡ p.run.step_runs ++ sr ∷ [])
        × (a.status ≡ RunStatus.failed)
        × (a.run.status ≡ a.status)
        × (a.replan_request ≡ none)
  unfolding abort_run record_step ◌>>=◌
  abort_run_lem step sr r p s e =
      let (a, concluded, e1) = and_then-eq-ok _ _ _ e in
      let (runs, status, run_status, asked, _) = conclude_lem _ _ _ _ _ concluded in
      (a, cc, runs, status, run_status ∙ sym status, asked)
