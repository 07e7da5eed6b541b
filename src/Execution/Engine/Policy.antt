-- ===== src/Execution/Engine/Policy.antt =====
-- The branches of the engine on a step that did not succeed, against `decide_failure_action`.
use sth_boring.Base.{
  true, false, not, ok, ◌≡◌, ◌≢◌, refl, inl, inr, arith, ◌==◌, eq_iff, Bool-cases, is_none,
}
use sth_boring.Plan.Models.{PlanStep, ExecutionPlan}
use sth_boring.Plan.Enums.{continue, request_replan}
use sth_boring.Execution.StepStatus
use sth_boring.Execution.Models.{ExecutionStepRun, StepExecutionResult}
use sth_boring.Execution.FailurePolicy.{FailurePolicyDecision, decide_failure_action}
use sth_boring.Execution.Action.{State, Services}
use sth_boring.Execution.Engine.{Progress, Flow, next, return, record_step, settle}
use sth_boring.Execution.Engine.Methods.{wait_for_replan_lem, abort_run_lem}

-- The engine goes on exactly if the decision is not to stop, and where it stops it has a replan
-- request exactly if the decision says so.
abbrev pub Follows : FailurePolicyDecision → Flow → Type 0
Follows d (next p) = d.should_stop ≡ false
Follows d (return a) =
    (d.should_stop ≡ true) × (is_none a.replan_request ≡ not d.should_request_replan)

Follows-return :
    (d : FailurePolicyDecision) {flow : Flow} (a : _)
    → flow ≡ return a
    → d.should_stop ≡ true
    → is_none a.replan_request ≡ not d.should_request_replan
    → Follows d flow
Follows-return d a e stop asks = rw e (stop, asks)

-- After a step that did not succeed the engine does what `decide_failure_action` says of the step's
-- failure policy: it goes on to the next step exactly if the decision is not to stop, and where it
-- stops it returns a replan request exactly if the decision asks for one.
pub settle-decide :
    {W : Type 0} (services : Services W) (plan : ExecutionPlan) (step : PlanStep)
    (sr : ExecutionStepRun) (r : StepExecutionResult) (p : Progress) (s : State W) (flow : Flow)
    → r.status ≢ StepStatus.succeeded
    → (settle services plan step sr r p s).0 ≡ ok flow
    → Follows (decide_failure_action step.on_failure) flow
unfolding settle decide_failure_action
settle-decide services plan step sr r p s flow lost e =
    let lost' : (r.status == StepStatus.succeeded) ≡ false =
      ground (arith, lost, eq_iff r.status StepStatus.succeeded) in
    elim (Bool-cases (step.on_failure == continue)) [
      | inl goes ↦
          let here : flow ≡ next (record_step services step sr r p) =
            ground (arith, lost', goes, e) in
          rw (here, goes) refl
      | inr stops ↦ elim (Bool-cases (step.on_failure == request_replan)) [
        | inl asks ↦
            let (a, is_return, _, _, _, (rq, asked, _)) =
              wait_for_replan_lem services plan step sr r p s
                (ground (arith, lost', stops, asks, e)) in
            Follows-return (decide_failure_action step.on_failure) a is_return (rw (stops, asks))
              (rw (asked, stops, asks))
        | inr aborts ↦
            let (a, is_return, _, _, _, asked) =
              abort_run_lem services step sr r p s (ground (arith, lost', stops, aborts, e)) in
            Follows-return (decide_failure_action step.on_failure) a is_return (rw (stops, aborts))
              (rw (asked, stops, aborts))
      ]
    ]
