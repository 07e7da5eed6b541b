-- ===== src/Execution/Engine/Refinement.antt =====
-- `run` implements the relation `Runs`.
use sth_boring.Base.{
  String, List, [], ◌∷◌, ◌++◌, Option, some, true, ok, ◌≡◌, refl, ◌⊎◌, inl, inr, arith, ◌==◌,
  eq_iff, Bool-cases, Option-cases, ap, sym, ◌∙◌, append_assoc, append-nil, all, All,
}
use sth_boring.Base.Dict
use sth_boring.Base.Dict.{Dict}
use sth_boring.Plan.Models.{PlanStep, ExecutionPlan, ReplanRequest}
use sth_boring.Plan.Enums.{continue, request_replan}
use sth_boring.Execution.StepStatus
use sth_boring.Execution.Models.{ExecutionStepRun, StepExecutionResult, ExecutionRunResult}
use sth_boring.Execution.Action.{State, Services, and_then-eq-ok, ◌>>=◌}
use sth_boring.Execution.Recording.{start_step_run, finish_step_run}
use sth_boring.Execution.Registry.{StepExecutorRegistry}
use sth_boring.Execution.Engine.{
  Progress, Flow, next, return, is_succeeded, dependencies_satisfied, record_step, settle, visit,
  execute_step, skip_step, get_executor, attempt, steps_loop, run, create_run, initial,
}
use sth_boring.Execution.Engine.Methods.{
  create_run_lem, start_step_run_lem, mark_skipped_lem, finish_step_run_lem, conclude_lem,
  wait_for_replan_lem, abort_run_lem,
}
use sth_boring.Execution.Engine.Spec.{IsReady, IsOf, enter, Runs, finish, skip, go_on, wait, fail}

-- The test of the code decides `IsReady`.
all_ready :
    (table : Dict String) (deps : List String)
    → (all (λ dep. is_succeeded (Dict.get dep table)) deps ≡ true
        → All (λ dep. Dict.get dep table ≡ some StepStatus.succeeded) deps)
      × (All (λ dep. Dict.get dep table ≡ some StepStatus.succeeded) deps
          → all (λ dep. is_succeeded (Dict.get dep table)) deps ≡ true)
unfolding all
all_ready table [] = (λ h. tt, λ h. refl)
all_ready table (dep ∷ deps) = elim (Option-cases (Dict.get dep table)) [
  | inl absent ↦ (λ h. absurd (ground arith), λ h. absurd (ground arith))
  | inr (status, there) ↦ (
    λ h. (
      there ∙ ap some ((eq_iff status StepStatus.succeeded).0 (ground arith)),
      (all_ready table deps).0 (ground arith),
    ),
    λ h.
        ground
          (arith, (all_ready table deps).1 h.1, eq_iff status StepStatus.succeeded, there, h.0),
  )
]

pub dependencies_satisfied_iff :
    (step : PlanStep) (table : Dict String)
    → (dependencies_satisfied step table ≡ true → IsReady step table)
      × (IsReady step table → dependencies_satisfied step table ≡ true)
unfolding dependencies_satisfied
dependencies_satisfied_iff step table = all_ready table step.depends_on

-- One turn of the loop: it goes on with one more step run, or stops, and then whatever steps are left
-- the relation has a last step run for it.
abbrev Turned : PlanStep → Progress → Flow → Type 0
Turned step p flow =
    ((p' : Progress) × (sr : ExecutionStepRun) × (flow ≡ next p')
      × (p'.run.step_runs ≡ p.run.step_runs ++ sr ∷ [])
      × (p'.step_status ≡ enter step sr p.step_status)
      × ((steps : List PlanStep) (srs : List ExecutionStepRun) (status : String)
            (rq : Option ReplanRequest)
          → Runs steps (enter step sr p.step_status) srs status rq
          → Runs (step ∷ steps) p.step_status (sr ∷ srs) status rq))
    ⊎ ((a : ExecutionRunResult) × (sr : ExecutionStepRun) × (flow ≡ return a)
        × (a.run.step_runs ≡ p.run.step_runs ++ sr ∷ [])
        × (a.run.status ≡ a.status)
        × ((steps : List PlanStep)
            → Runs (step ∷ steps) p.step_status (sr ∷ []) a.status a.replan_request))

module _ {W : Type 0} (services : Services W) (plan : ExecutionPlan) where
  settle_next :
      (step : PlanStep) (sr : ExecutionStepRun) (r : StepExecutionResult) (p : Progress)
      {flow : Flow}
      → IsOf sr step
      → IsReady step p.step_status
      → sr.status ≡ r.status
      → (sr.status ≡ StepStatus.succeeded) ⊎ (step.on_failure ≡ continue)
      → flow ≡ next (record_step services step sr r p)
      → Turned step p flow
  unfolding record_step
  settle_next step sr r p of ready same good e = inl (
    record_step services step sr r p,
    sr,
    e,
    refl,
    ap (λ st. Dict.put step.step_id st p.step_status) (sym same),
    λ steps srs status rq rest. go_on of ready good rest,
  )

  settle_lem :
      (step : PlanStep) (sr : ExecutionStepRun) (r : StepExecutionResult) (p : Progress)
      (s : State W) {flow : Flow}
      → IsOf sr step
      → IsReady step p.step_status
      → sr.status ≡ r.status
      → (settle services plan step sr r p s).0 ≡ ok flow
      → Turned step p flow
  unfolding settle ◌>>=◌
  settle_lem step sr r p s of ready same e = elim (Bool-cases (r.status == StepStatus.succeeded)) [
    | inl won ↦
        let status = (eq_iff r.status StepStatus.succeeded).0 won in
        settle_next step sr r p of ready same (inl (same ∙ status)) (ground (arith, won, e))
    | inr lost ↦ elim (Bool-cases (step.on_failure == continue)) [
      | inl goes ↦
          settle_next step sr r p of ready same (inr ((eq_iff step.on_failure continue).0 goes))
            (ground (arith, lost, goes, e))
      | inr stops ↦ elim (Bool-cases (step.on_failure == request_replan)) [
        | inl asks ↦
            let (a, flow_is, runs, status, run_status, (rq, asked, of_step)) =
              wait_for_replan_lem services plan step sr r p s
                (ground (arith, lost, stops, asks, e)) in
            let on_failure = (eq_iff step.on_failure request_replan).0 asks in
            inr (
              a,
              record sr { status = StepStatus.waiting_replan },
              flow_is,
              runs,
              run_status,
              λ steps. rw (status, asked) (wait of ready on_failure refl of_step),
            )
        | inr aborts ↦
            let (a, flow_is, runs, status, run_status, asked) =
              abort_run_lem services step sr r p s (ground (arith, lost, stops, aborts, e)) in
            inr (
              a,
              sr,
              flow_is,
              runs,
              run_status,
              λ steps.
                  rw (status, asked)
                    (fail of ready (ground (arith, eq_iff step.on_failure continue))
                      (ground (arith, eq_iff step.on_failure request_replan))
                      (ground (arith, eq_iff sr.status StepStatus.succeeded))),
            )
      ]
    ]
  ]

  module _ (registry : StepExecutorRegistry W) where
    skip_step_lem :
        (step : PlanStep) (p : Progress) (s : State W) {flow : Flow}
        → ¬ IsReady step p.step_status
        → (skip_step services registry step p s).0 ≡ ok flow
        → Turned step p flow
    unfolding skip_step ◌>>=◌
    skip_step_lem step p s unmet e =
        let (sr, skipped, e1) = and_then-eq-ok _ _ _ e in
        let (of, status) = mark_skipped_lem services step p.run s skipped in
        inl (
          record {
            run = record p.run { step_runs = p.run.step_runs ++ sr ∷ [] };
            step_results = p.step_results;
            step_status = Dict.put step.step_id StepStatus.skipped p.step_status;
          },
          sr,
          cc,
          refl,
          ap (λ st. Dict.put step.step_id st p.step_status) (sym status),
          λ steps srs ended rq rest. skip of unmet status rest,
        )

    execute_step_lem :
        (step : PlanStep) (p : Progress) (s : State W) {flow : Flow}
        → IsReady step p.step_status
        → (execute_step services registry plan step p s).0 ≡ ok flow
        → Turned step p flow
    unfolding execute_step ◌>>=◌
    execute_step_lem step p s met e =
        let m = get_executor services registry step.kind s in
        let (executor, found, e1) = and_then-eq-ok m.0 _ m.1 e in
        let m1 = start_step_run services step p.run m.1 in
        let (started, starts, e2) = and_then-eq-ok m1.0 _ m1.1 e1 in
        let m2 = attempt services registry executor step m1.1 in
        let (result, returns, e3) = and_then-eq-ok m2.0 _ m2.1 e2 in
        let m3 = finish_step_run services started result m2.1 in
        let (finished, finishes, e4) = and_then-eq-ok m3.0 _ m3.1 e3 in
        let (same_id, status, status', _) =
          finish_step_run_lem services started result m2.1 finishes in
        settle_lem step finished.0 finished.1 p m3.1
          (same_id ∙ start_step_run_lem services step p.run m.1 starts) met (status ∙ sym status')
          e4

    visit_lem :
        (step : PlanStep) (p : Progress) (s : State W) {flow : Flow}
        → (visit services registry plan step p s).0 ≡ ok flow
        → Turned step p flow
    unfolding visit
    visit_lem step p s e = elim (Bool-cases (dependencies_satisfied step p.step_status)) [
      | inl met ↦
          execute_step_lem step p s ((dependencies_satisfied_iff step p.step_status).0 met)
            (ground (arith, met, e))
      | inr unmet ↦
          skip_step_lem step p s
            (λ ready. cc (unmet, (dependencies_satisfied_iff step p.step_status).1 ready))
            (ground (arith, unmet, e))
    ]

    steps_loop-Runs :
        (steps : List PlanStep) (p : Progress) (s : State W) {a : ExecutionRunResult}
        → (steps_loop services registry plan steps p s).0 ≡ ok a
        → (srs : List ExecutionStepRun) × (a.run.step_runs ≡ p.run.step_runs ++ srs)
          × (a.run.status ≡ a.status)
          × Runs steps p.step_status srs a.status a.replan_request
    unfolding steps_loop ◌>>=◌
    steps_loop-Runs [] p s e =
        let (runs, status, run_status, asked, _) = conclude_lem services _ _ _ p s e in
        (
          [],
          runs ∙ sym (append-nil p.run.step_runs),
          run_status ∙ sym status,
          rw (status, asked) finish,
        )
    steps_loop-Runs (step ∷ steps) p s {a} e =
        let m = visit services registry plan step p s in
        let (flow, visited, e1) = and_then-eq-ok m.0 _ m.1 e in
        elim (visit_lem step p s visited) [
          | inl (p', sr, is_next, runs, table, build) ↦
              let (srs, more, status, rest) =
                steps_loop-Runs steps p' m.1 {a = a} (ground (arith, is_next, e1)) in
              (
                sr ∷ srs,
                more ∙ ap (λ l. l ++ srs) runs ∙ append_assoc p.run.step_runs (sr ∷ []) srs,
                status,
                build steps srs a.status a.replan_request (rw table at rest),
              )
          | inr (b, sr, is_return, runs, status, build) ↦
              let same : b ≡ a = ground (arith, is_return, e1) in
              (sr ∷ [], rw same at runs, rw same at status, rw same at (build steps))
        ]

    -- Whenever `run` returns, the step runs that it recorded are a run of the plan's steps, from an
    -- empty status table, that ends with the status and the replan request that it returned; the run
    -- record holds the same status.
    pub run-Runs :
        (s : State W) (a : ExecutionRunResult)
        → (run services registry plan s).0 ≡ ok a
        → Runs plan.steps [] a.run.step_runs a.status a.replan_request × (a.run.status ≡ a.status)
    unfolding run initial ◌>>=◌
    run-Runs s a e =
        let m = create_run services plan s in
        let (r, made, e1) = and_then-eq-ok m.0 _ m.1 e in
        let (srs, runs, status, rest) = steps_loop-Runs plan.steps (initial r) m.1 e1 in
        let empty : r.step_runs ≡ [] = create_run_lem services plan s made in
        (rw (runs ∙ ap (λ l. l ++ srs) empty) rest, status)
