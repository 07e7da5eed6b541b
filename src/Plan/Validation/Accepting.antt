-- ===== src/Plan/Validation/Accepting.antt =====
-- A plan checked against no snapshot and no registry: PlanValidator.validate of
-- src/sdk_test_agent/plan/plan_validation.py returns, and the plan passes exactly if it keeps the rules.
use sth_boring.Base.{
  ℕ, ◌+◌, String, true, false, not, none, some, List, [], ◌∷◌, ◌++◌, ◌≡◌, refl, arith, any, all,
  is_nil, length, Bool-cases, Option-cases, inl, inr, ◌↔◌,
}
use sth_boring.Plan.Models.{PlanStep}
use sth_boring.Plan.Issues.{PlanValidationResult, passed, result_status}
use sth_boring.Plan.Validator.{PlanValidator, Issues}
use sth_boring.Plan.StepChecks.{step_id_issues, validate_step_base}
use sth_boring.Plan.StepChecks.Acceptance.{
  has_error, has_error-append, has_error-issues_if, ids_of, is_acceptable_step,
  validate_step_base-has_error, step_id_issues-distinct,
}
use sth_boring.Plan.Validation.{
  PlanOrDraft, steps_of, to_nothing, reference_of, reference_issues, steps_issues, count_issues,
  digest_issues, result_of, validate_steps, validate,
}
use sth_boring.Plan.Validation.Passing.{is_acceptable}

plain_steps :
    (v : PlanValidator) (known : List String) (idx : ℕ) (steps : List PlanStep)
    → (is : Issues) × (steps_issues v to_nothing known idx steps ≡ some is)
      × (has_error is ≡ not (all (is_acceptable_step v known) steps))
unfolding steps_issues reference_issues all any
plain_steps v known idx [] = ([], refl, refl)
plain_steps v known idx (step ∷ steps) =
    let (rest, checked, errors) = plain_steps v known (idx + 1) steps in
    let here = validate_step_base v step idx known in
    let wrong = validate_step_base-has_error v step idx known in
    (here ++ rest, rw checked refl, rw (has_error-append here rest) (ground arith))

passed_iff : (is : Issues) → (result_status false is ≡ passed) ↔ (has_error is ≡ false)
unfolding result_status
passed_iff is = ground arith

abbrev issues_of : PlanValidator → List PlanStep → Issues → Issues
issues_of v steps checked =
    count_issues v (length steps) ++ (step_id_issues [] 0 steps ++ ([] ++ checked))

issues_of-has_error :
    (v : PlanValidator) (steps : List PlanStep) (checked : Issues)
    → has_error checked ≡ not (all (is_acceptable_step v (ids_of steps)) steps)
    → is_nil steps ≡ false
    → has_error (issues_of v steps checked) ≡ not (is_acceptable v steps)
unfolding is_acceptable count_issues any all
issues_of-has_error v steps checked errors full =
    let ids = step_id_issues-distinct steps in
    simp (has_error-append, has_error-issues_if, ids, errors) (ground arith)

reference_of-nothing :
    (v : PlanValidator) → v.capability_registry ≡ none → reference_of v none ≡ to_nothing
unfolding reference_of
reference_of-nothing v bare = ground arith

validate_steps-alone :
    (v : PlanValidator) (plan : PlanOrDraft) (time : ℕ) (checked : Issues)
    → v.capability_registry ≡ none
    → steps_issues v to_nothing (ids_of (steps_of plan)) 0 (steps_of plan) ≡ some checked
    → validate_steps v plan none time
      ≡ some (result_of v (issues_of v (steps_of plan) checked) none time)
unfolding validate_steps digest_issues
validate_steps-alone v plan time checked bare e = simp (reference_of-nothing v bare, e)

-- If the validator has no registry and does not fail on warnings, validation against no snapshot
-- returns, and the plan or draft passes exactly if it keeps the rules for a plan.
pub validate_alone :
    (v : PlanValidator) (plan : PlanOrDraft) (time : ℕ)
    → v.capability_registry ≡ none
    → v.fail_on_warning ≡ false
    → (r : PlanValidationResult) × (validate v plan none time ≡ some r)
      × ((r.status ≡ passed) ↔ (is_acceptable v (steps_of plan) ≡ true))
unfolding validate validate_steps result_of reference_of digest_issues is_acceptable result_status
    any
validate_alone v plan time bare lax =
    let steps = steps_of plan in
    let (checked, is_checked, errors) = plain_steps v (ids_of steps) 0 steps in
    let all_issues = issues_of-has_error v steps checked errors in
    let status = passed_iff (issues_of v steps checked) in
    elim (Option-cases (validate v plan none time)) [
      | inl nothing ↦ absurd (ground arith)
      | inr (r, e) ↦ elim (Bool-cases (is_nil steps)) [
        | inl empty ↦ (r, e, ground arith)
        | inr full ↦ (
          r,
          e,
          ground (
            arith,
            all_issues full,
            status,
            validate_steps-alone v plan time checked bare is_checked,
          ),
        )
      ]
    ]
