-- ===== src/Plan/Validation/Passing.antt =====
-- What a plan has that passes PlanValidator.validate (src/sdk_test_agent/plan/plan_validation.py), and
-- which plans pass.
use sth_boring.Base.{
  ℕ, ◌+◌, String, Bool, true, false, not, ◌&&◌, Option, some, List, [], ◌∷◌, ◌++◌, ◌≡◌, refl, arith,
  any, all, All, is_nil, length, Bool-cases, inl, inr,
}
use sth_boring.Base.Partial.{>>=-eq-some}
use sth_boring.Plan.Models.{PlanStep}
use sth_boring.Plan.Issues.{PlanValidationResult, passed, result_status}
use sth_boring.Plan.Validator.{PlanValidator, Issues}
use sth_boring.Plan.StepChecks.{step_id_issues, validate_step_base}
use sth_boring.Plan.StepChecks.Acceptance.{
  has_error, distinct, ids_of, is_acceptable_step, validate_step_base-has_error,
  step_id_issues-has_error,
}
use sth_boring.Plan.SnapshotChecks.{SnapshotIndex, build_snapshot_index}
use sth_boring.Plan.SnapshotChecks.Coverage.{
  IsCovered, no_error-append, step_without_error-IsCovered,
}
use sth_boring.Capability.Models.{CapabilitySnapshot}
use sth_boring.Plan.Validation.{
  PlanOrDraft, steps_of, plan_metadata_of, is_too_long, Reference, to_snapshot, reference_of,
  reference_issues, steps_issues, count_issues, digest_issues, result_of, validate_steps, validate,
}

-- The rules for a plan: it has steps, not too many, their ids are not empty and no two are the same,
-- and each step keeps the rules for a step.
unfoldable pub is_acceptable : PlanValidator → List PlanStep → Bool
is_acceptable v steps =
    not (is_nil steps)
    && (not (is_too_long v.max_step_count (length steps))
        && (distinct (ids_of steps) && all (is_acceptable_step v (ids_of steps)) steps))

no_error_in_three :
    (is js ks : Issues)
    → has_error (is ++ (js ++ ks)) ≡ false
    → (has_error is ≡ false) × (has_error js ≡ false) × (has_error ks ≡ false)
no_error_in_three is js ks h =
    let (first, rest) = no_error-append is (js ++ ks) h in
    let (second, third) = no_error-append js ks rest in (first, second, third)

-- Steps for which no error is reported keep the rules for a step.
steps_issues-all :
    (v : PlanValidator) (reference : Reference) (known : List String) (idx : ℕ)
    (steps : List PlanStep) (is : Issues)
    → steps_issues v reference known idx steps ≡ some is
    → has_error is ≡ false
    → all (is_acceptable_step v known) steps ≡ true
unfolding steps_issues all
steps_issues-all v reference known idx [] is e h = refl
steps_issues-all v reference known idx (step ∷ steps) is e h =
    let (more, _, e') = >>=-eq-some (reference_issues v reference step idx) _ e in
    let (rest, checked, all_issues) =
      >>=-eq-some (steps_issues v reference known (idx + 1) steps) _ e' in
    let parts = no_error_in_three (validate_step_base v step idx known) more rest (ground arith) in
    let here = validate_step_base-has_error v step idx known in
    let others = steps_issues-all v reference known (idx + 1) steps rest checked parts.2 in
    ground (arith, parts.0)

-- Against a snapshot they are covered by it.
steps_issues-All :
    (v : PlanValidator) (index : SnapshotIndex) (known : List String) (idx : ℕ)
    (steps : List PlanStep) (is : Issues)
    → v.allow_deprecated_capability ≡ false
    → steps_issues v (to_snapshot index) known idx steps ≡ some is
    → has_error is ≡ false
    → All (IsCovered index) steps
unfolding steps_issues reference_issues
steps_issues-All v index known idx [] is strict e h = tt
steps_issues-All v index known idx (step ∷ steps) is strict e h =
    let (more, checked_step, e') =
      >>=-eq-some (reference_issues v (to_snapshot index) step idx) _ e in
    let (rest, checked, all_issues) =
      >>=-eq-some (steps_issues v (to_snapshot index) known (idx + 1) steps) _ e' in
    let parts = no_error_in_three (validate_step_base v step idx known) more rest (ground arith) in
    (
      step_without_error-IsCovered v step idx index more strict checked_step parts.1,
      steps_issues-All v index known (idx + 1) steps rest strict checked parts.2,
    )

passed-has_error :
    (fail_on_warning : Bool) (is : Issues)
    → result_status fail_on_warning is ≡ passed
    → has_error is ≡ false
unfolding result_status
passed-has_error fail_on_warning is h = ground arith

-- The parts of a validation that passed: what each loop of `validate` reported, with no error in it.
record Parts (v : PlanValidator) (plan : PlanOrDraft) (snapshot : Option CapabilitySnapshot)
    : Type 0 where
  has_steps : is_nil (steps_of plan) ≡ false
  checked : Issues
  is_checked :
      steps_issues v (reference_of v snapshot) (ids_of (steps_of plan)) 0 (steps_of plan)
      ≡ some checked
  checked_well : has_error checked ≡ false
  count_well : has_error (count_issues v (length (steps_of plan))) ≡ false
  ids_well : has_error (step_id_issues [] 0 (steps_of plan)) ≡ false
  digest_well : has_error (digest_issues v (plan_metadata_of plan) snapshot) ≡ false

validate_steps-Parts :
    (v : PlanValidator) (plan : PlanOrDraft) (snapshot : Option CapabilitySnapshot) (time : ℕ)
    (r : PlanValidationResult)
    → is_nil (steps_of plan) ≡ false
    → validate_steps v plan snapshot time ≡ some r
    → r.status ≡ passed
    → Parts v plan snapshot
unfolding validate_steps result_of
validate_steps-Parts v plan snapshot time r full e h =
    let (checked, is_checked, e') =
      >>=-eq-some
        (steps_issues v (reference_of v snapshot) (ids_of (steps_of plan)) 0 (steps_of plan)) _ e in
    let counted = count_issues v (length (steps_of plan)) in
    let ids = step_id_issues [] 0 (steps_of plan) in
    let digests = digest_issues v (plan_metadata_of plan) snapshot in
    let none_wrong =
      passed-has_error v.fail_on_warning (counted ++ (ids ++ (digests ++ checked)))
        (ground arith) in
    let (count_well, rest) = no_error-append counted (ids ++ (digests ++ checked)) none_wrong in
    let (ids_well, digest_well, checked_well) = no_error_in_three ids digests checked rest in
    record {
      has_steps = full;
      checked = checked;
      is_checked = is_checked;
      checked_well = checked_well;
      count_well = count_well;
      ids_well = ids_well;
      digest_well = digest_well;
    }

passed-Parts :
    (v : PlanValidator) (plan : PlanOrDraft) (snapshot : Option CapabilitySnapshot) (time : ℕ)
    (r : PlanValidationResult)
    → validate v plan snapshot time ≡ some r
    → r.status ≡ passed
    → Parts v plan snapshot
unfolding validate result_of result_status any
passed-Parts v plan snapshot time r e h = elim (Bool-cases (is_nil (steps_of plan))) [
  | inl empty ↦ absurd (ground arith)
  | inr full ↦ validate_steps-Parts v plan snapshot time r full (ground arith) h
]

-- A plan or draft that passes keeps the rules for a plan, whatever it was checked against.
pub validate-is_acceptable :
    (v : PlanValidator) (plan : PlanOrDraft) (snapshot : Option CapabilitySnapshot) (time : ℕ)
    (r : PlanValidationResult)
    → validate v plan snapshot time ≡ some r
    → r.status ≡ passed
    → is_acceptable v (steps_of plan) ≡ true
unfolding is_acceptable count_issues any all
validate-is_acceptable v plan snapshot time r e h =
    let steps = steps_of plan in
    let parts = passed-Parts v plan snapshot time r e h in
    let ids = step_id_issues-has_error [] 0 steps in
    let each =
      steps_issues-all v (reference_of v snapshot) (ids_of steps) 0 steps parts.checked
        parts.is_checked parts.checked_well in
    ground (arith, parts.has_steps, parts.count_well, parts.ids_well)

-- Every step of a plan or draft that passes against a snapshot is covered by the snapshot, if the
-- validator does not let deprecated capabilities through: its kind is listed, described and enabled
-- there, its inputs match the schema of the kind, and the capabilities that it declares are enabled.
pub validate-IsCovered :
    (v : PlanValidator) (plan : PlanOrDraft) (s : CapabilitySnapshot) (time : ℕ)
    (r : PlanValidationResult)
    → v.allow_deprecated_capability ≡ false
    → validate v plan (some s) time ≡ some r
    → r.status ≡ passed
    → All (IsCovered (build_snapshot_index s)) (steps_of plan)
unfolding reference_of
validate-IsCovered v plan s time r strict e h =
    let steps = steps_of plan in
    let parts = passed-Parts v plan (some s) time r e h in
    steps_issues-All v (build_snapshot_index s) (ids_of steps) 0 steps parts.checked strict
      parts.is_checked parts.checked_well
