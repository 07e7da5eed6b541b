-- ===== src/Plan/Validation.antt =====
-- `validate` and `_result` of PlanValidator, src/sdk_test_agent/plan/plan_validation.py.
pub mod Passing
pub mod Accepting
use sth_boring.Base.{
  ℕ, zero, ◌+◌, String, ◌<>◌, ◌==◌, Bool, true, false, not, ◌&&◌, ◌||◌, Option, none, some, List,
  [], ◌∷◌, ◌++◌, map, if◌then◌else◌, any, length, contains, str, or_default, or_text, is_none,
  is_nil,
}
use sth_boring.Base.Dict
use sth_boring.Base.Dict.{Dict}
use sth_boring.Base.Int.{ℤ, pos, int_lt, int_text}
use sth_boring.Base.Partial.{◌>>=◌}
use sth_boring.Json
use sth_boring.Json.{Value, Fields, no_fields, entry, texts, optional, as_text}
use sth_boring.Plan.Enums.{
  high, supported_plan_step_kinds, valid_risk_levels, valid_failure_policies,
}
use sth_boring.Plan.Models.{PlanStep, ExecutionPlan}
use sth_boring.Plan.Issues.{
  Severity, warning, error, ValidationIssue, PlanValidationResult, plan_issue, step_issue,
  step_location, schema_error_path, result_status,
}
use sth_boring.Capability.Schema.{RootSchema, SchemaError, Message, text, schema_error}
use sth_boring.Capability.SchemaValidation.{validate_payload_against_schema}
use sth_boring.Capability.Models.{
  CapabilityStatus, enabled, disabled, unavailable, placeholder, deprecated, is_enabled,
  CapabilityDescriptor, CapabilityAvailability, CapabilitySnapshot,
}
use sth_boring.Capability.Registry.{CapabilityRegistry, maybe_get_by_step_kind}
use sth_boring.Plan.Models.{ExecutionPlanDraft}
use sth_boring.Plan.Validator.{PlanValidator, Issues, issues_if}
use sth_boring.Plan.StepChecks.{step_id_issues, validate_step_base}
use sth_boring.Plan.SnapshotChecks.{
  SnapshotIndex, build_snapshot_index, validate_capability_digest,
  validate_step_against_capability_snapshot, validate_step_against_registry,
}

-- `ExecutionPlan | ExecutionPlanDraft`
pub data PlanOrDraft : Type 0 where
  final_plan : ExecutionPlan → PlanOrDraft
  plan_draft : ExecutionPlanDraft → PlanOrDraft

abbrev pub steps_of : PlanOrDraft → List PlanStep
steps_of (final_plan p) = p.steps
steps_of (plan_draft p) = p.steps

-- `getattr(plan, "plan_metadata", {}) or {}`
abbrev pub plan_metadata_of : PlanOrDraft → Fields
plan_metadata_of (final_plan p) = p.plan_metadata
plan_metadata_of (plan_draft p) = no_fields

abbrev id_of : Option CapabilitySnapshot → Option String
id_of none = none
id_of (some s) = some s.snapshot_id

abbrev digest_of : Option CapabilitySnapshot → Option String
digest_of none = none
digest_of (some s) = some s.capability_digest

-- `_result`
unfoldable pub result_of :
    PlanValidator → Issues → Option CapabilitySnapshot → ℕ → PlanValidationResult
result_of v issues snapshot time = record {
  status = result_status v.fail_on_warning issues;
  issues = issues;
  checked_at = time;
  capability_snapshot_id = id_of snapshot;
  capability_digest = digest_of snapshot;
}

abbrev pub is_too_long : Option ℤ → ℕ → Bool
is_too_long none n = false
is_too_long (some m) n = int_lt m (pos n)

abbrev limit_text : Option ℤ → String
limit_text none = "None"
limit_text (some m) = int_text m

unfoldable pub count_issues : PlanValidator → ℕ → Issues
count_issues v n = issues_if (is_too_long v.max_step_count n) (
    plan_issue "PLAN_TOO_MANY_STEPS" error
      (text ("plan has " <> str n <> " steps, max is " <> limit_text v.max_step_count))
      (some "steps") no_fields
    ∷ [])

-- What a step is checked against: the snapshot, else the registry of the validator, else nothing.
pub data Reference : Type 0 where
  to_snapshot : SnapshotIndex → Reference
  to_registry : CapabilityRegistry → Reference
  to_nothing : Reference

unfoldable pub reference_of : PlanValidator → Option CapabilitySnapshot → Reference
reference_of v (some s) = to_snapshot (build_snapshot_index s)
reference_of v none = elim v.capability_registry [ none ↦ to_nothing | some r ↦ to_registry r ]

unfoldable pub reference_issues : PlanValidator → Reference → PlanStep → ℕ → Option Issues
reference_issues v (to_snapshot index) step idx =
    validate_step_against_capability_snapshot v step idx index
reference_issues v (to_registry r) step idx = validate_step_against_registry r step idx
reference_issues v to_nothing step idx = some []

-- The second loop of `validate`
unfoldable pub steps_issues :
    PlanValidator → Reference → List String → ℕ → List PlanStep → Option Issues
steps_issues v reference known idx [] = some []
steps_issues v reference known idx (step ∷ steps) = do
  more ← reference_issues v reference step idx
  rest ← steps_issues v reference known (idx + 1) steps
  some (validate_step_base v step idx known ++ (more ++ rest))

unfoldable pub digest_issues : PlanValidator → Fields → Option CapabilitySnapshot → Issues
digest_issues v metadata none = []
digest_issues v metadata (some s) = validate_capability_digest v metadata s

-- `validate` from the test of `max_step_count` on
unfoldable pub validate_steps :
    PlanValidator → PlanOrDraft → Option CapabilitySnapshot → ℕ → Option PlanValidationResult
validate_steps v plan snapshot time = do
  checked ←
      steps_issues v (reference_of v snapshot) (map (λ s. s.step_id) (steps_of plan)) 0
        (steps_of plan)
  some (
      result_of v
        (count_issues v (length (steps_of plan))
          ++ (step_id_issues [] 0 (steps_of plan)
              ++ (digest_issues v (plan_metadata_of plan) snapshot ++ checked)))
        snapshot time)

-- `validate`, at a given time
unfoldable pub validate :
    PlanValidator → PlanOrDraft → Option CapabilitySnapshot → ℕ → Option PlanValidationResult
validate v plan snapshot time =
    let message = text "plan must contain at least one step" in
    if is_nil (steps_of plan)
    then some (
        result_of v
          (plan_issue "PLAN_EMPTY_STEPS" error message none no_fields
            ∷ plan_issue "plan.steps.empty" error message none no_fields
            ∷ [])
          snapshot time)
    else validate_steps v plan snapshot time
