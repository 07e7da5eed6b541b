-- ===== src/Plan/StepChecks.antt =====
-- The checks of PlanValidator (src/sdk_test_agent/plan/plan_validation.py) that need no capability:
-- the loop over step ids and `_validate_step_base`.
pub mod Acceptance
use sth_boring.Base.{
  ℕ, zero, ◌+◌, String, ◌<>◌, ◌==◌, Bool, true, false, not, ◌&&◌, ◌||◌, Option, none, some, List,
  [], ◌∷◌, ◌++◌, map, if◌then◌else◌, any, length, contains, str, or_default, or_text, is_none,
}
use sth_boring.Base.Dict
use sth_boring.Base.Dict.{Dict}
use sth_boring.Base.Int.{ℤ, pos, is_positive, int_lt}
use sth_boring.Base.Partial.{◌>>=◌}
use sth_boring.Json
use sth_boring.Json.{Value, Fields, no_fields, entry, texts, optional, as_text}
use sth_boring.Plan.Enums.{
  high, supported_plan_step_kinds, valid_risk_levels, valid_failure_policies,
}
use sth_boring.Plan.Models.{PlanStep, ExecutionPlan}
use sth_boring.Plan.Issues.{
  Severity, warning, error, ValidationIssue, PlanValidationResult, plan_issue, step_issue,
  step_location, schema_error_path, result_status,
}
use sth_boring.Capability.Schema.{RootSchema, SchemaError, Message, text, schema_error}
use sth_boring.Capability.SchemaValidation.{validate_payload_against_schema}
use sth_boring.Capability.Models.{
  CapabilityStatus, enabled, disabled, unavailable, placeholder, deprecated, is_enabled,
  CapabilityDescriptor, CapabilityAvailability, CapabilitySnapshot,
}
use sth_boring.Capability.Registry.{CapabilityRegistry, maybe_get_by_step_kind}
use sth_boring.Plan.Validator.{PlanValidator, Issues, issues_if}

-- The first loop of `validate`: empty and repeated ids.
unfoldable pub step_id_issues : List String → ℕ → List PlanStep → Issues
step_id_issues seen idx [] = []
step_id_issues seen idx (step ∷ steps) =
    let loc = step_location idx in
    let empty_id = text "step_id is required" in
    let duplicate = text ("duplicate step_id " <> step.step_id) in
    issues_if (step.step_id == "") (
      step_issue step loc "PLAN_STEP_ID_EMPTY" error empty_id none no_fields
      ∷ step_issue step loc "step.id.empty" error empty_id none no_fields
      ∷ [])
    ++ (issues_if (contains step.step_id seen) (
          step_issue step loc "PLAN_DUPLICATE_STEP_ID" error duplicate none no_fields
          ∷ step_issue step loc "step.id.duplicate" error duplicate none no_fields
          ∷ [])
        ++ step_id_issues (step.step_id ∷ seen) (idx + 1) steps)

unfoldable pub dependency_issues : PlanStep → String → List String → List String → Issues
dependency_issues step loc known [] = []
dependency_issues step loc known (dep ∷ deps) =
    let message = text ("unknown dependency " <> dep) in
    issues_if (not (contains dep known)) (
      step_issue step loc "PLAN_UNKNOWN_DEPENDENCY" error message (some (loc <> ".depends_on"))
        no_fields
      ∷ step_issue step loc "step.depends_on.missing" error message none no_fields
      ∷ [])
    ++ dependency_issues step loc known deps

unfoldable pub capability_issues : PlanStep → String → List String → List String → Issues
capability_issues step loc available [] = []
capability_issues step loc available (cap ∷ caps) =
    issues_if (not (contains cap available)) (
      step_issue step loc "step.capability.missing" error (text ("missing capability " <> cap)) none
        no_fields
      ∷ [])
    ++ capability_issues step loc available caps

unfoldable pub kind_issues : PlanStep → String → List String → Issues
kind_issues step loc supported =
    let message = text ("unsupported step kind " <> step.kind) in
    let path = some (loc <> ".kind") in
    if step.kind == ""
    then step_issue step loc "PLAN_STEP_KIND_EMPTY" error (text "step.kind is required") path
        no_fields
      ∷ []
    else issues_if (not (contains step.kind supported)) (
        step_issue step loc "PLAN_UNSUPPORTED_STEP_KIND" error message path no_fields
        ∷ step_issue step loc "step.kind.unsupported" error message none no_fields
        ∷ [])

-- A text field that must be one of a list.
unfoldable pub choice_issues :
    PlanStep → String → String → String → String → String → List String → Issues
choice_issues step loc name value code old_code choices =
    let message = text ("invalid " <> name <> " " <> value) in
    issues_if (not (contains value choices)) (
      step_issue step loc code error message (some (loc <> "." <> name)) no_fields
      ∷ step_issue step loc old_code error message none no_fields
      ∷ [])

-- `timeout_sec is not None and timeout_sec <= 0`
abbrev pub is_bad_timeout : Option ℤ → Bool
is_bad_timeout none = false
is_bad_timeout (some t) = not (is_positive t)

abbrev pub available_issues : PlanStep → String → Option (List String) → Issues
available_issues step loc none = []
available_issues step loc (some available) =
    capability_issues step loc available step.required_capabilities

-- `_validate_step_base`
unfoldable pub validate_step_base : PlanValidator → PlanStep → ℕ → List String → Issues
validate_step_base v step idx known =
    let loc = step_location idx in
    dependency_issues step loc known step.depends_on
    ++ (kind_issues step loc v.supported_step_kinds
        ++ (available_issues step loc v.available_capabilities
            ++ (choice_issues step loc "risk_level" step.risk_level "PLAN_INVALID_RISK_LEVEL"
                  "step.risk.invalid" valid_risk_levels
                ++ (issues_if (step.risk_level == high) (
                      step_issue step loc "step.risk.high" warning
                        (text "high risk step requires review") none no_fields
                      ∷ [])
                    ++ (choice_issues step loc "on_failure" step.on_failure
                          "PLAN_INVALID_ON_FAILURE" "step.on_failure.invalid" valid_failure_policies
                        ++ issues_if (is_bad_timeout step.timeout_sec) (
                            step_issue step loc "PLAN_INVALID_TIMEOUT" error
                              (text "timeout_sec must be positive") (some (loc <> ".timeout_sec"))
                              no_fields
                            ∷ []))))))
