-- ===== src/Plan/SnapshotChecks.antt =====
-- The checks of PlanValidator (src/sdk_test_agent/plan/plan_validation.py) against a capability
-- snapshot and against a registry. A check of inputs against a schema that runs out of stack raises,
-- and the exception escapes from `validate`: that is `none` here.
pub mod Coverage
use sth_boring.Base.{
  ℕ, zero, ◌+◌, String, ◌<>◌, ◌==◌, Bool, true, false, not, ◌&&◌, ◌||◌, Option, none, some, List,
  [], ◌∷◌, ◌++◌, map, if◌then◌else◌, any, length, contains, str, or_default, or_text, is_none,
  nat_eq, is_nil,
}
use sth_boring.Base.Dict
use sth_boring.Base.Dict.{Dict}
use sth_boring.Base.Int.{ℤ, pos, int_eq}
use sth_boring.Base.Partial.{◌>>=◌}
use sth_boring.Json
use sth_boring.Json.{Value, Fields, no_fields, entry, texts, optional, as_text}
use sth_boring.Plan.Enums.{
  high, supported_plan_step_kinds, valid_risk_levels, valid_failure_policies,
}
use sth_boring.Plan.Models.{PlanStep, ExecutionPlan}
use sth_boring.Plan.Issues.{
  Severity, warning, error, ValidationIssue, PlanValidationResult, plan_issue, step_issue,
  step_location, schema_error_path, result_status,
}
use sth_boring.Capability.Schema.{RootSchema, SchemaError, Message, text, schema_error}
use sth_boring.Capability.SchemaValidation.{validate_payload_against_schema}
use sth_boring.Capability.Models.{
  CapabilityStatus, enabled, disabled, unavailable, placeholder, deprecated, is_enabled,
  CapabilityDescriptor, CapabilityAvailability, CapabilitySnapshot,
}
use sth_boring.Capability.Registry.{CapabilityRegistry, maybe_get_by_step_kind}
use sth_boring.Plan.Validator.{PlanValidator, Issues, issues_if}

pub record SnapshotIndex : Type 0 where
  pub descriptor_by_step_kind : Dict CapabilityDescriptor
  pub availability_by_step_kind : Dict CapabilityAvailability
  pub descriptor_by_capability_id : Dict CapabilityDescriptor
  pub availability_by_capability_id : Dict CapabilityAvailability
  pub enabled_step_kinds : List String

-- `{key(x): x for x in xs}`: of two with one key the later stays.
unfoldable pub index_from : {A : Type 0} → (A → String) → Dict A → List A → Dict A
index_from key d [] = d
index_from key d (x ∷ xs) = index_from key (Dict.put (key x) x d) xs

-- `_build_snapshot_index`
unfoldable pub build_snapshot_index : CapabilitySnapshot → SnapshotIndex
unfolding index_from
build_snapshot_index s = record {
  descriptor_by_step_kind = index_from (λ d. d.step_kind) [] s.capabilities;
  availability_by_step_kind = index_from (λ a. a.step_kind) [] s.availability;
  descriptor_by_capability_id = index_from (λ d. d.capability_id) [] s.capabilities;
  availability_by_capability_id = index_from (λ a. a.capability_id) [] s.availability;
  enabled_step_kinds = s.available_step_kinds;
}

-- The value of a CapabilityStatus, which is a text.
abbrev pub status_text : CapabilityStatus → String
status_text enabled = "enabled"
status_text disabled = "disabled"
status_text unavailable = "unavailable"
status_text placeholder = "placeholder"
status_text deprecated = "deprecated"

-- A CapabilityStatus in an f-string, from Python 3.11 on.
abbrev shown_status : CapabilityStatus → String
shown_status enabled = "CapabilityStatus.ENABLED"
shown_status disabled = "CapabilityStatus.DISABLED"
shown_status unavailable = "CapabilityStatus.UNAVAILABLE"
shown_status placeholder = "CapabilityStatus.PLACEHOLDER"
shown_status deprecated = "CapabilityStatus.DEPRECATED"

-- `bool(v)`
abbrev is_truthy : Value → Bool
is_truthy Value.null = false
is_truthy (Value.bool b) = b
is_truthy (Value.int n) = not (int_eq n (pos 0))
is_truthy (Value.float m k) = not (int_eq m (pos 0))
is_truthy (Value.str s) = not (s == "")
is_truthy (Value.arr vs) = not (nat_eq (Json.count vs) 0)
is_truthy (Value.obj fs) = not (nat_eq (Json.size fs) 0)

abbrev one : String → Value → Fields
one k v = entry k v no_fields

-- The end of `_validate_capability_digest`, with a digest that is not empty.
unfoldable pub digest_mismatch_issues : Value → CapabilitySnapshot → Issues
digest_mismatch_issues digest s =
    issues_if (not (Json.equals digest (Value.str s.capability_digest))) (
      plan_issue "CAPABILITY_DIGEST_MISMATCH" error
        (text "plan capability_digest does not match capability snapshot")
        (some "plan_metadata.capability_digest")
        (entry "plan_digest" digest (one "snapshot_digest" (Value.str s.capability_digest)))
      ∷ [])

abbrev severity_if : Bool → Severity
severity_if strict = if strict then error else warning

-- `_validate_capability_digest`, of the metadata of the plan
unfoldable pub validate_capability_digest : PlanValidator → Fields → CapabilitySnapshot → Issues
validate_capability_digest v metadata s =
    let digest = or_default Value.null (Json.get "capability_digest" metadata) in
    if is_truthy digest
    then digest_mismatch_issues digest s
    else plan_issue "CAPABILITY_DIGEST_MISSING" (severity_if v.require_capability_digest)
        (text "plan_metadata.capability_digest is missing") (some "plan_metadata.capability_digest")
        (one "snapshot_digest" (Value.str s.capability_digest))
      ∷ []

abbrev unavailable_code : CapabilityStatus → String
unavailable_code placeholder = "CAPABILITY_PLACEHOLDER_USED"
unavailable_code disabled = "CAPABILITY_DISABLED_USED"
unavailable_code deprecated = "CAPABILITY_DEPRECATED_USED"
unavailable_code unavailable = "CAPABILITY_STEP_KIND_UNAVAILABLE"
unavailable_code enabled = "CAPABILITY_STEP_KIND_UNAVAILABLE"

-- Only a deprecated capability can be let through, with a warning.
abbrev pub unavailable_severity : Bool → CapabilityStatus → Severity
unavailable_severity allow_deprecated deprecated = if allow_deprecated then warning else error
unavailable_severity allow_deprecated _ = error

-- `_issue_for_unavailable_capability`
unfoldable pub issue_for_unavailable_capability :
    PlanValidator → PlanStep → String → CapabilityAvailability → ValidationIssue
issue_for_unavailable_capability v step loc a =
    step_issue step loc (unavailable_code a.status)
      (unavailable_severity v.allow_deprecated_capability a.status)
      (text (
        "capability for step kind "
        <> step.kind
        <> " is "
        <> shown_status a.status
        <> ": "
        <> or_text a.reason "not enabled"))
      (some (loc <> ".kind"))
      (entry "capability_id" (Value.str a.capability_id) (
        entry "status" (Value.str (status_text a.status))
          (one "missing_context_keys" (Value.arr (texts a.missing_context_keys)))))

-- One declared capability: it must be in the snapshot, and enabled.
unfoldable pub declared_issues : PlanStep → String → SnapshotIndex → String → Issues
declared_issues step loc index id =
    let path = some (loc <> ".required_capabilities") in
    let unknown =
      step_issue step loc "CAPABILITY_REQUIRED_UNKNOWN" error
        (text ("required capability " <> id <> " is not present in capability snapshot")) path
        (one "capability_id" (Value.str id))
      ∷ [] in
    elim (Dict.get id index.descriptor_by_capability_id) [
      | none ↦ unknown
      | some d ↦ elim (Dict.get id index.availability_by_capability_id) [
        | none ↦ unknown
        | some a ↦ issues_if (not (is_enabled a.status)) (
            step_issue step loc "CAPABILITY_REQUIRED_UNAVAILABLE" error
              (text ("required capability " <> id <> " is " <> shown_status a.status)) path
              (entry "capability_id" (Value.str id)
                (one "status" (Value.str (status_text a.status))))
            ∷ [])
      ]
    ]

unfoldable pub all_declared_issues : PlanStep → String → SnapshotIndex → List String → Issues
all_declared_issues step loc index [] = []
all_declared_issues step loc index (id ∷ ids) =
    declared_issues step loc index id ++ all_declared_issues step loc index ids

-- The end of `_validate_required_capabilities`: the capability of the kind must be declared.
unfoldable pub undeclared_kind_issues :
    PlanValidator → PlanStep → String → CapabilityDescriptor → Issues
undeclared_kind_issues v step loc d =
    issues_if (not (contains d.capability_id step.required_capabilities)) (
      step_issue step loc "CAPABILITY_REQUIRED_MISMATCH"
        (severity_if v.strict_required_capabilities)
        (text ("required_capabilities does not include capability for step kind " <> step.kind))
        (some (loc <> ".required_capabilities"))
        (entry "expected_capability_id" (Value.str d.capability_id)
          (one "declared_capability_ids" (Value.arr (texts step.required_capabilities))))
      ∷ [])

-- `_validate_required_capabilities`
unfoldable pub validate_required_capabilities :
    PlanValidator → PlanStep → String → CapabilityDescriptor → SnapshotIndex → Issues
validate_required_capabilities v step loc d index =
    if is_nil step.required_capabilities
    then step_issue step loc "CAPABILITY_REQUIRED_MISSING"
        (severity_if v.strict_required_capabilities)
        (text ("step " <> step.step_id <> " does not declare required_capabilities"))
        (some (loc <> ".required_capabilities"))
        (one "expected_capability_id" (Value.str d.capability_id))
      ∷ []
    else all_declared_issues step loc index step.required_capabilities
      ++ undeclared_kind_issues v step loc d

-- Two issues for each error of the schema, the first with some metadata.
unfoldable pub schema_issues : PlanStep → String → Fields → List SchemaError → Issues
schema_issues step loc metadata [] = []
schema_issues step loc metadata (e ∷ es) =
    step_issue step loc "STEP_INPUT_SCHEMA_INVALID" error (schema_error e)
      (some (schema_error_path loc e)) metadata
    ∷ step_issue step loc "step.inputs.schema_invalid" error (schema_error e) none no_fields
    ∷ schema_issues step loc metadata es

-- The inputs and the declared capabilities of a step whose kind is enabled.
unfoldable pub validate_enabled_step :
    PlanValidator → PlanStep → String → CapabilityDescriptor → SnapshotIndex → Option Issues
validate_enabled_step v step loc d index = do
  errors ← validate_payload_against_schema (Value.obj step.inputs) d.input_schema
  some (
      schema_issues step loc (one "capability_id" (Value.str d.capability_id)) errors
      ++ validate_required_capabilities v step loc d index)

-- `_validate_step_against_capability_snapshot`
unfoldable pub validate_step_against_capability_snapshot :
    PlanValidator → PlanStep → ℕ → SnapshotIndex → Option Issues
validate_step_against_capability_snapshot v step idx index =
    let loc = step_location idx in
    let missing = λ (message : String). some (
      step_issue step loc "CAPABILITY_DESCRIPTOR_MISSING" error (text message) none no_fields
      ∷ []) in
    let is_listed = contains step.kind index.enabled_step_kinds in
    let absent = missing ("step kind " <> step.kind <> " is not present in capability snapshot") in
    elim (Dict.get step.kind index.descriptor_by_step_kind) [
      | none ↦
          if is_listed
          then missing ("enabled step kind " <> step.kind <> " has no capability descriptor")
          else absent
      | some d ↦ elim (Dict.get step.kind index.availability_by_step_kind) [
        | none ↦ absent
        | some a ↦
            if not is_listed || not (is_enabled a.status)
            then some (issue_for_unavailable_capability v step loc a ∷ [])
            else validate_enabled_step v step loc d index
      ]
    ]

-- `_validate_step_against_registry`
unfoldable pub validate_step_against_registry : CapabilityRegistry → PlanStep → ℕ → Option Issues
validate_step_against_registry r step idx =
    let loc = step_location idx in
    elim (maybe_get_by_step_kind r step.kind) [
      | none ↦ some (
          step_issue step loc "step.capability.unknown" error
            (text ("step kind " <> step.kind <> " is not registered as a capability")) none
            no_fields
          ∷ [])
      | some d ↦ do
        errors ← validate_payload_against_schema (Value.obj step.inputs) d.input_schema
        some (schema_issues step loc no_fields errors)
    ]
