-- ===== src/Capability/Validator.antt =====
-- src/sdk_test_agent/capability/capability_validator.py. A schema check that runs out of stack raises,
-- and the exception escapes.
pub mod Snapshots
use sth_boring.Base.{
  ℕ, ◌+◌, String, ◌<>◌, ◌==◌, Bool, true, false, not, ◌&&◌, ◌||◌, Option, none, some, List, [], ◌∷◌,
  ◌++◌, map, if◌then◌else◌, any, str, same_texts, sorted, or_default,
}
use sth_boring.Base.Partial.{◌>>=◌}
use sth_boring.Json
use sth_boring.Json.{Value, obj, no_fields, Fields}
use sth_boring.Capability.Schema.{RootSchema, SchemaError, Message, text, schema_error}
use sth_boring.Capability.SchemaValidation.{validate_payload_against_schema}
use sth_boring.Capability.Models.{
  CapabilityStatus, enabled, disabled, unavailable, placeholder, deprecated, is_enabled,
  is_planner_visible, CapabilityDescriptor, CapabilityAvailability, CapabilitySnapshot,
  CapabilityResolutionRecord,
}
use sth_boring.Capability.Registry.{CapabilityRegistry, list_all}
use sth_boring.Capability.Panel.{DigestPayload, recompute_digest, step_kinds_where}

pub record CapabilityValidationIssue : Type 0 where
  pub level : String
  pub location : String
  pub message : Message

pub record CapabilityValidationResult : Type 0 where
  pub is_ok : Bool
  pub issues : List CapabilityValidationIssue

abbrev pub issue : String → String → Message → CapabilityValidationIssue
issue level location message = record { level = level; location = location; message = message }

-- `_result`
unfoldable pub result : List CapabilityValidationIssue → CapabilityValidationResult
result issues = record { is_ok = not (any (λ i. i.level == "error") issues); issues = issues }

-- `if test: issues.append(issue)`
abbrev pub issue_if : Bool → CapabilityValidationIssue → List CapabilityValidationIssue
issue_if true i = i ∷ []
issue_if false i = []

error_issues : String → List SchemaError → List CapabilityValidationIssue
error_issues location = map (λ e. issue "error" location (schema_error e))

-- `example.get("inputs", {})`
abbrev example_inputs : Fields → Value
example_inputs example = or_default (obj no_fields) (Json.get "inputs" example)

example_issues : String → RootSchema → ℕ → List Fields → Option (List CapabilityValidationIssue)
unfolding error_issues
example_issues id schema idx [] = some []
example_issues id schema idx (example ∷ examples) = do
  errors ← validate_payload_against_schema (example_inputs example) schema
  rest ← example_issues id schema (idx + 1) examples
  some (error_issues (id <> ".examples[" <> str idx <> "].inputs") errors ++ rest)

pub validate_descriptor : CapabilityDescriptor → Option CapabilityValidationResult
validate_descriptor d = do
  examples ← example_issues d.capability_id d.input_schema 0 d.examples
  some (
      result (
        issue_if (d.capability_id == "")
          (issue "error" "capability_id" (text "capability_id must not be empty"))
        ++ issue_if (d.version == "") (issue "error" "version" (text "version must not be empty"))
        ++ issue_if (d.step_kind == "")
            (issue "error" "step_kind" (text "step_kind must not be empty"))
        ++ issue_if (d.is_placeholder && d.default_enabled) (
            issue "error" d.capability_id
              (text "placeholder capability must default_enabled=False"))
        ++ issue_if (d.is_deprecated && is_planner_visible d.visibility)
            (issue "warning" d.capability_id (text "deprecated capability is planner-visible"))
        ++ examples))

registry_issues : List CapabilityDescriptor → Option (List CapabilityValidationIssue)
registry_issues [] = some []
registry_issues (d ∷ ds) = do
  here ← validate_descriptor d
  rest ← registry_issues ds
  some (here.issues ++ rest)

pub validate_registry : CapabilityRegistry → Option CapabilityValidationResult
validate_registry registry = do issues ← registry_issues (list_all registry); some (result issues)

pub validate_snapshot : (DigestPayload → String) → CapabilitySnapshot → CapabilityValidationResult
validate_snapshot digest s = result (
    issue_if (not (same_texts s.available_step_kinds (step_kinds_where is_enabled s.availability)))
      (issue "error" "available_step_kinds"
        (text "available_step_kinds must match enabled availability records"))
    ++ issue_if
        (not (
          same_texts s.unavailable_step_kinds
            (step_kinds_where (λ st. not (is_enabled st)) s.availability)))
        (issue "error" "unavailable_step_kinds"
          (text "unavailable_step_kinds must match non-enabled availability records"))
    ++ issue_if (not (recompute_digest digest s == s.capability_digest)) (
        issue "error" "capability_digest"
          (text "capability_digest does not match recomputed digest")))
