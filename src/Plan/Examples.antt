-- ===== src/Plan/Examples.antt =====
-- A plan of two steps, and the theorems on validation at it.
use sth_boring.Base.{
  String, true, false, none, some, List, [], ◌∷◌, ◌≡◌, refl, ◌↔◌, contains, any, select, sorted,
  All,
}
use sth_boring.Base.Dict
use sth_boring.Json
use sth_boring.Json.{Value, Fields, no_fields, entry}
use sth_boring.Plan.Models.{PlanStep, ExecutionPlan}
use sth_boring.Plan.Enums.{abort, low}
use sth_boring.Plan.Issues.{PlanValidationResult, passed, result_status}
use sth_boring.Plan.Validator.{default_validator}
use sth_boring.Plan.StepChecks.{
  step_id_issues, dependency_issues, kind_issues, choice_issues, validate_step_base,
}
use sth_boring.Plan.SnapshotChecks.{
  build_snapshot_index, index_from, digest_mismatch_issues, validate_capability_digest,
  declared_issues, all_declared_issues, undeclared_kind_issues, validate_required_capabilities,
  schema_issues, validate_enabled_step, validate_step_against_capability_snapshot,
}
use sth_boring.Plan.SnapshotChecks.Coverage.{IsCovered}
use sth_boring.Plan.Validation.{
  final_plan, result_of, count_issues, reference_of, reference_issues, steps_issues, digest_issues,
  validate_steps, validate,
}
use sth_boring.Plan.Validation.Passing.{is_acceptable, validate-is_acceptable, validate-IsCovered}
use sth_boring.Plan.Validation.Accepting.{validate_alone}
use sth_boring.Base.{◌==◌, false}
use sth_boring.Plan.Models.{ExecutionPlanDraft}
use sth_boring.Plan.Finalizer.{Options, finalize}
use sth_boring.Plan.Finalizer.Binding.{finalize-digest}
use sth_boring.Capability.Models.{CapabilitySnapshot}
use sth_boring.Capability.Panel.{build_snapshot, resolve_descriptor, step_kinds_where}
use sth_boring.Capability.Registry.{list_all}
use sth_boring.Capability.SchemaValidation
use sth_boring.Capability.SchemaValidation.{validate_payload_against_schema, check}
use sth_boring.Capability.Examples.{digest, registry, request}

abbrev command : String → List String → PlanStep
command id deps = record {
  step_id = id;
  title = id;
  kind = "run_command";
  intent = "test";
  depends_on = deps;
  branch_group = none;
  branch_condition = none;
  inputs = entry "command" (Value.str "ls") no_fields;
  expected_outputs = [];
  required_capabilities = "runtime.run_command" ∷ [];
  timeout_sec = none;
  retryable = false;
  optional = false;
  risk_level = low;
  on_failure = abort;
  on_success = none;
  metadata = no_fields;
}

abbrev pub two_commands : ExecutionPlan
two_commands = record {
  plan_id = "plan_1";
  task_id = "task_1";
  task_type = "sdk_deploy";
  goal = "run two commands";
  planner_kind = "demo";
  planner_name = "test_planner";
  planner_version = "v1";
  status = "draft";
  steps = command "a" ("b" ∷ []) ∷ command "b" [] ∷ [];
  assumptions = [];
  missing_information = [];
  risk_notes = [];
  global_constraints = no_fields;
  plan_metadata = entry "capability_digest" (Value.str "run_command") no_fields;
  parent_plan_id = none;
  revision_no = 0;
  created_at = none;
}

abbrev snapshot : CapabilitySnapshot
snapshot = build_snapshot digest registry "snap" request

abbrev passing : PlanValidationResult
passing = record {
  status = passed;
  issues = [];
  checked_at = 0;
  capability_snapshot_id = some "snap";
  capability_digest = some "run_command";
}

two_commands_pass :
    validate default_validator (final_plan two_commands) (some snapshot) 0 ≡ some passing
unfolding validate validate_steps steps_issues validate_step_base result_of result_status
    count_issues reference_of reference_issues digest_issues step_id_issues dependency_issues
    kind_issues choice_issues build_snapshot_index index_from validate_capability_digest
    digest_mismatch_issues validate_step_against_capability_snapshot validate_enabled_step
    validate_required_capabilities all_declared_issues declared_issues undeclared_kind_issues
    schema_issues validate_payload_against_schema SchemaValidation.validate check build_snapshot
    resolve_descriptor step_kinds_where list_all Dict.values Dict.get Dict.put contains select any
    SchemaValidation.dereference SchemaValidation.object_errors SchemaValidation.property_errors
    SchemaValidation.find_property Json.get Json.equals SchemaValidation.missing_errors
    SchemaValidation.extra_errors sorted SchemaValidation.extra_keys SchemaValidation.scalar_errors
two_commands_pass = refl

validate-is_acceptable_example : is_acceptable default_validator two_commands.steps ≡ true
validate-is_acceptable_example =
    validate-is_acceptable default_validator (final_plan two_commands) (some snapshot) 0 passing
      two_commands_pass refl

validate-IsCovered_example : All (IsCovered (build_snapshot_index snapshot)) two_commands.steps
validate-IsCovered_example =
    validate-IsCovered default_validator (final_plan two_commands) snapshot 0 passing refl
      two_commands_pass refl

validate_alone_example :
    (r : PlanValidationResult) × (validate default_validator (final_plan two_commands) none 0
      ≡ some r)
    × ((r.status ≡ passed) ↔ (is_acceptable default_validator two_commands.steps ≡ true))
validate_alone_example = validate_alone default_validator (final_plan two_commands) 0 refl refl

abbrev two_commands_draft : ExecutionPlanDraft
two_commands_draft = record {
  task_id = "task_1";
  task_type = "sdk_deploy";
  goal = "run two commands";
  planner_name = "test_planner";
  planner_version = "v1";
  plan_summary = "two commands";
  steps = two_commands.steps;
  assumptions = [];
  missing_information = [];
  risk_notes = [];
  raw_llm_output = none;
  metadata = no_fields;
}

abbrev with_snapshot : Options
with_snapshot = record {
  planner_kind = "llm";
  global_constraints = none;
  parent_plan_id = none;
  revision_no = 0;
  capability_snapshot = some snapshot;
  capability_resolution_record = none;
  artifact_refs = some (("env", "ref_1") ∷ []);
  metadata = some (entry "source" (Value.str "test") no_fields);
}

-- The digest function of the registry's examples gives the step kinds of a payload.
snapshot_digest : (snapshot.capability_digest == "") ≡ false
unfolding build_snapshot resolve_descriptor step_kinds_where list_all Dict.values Dict.get contains
    select any sorted
snapshot_digest = refl

source_only : Json.get "capability_digest" (entry "source" (Value.str "test") no_fields) ≡ none
unfolding Json.get
source_only = refl

finalize-digest_example :
    validate_capability_digest default_validator
      (finalize two_commands_draft with_snapshot "plan_1" 7).plan_metadata
      snapshot
    ≡ []
finalize-digest_example =
    finalize-digest default_validator two_commands_draft with_snapshot snapshot "plan_1" 7 refl
      source_only snapshot_digest
