-- ===== src/Capability/Examples.antt =====
-- Two small capabilities, and the theorems at them.
use sth_boring.Base.{
  String, true, false, none, some, [], ◌∷◌, ok, ◌≡◌, refl, ◌↔◌, contains, select, not,
}
use sth_boring.Base.Dict
use sth_boring.Base.Dict.{Dict}
use sth_boring.Json
use sth_boring.Json.{Value, entry, no_fields}
use sth_boring.Capability.Schema.{
  Schema, schema, no_any_of, no_property, property, any_item, anything,
}
use sth_boring.Capability.Models.{
  enabled, CapabilityRiskLevel, low, medium, high, planner_visible, is_enabled,
  CapabilityDescriptor, BuildCapabilitySnapshotInput,
}
use sth_boring.Base.{is_none}
use sth_boring.Plan.Enums.{supported_plan_step_kinds}
use sth_boring.Capability.Builtin.{build_builtin_capability_registry}
use sth_boring.Capability.Builtin.Kinds.{build-kinds}
use sth_boring.Capability.Registry.{maybe_get_by_step_kind}
use sth_boring.Capability.Schema.{RootSchema}
use sth_boring.Capability.Registry.{CapabilityRegistry, empty, register, register_all, list_all}
use sth_boring.Capability.Registry.Consistency.{
  IsConsistent, register_all-IsConsistent, register_iff,
}
use sth_boring.Capability.Panel.{
  DigestPayload, digest_payload, build_snapshot, resolve_descriptor, step_kinds_where,
}
use sth_boring.Capability.Panel.Enabling.{IsUsable, resolve_descriptor_iff}
use sth_boring.Capability.Validator.{validate_snapshot}
use sth_boring.Capability.Resolution.{
  Python, status_text, build_resolution_record, validate_resolution_record,
}
use sth_boring.Capability.Resolution.Accepting.{KeepsFields, validate_resolution_record-build}
use sth_boring.Capability.Validator.Snapshots.{
  validate_snapshot_iff, validate_snapshot-build_snapshot,
}

-- An object with a required text `command`.
abbrev command_schema : Schema
command_schema =
    schema none no_any_of none (some "object") ("command" ∷ [])
      (property "command"
        (schema none no_any_of none (some "string") [] no_property false none any_item none none)
        no_property)
      true none any_item none none

abbrev capability : String → String → CapabilityRiskLevel → CapabilityDescriptor
capability id kind risk = record {
  capability_id = id;
  version = "v1";
  step_kind = kind;
  owner_module = "execution";
  name = id;
  description = id;
  executor_name = none;
  input_model_ref = none;
  output_model_ref = none;
  input_schema = record { body = command_schema; defs = [] };
  output_schema = record { body = anything; defs = [] };
  required_context_keys = "runtime" ∷ [];
  required_capabilities = [];
  risk_level = risk;
  visibility = planner_visible;
  default_enabled = true;
  is_placeholder = false;
  is_deprecated = false;
  examples = [];
  tags = [];
  metadata = no_fields;
}

abbrev pub run_command : CapabilityDescriptor
run_command = capability "runtime.run_command" "run_command" low

abbrev build_image : CapabilityDescriptor
build_image = capability "image.build" "build_image" high

abbrev pub registry : CapabilityRegistry
registry = record {
  by_id = ("runtime.run_command", run_command) ∷ ("image.build", build_image) ∷ [];
  by_step_kind = ("run_command", run_command) ∷ ("build_image", build_image) ∷ [];
}

abbrev pub request : BuildCapabilitySnapshotInput
request = record {
  task_id = some "task_1";
  task_type = some "sdk_deploy";
  available_context_keys = "runtime" ∷ [];
  required_capability_ids = [];
  recommended_capability_ids = [];
  forbidden_capability_ids = [];
  max_risk_level = medium;
  allow_placeholder = false;
  allow_deprecated = false;
  feature_flags = [];
  metadata = no_fields;
}

-- A digest that tells apart payloads with different lists of enabled kinds.
abbrev pub digest : DigestPayload → String
digest p = elim p.available_step_kinds [ [] ↦ "" | kind ∷ kinds ↦ kind ]

register_both : register_all (run_command ∷ build_image ∷ []) empty ≡ ok registry
unfolding register_all register Dict.has Dict.put Dict.get
register_both = refl

-- The second is beyond the risk of the request.
kinds_by_risk :
    (build_snapshot digest registry "snap" request).available_step_kinds ≡ "run_command" ∷ []
unfolding build_snapshot resolve_descriptor step_kinds_where list_all Dict.values contains Dict.get
    select
kinds_by_risk = refl

register_all-IsConsistent_example :
    IsConsistent registry × (list_all registry ≡ run_command ∷ build_image ∷ [])
register_all-IsConsistent_example =
    register_all-IsConsistent (run_command ∷ build_image ∷ []) registry register_both

abbrev one : CapabilityRegistry
one = record {
  by_id = ("runtime.run_command", run_command) ∷ [];
  by_step_kind = ("run_command", run_command) ∷ [];
}

register_iff_example : (register run_command empty ≡ ok one) ↔ (
    (Dict.get "runtime.run_command" empty.by_id ≡ none)
    × (Dict.get "run_command" empty.by_step_kind ≡ none)
    × (one ≡ one))
register_iff_example = register_iff run_command empty one

resolve_descriptor_iff_example :
    ((resolve_descriptor build_image request).status ≡ enabled) ↔ IsUsable build_image request
resolve_descriptor_iff_example = resolve_descriptor_iff build_image request

validate_snapshot-build_snapshot_example :
    validate_snapshot digest (build_snapshot digest registry "snap" request)
    ≡ record { is_ok = true; issues = [] }
validate_snapshot-build_snapshot_example =
    validate_snapshot-build_snapshot digest registry "snap" request

-- Dictionaries with the two fields that the validator reads.
abbrev python : Python
python = record {
  dump_request = λ r. no_fields;
  dump_availability = λ a.
      entry "capability_id" (Value.str a.capability_id)
        (entry "status" (Value.str (status_text a.status)) no_fields);
  str_of = λ v. "";
  repr = λ key. key;
  sort_error = λ vs. none;
}

python-KeepsFields : KeepsFields python
unfolding Json.get
python-KeepsFields = record { status = λ a. refl; capability_id = λ a. refl }

validate_resolution_record-build_example :
    validate_resolution_record python
      (build_resolution_record python "record" none none 0 request
        (build_snapshot digest registry "snap" request))
      (some (build_snapshot digest registry "snap" request))
    ≡ ok (record { is_ok = true; issues = [] })
validate_resolution_record-build_example =
    validate_resolution_record-build python python-KeepsFields "record" none none 0 request
      (build_snapshot digest registry "snap" request)

validate_snapshot_iff_example :
    ((validate_snapshot digest (build_snapshot digest registry "snap" request)).is_ok ≡ true) ↔ (
      ((build_snapshot digest registry "snap" request).available_step_kinds
        ≡ step_kinds_where is_enabled (build_snapshot digest registry "snap" request).availability)
      × ((build_snapshot digest registry "snap" request).unavailable_step_kinds
          ≡ step_kinds_where
              (λ st. not (is_enabled st))
              (build_snapshot digest registry "snap" request).availability)
      × (digest (digest_payload (build_snapshot digest registry "snap" request))
          ≡ (build_snapshot digest registry "snap" request).capability_digest))
validate_snapshot_iff_example =
    validate_snapshot_iff digest (build_snapshot digest registry "snap" request)

abbrev any_schema : String → RootSchema
any_schema model = record { body = anything; defs = [] }

build-kinds_example :
    (r : CapabilityRegistry) × (build_builtin_capability_registry any_schema ≡ ok r)
    × (not (is_none (maybe_get_by_step_kind r "run_command"))
        ≡ contains "run_command" supported_plan_step_kinds)
build-kinds_example = build-kinds any_schema "run_command"
