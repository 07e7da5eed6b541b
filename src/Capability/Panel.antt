-- ===== src/Capability/Panel.antt =====
-- src/sdk_test_agent/capability/capability_panel.py. `sha256_digest` of the sorted JSON text of a
-- payload is an argument, `digest`, a function of the payload; so are the two new ids.
pub mod Enabling
use sth_boring.Base.{
  is_nil, ℕ, String, ◌<>◌, ◌==◌, Bool, true, false, not, ◌&&◌, ◌||◌, Option, none, some, List, [],
  ◌∷◌, map, if◌then◌else◌, ltb, contains, select,
}
use sth_boring.Base.Dict
use sth_boring.Base.Dict.{Dict}
use sth_boring.Capability.Schema.{RootSchema}
use sth_boring.Capability.Models.{
  CapabilityStatus, enabled, disabled, unavailable, placeholder, deprecated, CapabilityRiskLevel,
  CapabilityVisibility, risk_order, is_enabled, CapabilityDescriptor, BuildCapabilitySnapshotInput,
  CapabilityAvailability, SnapshotMetadata, CapabilitySnapshot, CapabilityResolutionRecord,
}
use sth_boring.Capability.Registry.{CapabilityRegistry, list_all}

-- `_descriptor_digest_payload`
pub record DescriptorPayload : Type 0 where
  pub capability_id : String
  pub version : String
  pub step_kind : String
  pub input_schema : RootSchema
  pub output_schema : RootSchema
  pub required_context_keys : List String
  pub risk_level : CapabilityRiskLevel
  pub visibility : CapabilityVisibility
  pub default_enabled : Bool
  pub is_placeholder : Bool
  pub is_deprecated : Bool

-- `_availability_digest_payload`
pub record AvailabilityPayload : Type 0 where
  pub capability_id : String
  pub step_kind : String
  pub status : CapabilityStatus
  pub reason : Option String
  pub missing_context_keys : List String

pub record DigestPayload : Type 0 where
  pub capabilities : List DescriptorPayload
  pub availability : List AvailabilityPayload
  pub available_step_kinds : List String
  pub unavailable_step_kinds : List String

pub descriptor_digest_payload : CapabilityDescriptor → DescriptorPayload
descriptor_digest_payload d = record {
  capability_id = d.capability_id;
  version = d.version;
  step_kind = d.step_kind;
  input_schema = d.input_schema;
  output_schema = d.output_schema;
  required_context_keys = d.required_context_keys;
  risk_level = d.risk_level;
  visibility = d.visibility;
  default_enabled = d.default_enabled;
  is_placeholder = d.is_placeholder;
  is_deprecated = d.is_deprecated;
}

pub availability_digest_payload : CapabilityAvailability → AvailabilityPayload
availability_digest_payload a = record {
  capability_id = a.capability_id;
  step_kind = a.step_kind;
  status = a.status;
  reason = a.reason;
  missing_context_keys = a.missing_context_keys;
}

unfoldable pub digest_payload : CapabilitySnapshot → DigestPayload
digest_payload s = record {
  capabilities = map descriptor_digest_payload s.capabilities;
  availability = map availability_digest_payload s.availability;
  available_step_kinds = s.available_step_kinds;
  unavailable_step_kinds = s.unavailable_step_kinds;
}

-- The keyword arguments of `_availability` with their defaults.
record Blocked : Type 0 where
  missing_context_keys : List String
  blocked_by_policy : Bool
  blocked_by_skill : Bool
  blocked_by_feature_flag : Bool

abbrev plain : Blocked
plain = record {
  missing_context_keys = [];
  blocked_by_policy = false;
  blocked_by_skill = false;
  blocked_by_feature_flag = false;
}

abbrev availability_of :
    CapabilityDescriptor → CapabilityStatus → Option String → Blocked → CapabilityAvailability
availability_of d status reason b = record {
  capability_id = d.capability_id;
  step_kind = d.step_kind;
  status = status;
  reason = reason;
  missing_context_keys = b.missing_context_keys;
  blocked_by_policy = b.blocked_by_policy;
  blocked_by_skill = b.blocked_by_skill;
  blocked_by_feature_flag = b.blocked_by_feature_flag;
  effective_risk_level = d.risk_level;
}

-- The required context keys that the request does not have.
abbrev pub missing_context : CapabilityDescriptor → BuildCapabilitySnapshotInput → List String
missing_context d request =
    select (λ k. not (contains k request.available_context_keys)) d.required_context_keys

abbrev is_false : Option Bool → Bool
is_false (some false) = true
is_false _ = false

-- The feature flag of the capability is there and is off.
abbrev pub flagged_off : CapabilityDescriptor → BuildCapabilitySnapshotInput → Bool
flagged_off d request =
    is_false (Dict.get ("capability." <> d.capability_id <> ".enabled") request.feature_flags)

-- `_resolve_descriptor`
unfoldable pub resolve_descriptor :
    CapabilityDescriptor → BuildCapabilitySnapshotInput → CapabilityAvailability
resolve_descriptor d request =
    if d.is_placeholder && not request.allow_placeholder
    then availability_of d placeholder (some "placeholder capability is disabled by default") plain
    else if d.is_deprecated && not request.allow_deprecated
    then availability_of d deprecated (some "deprecated capability is not allowed") plain
    else if not d.default_enabled
    then availability_of d disabled (some "capability is disabled by default") plain
    else if contains d.capability_id request.forbidden_capability_ids
    then availability_of d disabled (some "capability is forbidden by skill or policy")
        (record plain { blocked_by_skill = true })
    else if flagged_off d request
    then availability_of d disabled (some "capability is disabled by feature flag")
        (record plain { blocked_by_feature_flag = true })
    else if not (is_nil (missing_context d request))
    then availability_of d unavailable (some "required execution context is unavailable")
        (record plain { missing_context_keys = missing_context d request })
    else if ltb (risk_order request.max_risk_level) (risk_order d.risk_level)
    then availability_of d disabled (some "capability risk exceeds task policy")
        (record plain { blocked_by_policy = true })
    else availability_of d enabled none plain

-- The step kinds, or the ids, of the records whose status passes a test.
unfoldable pub step_kinds_where :
    (CapabilityStatus → Bool) → List CapabilityAvailability → List String
step_kinds_where test records = map (λ a. a.step_kind) (select (λ a. test a.status) records)

module _ (digest : DigestPayload → String) where
  unfoldable pub recompute_digest : CapabilitySnapshot → String
  recompute_digest s = digest (digest_payload s)

  unfoldable pub build_snapshot :
      CapabilityRegistry → String → BuildCapabilitySnapshotInput → CapabilitySnapshot
  build_snapshot registry snapshot_id request =
      let descriptors = list_all registry in
      let availability = map (λ d. resolve_descriptor d request) descriptors in
      let available = step_kinds_where is_enabled availability in
      let others = step_kinds_where (λ st. not (is_enabled st)) availability in
      record {
        snapshot_id = snapshot_id;
        capabilities = descriptors;
        availability = availability;
        available_step_kinds = available;
        unavailable_step_kinds = others;
        capability_digest = digest (record {
          capabilities = map descriptor_digest_payload descriptors;
          availability = map availability_digest_payload availability;
          available_step_kinds = available;
          unavailable_step_kinds = others;
        });
        task_id = request.task_id;
        metadata = record {
          task_type = request.task_type;
          required_capability_ids = request.required_capability_ids;
          recommended_capability_ids = request.recommended_capability_ids;
          max_risk_level = request.max_risk_level;
        };
      }
