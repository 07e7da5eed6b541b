-- ===== src/Capability/Models.antt =====
-- src/sdk_test_agent/capability/capability_enums.py, capability_models.py and trace_models.py.
use sth_boring.Base.{ℕ, String, Bool, true, false, Option, List}
use sth_boring.Base.Dict.{Dict}
use sth_boring.Json.{Fields}
use sth_boring.Capability.Schema.{RootSchema}

pub data CapabilityStatus : Type 0 where
  enabled disabled unavailable placeholder deprecated : CapabilityStatus

pub data CapabilityRiskLevel : Type 0 where
  low medium high critical : CapabilityRiskLevel

pub data CapabilityVisibility : Type 0 where
  planner_visible validator_only internal : CapabilityVisibility

-- RISK_ORDER
abbrev pub risk_order : CapabilityRiskLevel → ℕ
risk_order low = 0
risk_order medium = 1
risk_order high = 2
risk_order critical = 3

abbrev pub is_enabled : CapabilityStatus → Bool
is_enabled enabled = true
is_enabled _ = false

abbrev pub is_planner_visible : CapabilityVisibility → Bool
is_planner_visible planner_visible = true
is_planner_visible _ = false

pub record CapabilityDescriptor : Type 0 where
  pub capability_id : String
  pub version : String
  pub step_kind : String
  pub owner_module : String
  pub name : String
  pub description : String
  pub executor_name : Option String
  pub input_model_ref : Option String
  pub output_model_ref : Option String
  pub input_schema : RootSchema
  pub output_schema : RootSchema
  pub required_context_keys : List String
  pub required_capabilities : List String
  pub risk_level : CapabilityRiskLevel
  pub visibility : CapabilityVisibility
  pub default_enabled : Bool
  pub is_placeholder : Bool
  pub is_deprecated : Bool
  pub examples : List Fields
  pub tags : List String
  pub metadata : Fields

pub record BuildCapabilitySnapshotInput : Type 0 where
  pub task_id : Option String
  pub task_type : Option String
  pub available_context_keys : List String
  pub required_capability_ids : List String
  pub recommended_capability_ids : List String
  pub forbidden_capability_ids : List String
  pub max_risk_level : CapabilityRiskLevel
  pub allow_placeholder : Bool
  pub allow_deprecated : Bool
  pub feature_flags : Dict Bool
  pub metadata : Fields

pub record CapabilityAvailability : Type 0 where
  pub capability_id : String
  pub step_kind : String
  pub status : CapabilityStatus
  pub reason : Option String
  pub missing_context_keys : List String
  pub blocked_by_policy : Bool
  pub blocked_by_skill : Bool
  pub blocked_by_feature_flag : Bool
  pub effective_risk_level : CapabilityRiskLevel

-- `metadata` of a snapshot, which the panel fills with four entries of the request
pub record SnapshotMetadata : Type 0 where
  pub task_type : Option String
  pub required_capability_ids : List String
  pub recommended_capability_ids : List String
  pub max_risk_level : CapabilityRiskLevel

pub record CapabilitySnapshot : Type 0 where
  pub snapshot_id : String
  pub capabilities : List CapabilityDescriptor
  pub availability : List CapabilityAvailability
  pub available_step_kinds : List String
  pub unavailable_step_kinds : List String
  pub capability_digest : String
  pub task_id : Option String
  pub metadata : SnapshotMetadata

pub record CapabilityResolutionRecord : Type 0 where
  pub record_id : String
  pub input_payload : Fields
  pub output_snapshot_id : String
  pub output_capability_digest : String
  pub descriptor_ids : List String
  pub enabled_capability_ids : List String
  pub disabled_capability_ids : List String
  pub unavailable_capability_ids : List String
  pub placeholder_capability_ids : List String
  pub deprecated_capability_ids : List String
  pub availability_records : List Fields
  pub created_at : ℕ
  pub task_id : Option String
  pub prompt_artifact_id : Option String
  pub snapshot_artifact_id : Option String
