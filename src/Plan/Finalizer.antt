-- ===== src/Plan/Finalizer.antt =====
-- src/sdk_test_agent/plan/plan_finalizer.py: from the draft of a planner to a plan of the system.
pub mod Binding
use sth_boring.Base.{ℕ, String, List, [], ◌∷◌, Option, none, some, or_default}
use sth_boring.Base.Dict.{Dict}
use sth_boring.Json
use sth_boring.Json.{Value, Fields, no_fields, entry, optional}
use sth_boring.Plan.Enums.{draft}
use sth_boring.Plan.Models.{ExecutionPlan, ExecutionPlanDraft}
use sth_boring.Capability.Models.{CapabilitySnapshot, CapabilityResolutionRecord}

-- The keyword arguments of `finalize`.
pub record Options : Type 0 where
  pub planner_kind : String
  pub global_constraints : Option Fields
  pub parent_plan_id : Option String
  pub revision_no : ℕ
  pub capability_snapshot : Option CapabilitySnapshot
  pub capability_resolution_record : Option CapabilityResolutionRecord
  pub artifact_refs : Option (Dict String)
  pub metadata : Option Fields

-- A dict of texts, as a value.
text_fields : Dict String → Fields
text_fields [] = no_fields
text_fields ((k, v) ∷ d) = entry k (Value.str v) (text_fields d)

draft_metadata : ExecutionPlanDraft → Fields
draft_metadata d = entry "plan_summary" (Value.str d.plan_summary) (
    entry "draft_metadata" (Value.obj d.metadata)
      (entry "raw_llm_output" (optional d.raw_llm_output) no_fields))

abbrev bind_snapshot : Option CapabilitySnapshot → Fields → Fields
bind_snapshot none fields = fields
bind_snapshot (some s) fields =
    Json.put "capability_digest" (Value.str s.capability_digest)
      (Json.put "capability_snapshot_id" (Value.str s.snapshot_id) fields)

abbrev bind_record : Option CapabilityResolutionRecord → Fields → Fields
bind_record none fields = fields
bind_record (some r) fields =
    Json.put "capability_resolution_record_id" (Value.str r.record_id) fields

-- `if artifact_refs:`
abbrev bind_refs : Option (Dict String) → Fields → Fields
bind_refs none fields = fields
bind_refs (some []) fields = fields
bind_refs (some (e ∷ refs)) fields =
    Json.put "artifact_refs" (Value.obj (text_fields (e ∷ refs))) fields

-- `if metadata:`, where an update with an empty dict changes nothing
abbrev bind_metadata : Option Fields → Fields → Fields
bind_metadata none fields = fields
bind_metadata (some metadata) fields = Json.update fields metadata

unfoldable pub plan_metadata : ExecutionPlanDraft → Options → Fields
unfolding draft_metadata text_fields
plan_metadata d options = bind_metadata options.metadata (
    bind_refs options.artifact_refs (
      bind_record options.capability_resolution_record
        (bind_snapshot options.capability_snapshot (draft_metadata d))))

-- `plan_id` and `created_at` are what the id factory and the clock return.
unfoldable pub finalize : ExecutionPlanDraft → Options → String → ℕ → ExecutionPlan
finalize d options plan_id created_at = record {
  plan_id = plan_id;
  task_id = d.task_id;
  task_type = d.task_type;
  goal = d.goal;
  planner_kind = options.planner_kind;
  planner_name = d.planner_name;
  planner_version = d.planner_version;
  status = draft;
  steps = d.steps;
  assumptions = d.assumptions;
  missing_information = d.missing_information;
  risk_notes = d.risk_notes;
  global_constraints = or_default no_fields options.global_constraints;
  plan_metadata = plan_metadata d options;
  parent_plan_id = options.parent_plan_id;
  revision_no = options.revision_no;
  created_at = some created_at;
}
