-- ===== src/Plan/Models.antt =====
-- src/sdk_test_agent/plan/plan_models.py. A field that the source does
-- not check is any text.
use sth_boring.Base.{ℕ, String, Bool, Option, List}
use sth_boring.Base.Int.{ℤ}
use sth_boring.Json.{Fields}

pub record PlanStep : Type 0 where
  pub step_id : String
  pub title : String
  pub kind : String
  pub intent : String
  pub depends_on : List String
  pub branch_group : Option String
  pub branch_condition : Option String
  pub inputs : Fields
  pub expected_outputs : List String
  pub required_capabilities : List String
  pub timeout_sec : Option ℤ
  pub retryable : Bool
  pub optional : Bool
  pub risk_level : String
  pub on_failure : String
  pub on_success : Option String
  pub metadata : Fields

pub record ExecutionPlan : Type 0 where
  pub plan_id : String
  pub task_id : String
  pub task_type : String
  pub goal : String
  pub planner_kind : String
  pub planner_name : String
  pub planner_version : String
  pub status : String
  pub steps : List PlanStep
  pub assumptions : List String
  pub missing_information : List String
  pub risk_notes : List String
  pub global_constraints : Fields
  pub plan_metadata : Fields
  pub parent_plan_id : Option String
  pub revision_no : ℕ
  pub created_at : Option ℕ

pub record ExecutionPlanDraft : Type 0 where
  pub task_id : String
  pub task_type : String
  pub goal : String
  pub planner_name : String
  pub planner_version : String
  pub plan_summary : String
  pub steps : List PlanStep
  pub assumptions : List String
  pub missing_information : List String
  pub risk_notes : List String
  pub raw_llm_output : Option String
  pub metadata : Fields

pub record ReplanRequest : Type 0 where
  pub task_id : String
  pub parent_plan_id : String
  pub reason : String
  pub failed_step_id : Option String
  pub execution_observations : List String
  pub latest_env_report_ref : Option String
  pub latest_artifact_refs : List String
  pub metadata : Fields
  pub created_at : Option ℕ

pub record PlanningPrerequisite : Type 0 where
  pub requirement_type : String
  pub required : Bool
  pub reason : String
  pub satisfied : Bool
  pub metadata : Fields

pub record PlanRevision : Type 0 where
  pub parent_plan_id : String
  pub revision_no : ℕ
  pub change_summary : String
  pub new_plan : ExecutionPlan
  pub replan_request : Option ReplanRequest
  pub created_at : Option ℕ
