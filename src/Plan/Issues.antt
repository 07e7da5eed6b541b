-- ===== src/Plan/Issues.antt =====
-- The issues and results of src/sdk_test_agent/plan/plan_validation.py, and the paths that it puts in
-- an issue.
use Prim.Native.Char.{code}
use sth_boring.Base.{
  select, ℕ, String, ◌<>◌, ◌==◌, Bool, true, false, ◌&&◌, ◌||◌, Option, none, some, List,
  if◌then◌else◌, any, nat_eq, str,
}
use sth_boring.Json.{Fields}
use sth_boring.Plan.Models.{PlanStep}
use sth_boring.Capability.Schema.{Message, SchemaError}

-- ValidationSeverity and ValidationStatus
pub data Severity : Type 0 where
  info warning error : Severity

pub data Status : Type 0 where
  passed failed : Status

abbrev pub is_error : Severity → Bool
is_error error = true
is_error _ = false

abbrev pub is_warning : Severity → Bool
is_warning warning = true
is_warning _ = false

pub record ValidationIssue : Type 0 where
  pub code : String
  pub severity : Severity
  pub message : Message
  pub location : Option String
  pub metadata : Fields
  pub step_id : Option String
  pub step_kind : Option String
  pub path : Option String

pub record PlanValidationResult : Type 0 where
  pub status : Status
  pub issues : List ValidationIssue
  pub checked_at : ℕ
  pub capability_snapshot_id : Option String
  pub capability_digest : Option String

-- `path or location`
abbrev path_or : Option String → Option String → Option String
path_or none location = location
path_or (some path) location = if path == "" then location else some path

-- `_issue` with no step
abbrev pub plan_issue : String → Severity → Message → Option String → Fields → ValidationIssue
plan_issue code severity message path metadata = record {
  code = code;
  severity = severity;
  message = message;
  location = none;
  metadata = metadata;
  step_id = none;
  step_kind = none;
  path = path_or path none;
}

-- `_issue` with a step and its location
abbrev pub step_issue :
    PlanStep → String → String → Severity → Message → Option String → Fields → ValidationIssue
step_issue step loc code severity message path metadata = record {
  code = code;
  severity = severity;
  message = message;
  location = some loc;
  metadata = metadata;
  step_id = some step.step_id;
  step_kind = some step.kind;
  path = path_or path (some loc);
}

-- `f"steps[{idx}]"`
abbrev pub step_location : ℕ → String
step_location idx = "steps[" <> str idx <> "]"

-- `s.split(":", 1)[0]`
before_colon : String → String
before_colon String.[] = String.[]
before_colon (String.◌∷◌ c s) =
    let rest = before_colon s in if nat_eq (code c) b':' then String.[] else String.◌∷◌ c rest

-- `s.replace("$", by, 1)`
replace_dollar : String → String → String
replace_dollar by String.[] = String.[]
replace_dollar by (String.◌∷◌ c s) =
    let rest = replace_dollar by s in if nat_eq (code c) b'$' then by <> s else String.◌∷◌ c rest

abbrev starts_with_dollar : String → Bool
starts_with_dollar String.[] = false
starts_with_dollar (String.◌∷◌ c s) = nat_eq (code c) b'$'

-- `_schema_error_path`: the text of an error begins with its path and a colon.
unfoldable pub schema_error_path : String → SchemaError → String
unfolding before_colon replace_dollar
schema_error_path loc e =
    if starts_with_dollar e.path
    then replace_dollar (loc <> ".inputs") (before_colon e.path)
    else loc <> ".inputs"

-- `_result`
unfoldable pub result_status : Bool → List ValidationIssue → Status
result_status fail_on_warning issues =
    if any (λ i. is_error i.severity) issues
      || (fail_on_warning && any (λ i. is_warning i.severity) issues)
    then failed
    else passed

-- The properties of a PlanValidationResult.
abbrev pub is_passed : PlanValidationResult → Bool
is_passed r = elim r.status [ passed ↦ true | failed ↦ false ]

unfoldable pub errors : PlanValidationResult → List ValidationIssue
errors r = select (λ i. is_error i.severity) r.issues

unfoldable pub warnings : PlanValidationResult → List ValidationIssue
warnings r = select (λ i. is_warning i.severity) r.issues
