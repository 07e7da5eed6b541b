-- ===== src/Plan/Validator.antt =====
-- The fields of PlanValidator of src/sdk_test_agent/plan/plan_validation.py.
use sth_boring.Base.{String, Bool, true, false, Option, none, List, []}
use sth_boring.Base.Int.{ℤ}
use sth_boring.Plan.Enums.{supported_plan_step_kinds}
use sth_boring.Plan.Issues.{ValidationIssue}
use sth_boring.Capability.Registry.{CapabilityRegistry}

pub record PlanValidator : Type 0 where
  pub supported_step_kinds : List String
  pub available_capabilities : Option (List String)
  pub max_step_count : Option ℤ
  pub capability_registry : Option CapabilityRegistry
  pub strict_required_capabilities : Bool
  pub require_capability_digest : Bool
  pub fail_on_warning : Bool
  pub allow_deprecated_capability : Bool

-- `PlanValidator()`
abbrev pub default_validator : PlanValidator
default_validator = record {
  supported_step_kinds = supported_plan_step_kinds;
  available_capabilities = none;
  max_step_count = none;
  capability_registry = none;
  strict_required_capabilities = false;
  require_capability_digest = false;
  fail_on_warning = false;
  allow_deprecated_capability = false;
}

abbrev pub Issues : Type 0
Issues = List ValidationIssue

abbrev pub issues_if : Bool → Issues → Issues
issues_if true is = is
issues_if false is = []
