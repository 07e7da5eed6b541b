-- ===== src/Plan/Enums.antt =====
-- src/sdk_test_agent/plan/plan_enums.py: classes of constants, which are names for texts.
use sth_boring.Base.{String, List, [], ◌∷◌}

-- PlanStatus
abbrev pub draft : String
draft = "draft"

-- PlannerKind
abbrev pub llm : String
llm = "llm"

-- StepFailurePolicy
abbrev pub abort : String
abort = "abort"

abbrev pub continue : String
continue = "continue"

abbrev pub fallback : String
fallback = "fallback"

abbrev pub request_replan : String
request_replan = "request_replan"

-- StepRiskLevel
abbrev pub low : String
low = "low"

abbrev pub medium : String
medium = "medium"

abbrev pub high : String
high = "high"

abbrev pub supported_plan_step_kinds : List String
supported_plan_step_kinds =
    "inspect_package" ∷ "parse_text" ∷ "build_image" ∷ "create_runtime" ∷ "inspect_environment"
    ∷ "run_command" ∷ "execute_probe" ∷ "generate_script" ∷ "run_test" ∷ "collect_artifact"
    ∷ "summarize_report" ∷ []

abbrev pub valid_risk_levels : List String
valid_risk_levels = low ∷ medium ∷ high ∷ []

abbrev pub valid_failure_policies : List String
valid_failure_policies = abort ∷ continue ∷ fallback ∷ request_replan ∷ []
