-- ===== src/Plan/StepChecks/Acceptance.antt =====
-- The checks of a step that need no capability report an error exactly if the step breaks one of the
-- rules below.
use sth_boring.Base.{
  ℕ, ◌+◌, String, ◌==◌, Bool, true, false, not, ◌&&◌, ◌||◌, Option, none, some, List, [], ◌∷◌, ◌++◌,
  map, ◌≡◌, refl, arith, eq_sym, any, any-append, all, contains,
}
use sth_boring.Plan.Enums.{valid_risk_levels, valid_failure_policies}
use sth_boring.Plan.Models.{PlanStep}
use sth_boring.Plan.Issues.{is_error}
use sth_boring.Plan.Validator.{PlanValidator, Issues, issues_if}
use sth_boring.Plan.StepChecks.{
  available_issues, step_id_issues, dependency_issues, capability_issues, kind_issues,
  choice_issues, is_bad_timeout, validate_step_base,
}

-- Some issue is an error.
abbrev pub has_error : Issues → Bool
has_error is = any (λ i. is_error i.severity) is

pub has_error-append : (is js : Issues) → has_error (is ++ js) ≡ (has_error is || has_error js)
has_error-append is js = any-append (λ i. is_error i.severity) is js

pub has_error-issues_if :
    (b : Bool) (is : Issues) → has_error (issues_if b is) ≡ (b && has_error is)
unfolding any
has_error-issues_if true is = refl
has_error-issues_if false is = refl

-- The ids are not empty, and no two are the same.
unfoldable pub distinct : List String → Bool
distinct [] = true
distinct (id ∷ ids) = not (id == "") && (not (contains id ids) && distinct ids)

-- None of the ids is in a list.
abbrev fresh : List String → List String → Bool
fresh seen ids = all (λ id. not (contains id seen)) ids

abbrev pub ids_of : List PlanStep → List String
ids_of steps = map (λ s. s.step_id) steps

abbrev pub are_available : Option (List String) → List String → Bool
are_available none caps = true
are_available (some available) caps = all (λ c. contains c available) caps

-- The rules for one step, of a plan with the given ids.
unfoldable pub is_acceptable_step : PlanValidator → List String → PlanStep → Bool
is_acceptable_step v ids step =
    all (λ d. contains d ids) step.depends_on
    && (not (step.kind == "")
        && (contains step.kind v.supported_step_kinds
            && (are_available v.available_capabilities step.required_capabilities
                && (contains step.risk_level valid_risk_levels
                    && (contains step.on_failure valid_failure_policies
                        && not (is_bad_timeout step.timeout_sec))))))

dependency_issues-has_error :
    (step : PlanStep) (loc : String) (known deps : List String)
    → has_error (dependency_issues step loc known deps) ≡ not (all (λ d. contains d known) deps)
unfolding dependency_issues any all
dependency_issues-has_error step loc known [] = refl
dependency_issues-has_error step loc known (d ∷ ds) =
    let rest = dependency_issues-has_error step loc known ds in
    simp (has_error-append, has_error-issues_if) (ground arith)

capability_issues-has_error :
    (step : PlanStep) (loc : String) (known caps : List String)
    → has_error (capability_issues step loc known caps) ≡ not (all (λ c. contains c known) caps)
unfolding capability_issues any all
capability_issues-has_error step loc known [] = refl
capability_issues-has_error step loc known (c ∷ cs) =
    let rest = capability_issues-has_error step loc known cs in
    simp (has_error-append, has_error-issues_if) (ground arith)

kind_issues-has_error :
    (step : PlanStep) (loc : String) (supported : List String)
    → has_error (kind_issues step loc supported)
      ≡ not (not (step.kind == "") && contains step.kind supported)
unfolding kind_issues any
kind_issues-has_error step loc supported = ground arith

choice_issues-has_error :
    (step : PlanStep) (loc name value code old_code : String) (choices : List String)
    → has_error (choice_issues step loc name value code old_code choices)
      ≡ not (contains value choices)
unfolding choice_issues any
choice_issues-has_error step loc name value code old_code choices = ground arith

available_issues-has_error :
    (step : PlanStep) (loc : String) (available : Option (List String))
    → has_error (available_issues step loc available)
      ≡ not (are_available available step.required_capabilities)
unfolding any
available_issues-has_error step loc none = refl
available_issues-has_error step loc (some available) =
    capability_issues-has_error step loc available step.required_capabilities

-- The checks of a step report an error exactly if it breaks a rule.
pub validate_step_base-has_error :
    (v : PlanValidator) (step : PlanStep) (idx : ℕ) (known : List String)
    → has_error (validate_step_base v step idx known) ≡ not (is_acceptable_step v known step)
unfolding validate_step_base is_acceptable_step any
validate_step_base-has_error v step idx known =
    simp
      (
        has_error-append, has_error-issues_if, dependency_issues-has_error, kind_issues-has_error,
        available_issues-has_error, choice_issues-has_error,
      )
      (ground arith)

seen-fresh :
    (x : String) (seen ids : List String)
    → fresh (x ∷ seen) ids ≡ (fresh seen ids && not (contains x ids))
unfolding all contains
seen-fresh x seen [] = refl
seen-fresh x seen (id ∷ ids) = let rest = seen-fresh x seen ids in simp eq_sym (ground arith)

-- The loop over the ids reports an error exactly if an id is empty, is in the list of those seen, or
-- comes twice.
pub step_id_issues-has_error :
    (seen : List String) (idx : ℕ) (steps : List PlanStep)
    → has_error (step_id_issues seen idx steps)
      ≡ not (fresh seen (ids_of steps) && distinct (ids_of steps))
unfolding step_id_issues any all distinct
step_id_issues-has_error seen idx [] = refl
step_id_issues-has_error seen idx (step ∷ steps) =
    let rest = step_id_issues-has_error (step.step_id ∷ seen) (idx + 1) steps in
    let split = seen-fresh step.step_id seen (ids_of steps) in
    simp (has_error-append, has_error-issues_if, rest, split) (ground arith)

all_fresh : (ids : List String) → fresh [] ids ≡ true
unfolding all contains
all_fresh [] = refl
all_fresh (id ∷ ids) = all_fresh ids

pub step_id_issues-distinct :
    (steps : List PlanStep) → has_error (step_id_issues [] 0 steps) ≡ not (distinct (ids_of steps))
step_id_issues-distinct steps = rw (step_id_issues-has_error, all_fresh) refl
