-- ===== src/Plan/SnapshotChecks/Coverage.antt =====
-- What a step has if the checks against a capability snapshot report no error: its kind, its inputs
-- and the capabilities that it declares are those of the snapshot.
use sth_boring.Base.{
  ℕ, String, Bool, true, false, not, ◌&&◌, Option, some, List, [], ◌∷◌, ◌++◌, ◌≡◌, refl, sym, arith,
  any, all, contains, is_nil, inl, inr, Option-cases, Bool-cases,
}
use sth_boring.Base.Dict
use sth_boring.Base.Dict.{Dict}
use sth_boring.Base.Partial.{>>=-eq-some}
use sth_boring.Json.{Value, Fields, entry, no_fields}
use sth_boring.Plan.Models.{PlanStep}
use sth_boring.Plan.Issues.{step_location}
use sth_boring.Plan.Validator.{PlanValidator, Issues}
use sth_boring.Plan.StepChecks.Acceptance.{has_error, has_error-append}
use sth_boring.Capability.Schema.{SchemaError}
use sth_boring.Capability.SchemaValidation.{validate_payload_against_schema}
use sth_boring.Capability.Models.{is_enabled, CapabilityDescriptor, CapabilityAvailability}
use sth_boring.Plan.SnapshotChecks.{
  SnapshotIndex, declared_issues, all_declared_issues, validate_required_capabilities,
  undeclared_kind_issues, schema_issues, validate_enabled_step, issue_for_unavailable_capability,
  validate_step_against_capability_snapshot,
}

-- A capability with a descriptor in the snapshot that is enabled there.
abbrev pub is_enabled_entry : Option CapabilityDescriptor → Option CapabilityAvailability → Bool
is_enabled_entry (some d) (some a) = is_enabled a.status
is_enabled_entry _ _ = false

abbrev pub is_declared : SnapshotIndex → String → Bool
is_declared index id =
    is_enabled_entry (Dict.get id index.descriptor_by_capability_id)
      (Dict.get id index.availability_by_capability_id)

-- What the snapshot says of the kind of the step, and of what the step declares.
pub record IsCovered (index : SnapshotIndex) (step : PlanStep) : Type 0 where
  pub descriptor : CapabilityDescriptor
  pub availability : CapabilityAvailability
  pub is_described : Dict.get step.kind index.descriptor_by_step_kind ≡ some descriptor
  pub is_available : Dict.get step.kind index.availability_by_step_kind ≡ some availability
  pub is_listed : contains step.kind index.enabled_step_kinds ≡ true
  pub status_enabled : is_enabled availability.status ≡ true
  pub inputs_match :
      validate_payload_against_schema (Value.obj step.inputs) descriptor.input_schema ≡ some []
  pub all_declared : all (is_declared index) step.required_capabilities ≡ true

schema_issues-has_error :
    (step : PlanStep) (loc : String) (metadata : Fields) (es : List SchemaError)
    → has_error (schema_issues step loc metadata es) ≡ not (is_nil es)
unfolding schema_issues any
schema_issues-has_error step loc metadata [] = refl
schema_issues-has_error step loc metadata (e ∷ es) = refl

declared_issues-has_error :
    (step : PlanStep) (loc : String) (index : SnapshotIndex) (id : String)
    → has_error (declared_issues step loc index id) ≡ not (is_declared index id)
unfolding declared_issues any
declared_issues-has_error step loc index id = ground arith

all_declared_issues-has_error :
    (step : PlanStep) (loc : String) (index : SnapshotIndex) (ids : List String)
    → has_error (all_declared_issues step loc index ids) ≡ not (all (is_declared index) ids)
unfolding all_declared_issues any all
all_declared_issues-has_error step loc index [] = refl
all_declared_issues-has_error step loc index (id ∷ ids) =
    let rest = all_declared_issues-has_error step loc index ids in
    simp (has_error-append, declared_issues-has_error) (ground arith)

pub no_error-append :
    (is js : Issues)
    → has_error (is ++ js) ≡ false
    → (has_error is ≡ false) × (has_error js ≡ false)
no_error-append is js h = let e = has_error-append is js in ground arith

all-is_nil : (p : String → Bool) (ids : List String) → is_nil ids ≡ true → all p ids ≡ true
unfolding all
all-is_nil p [] h = refl
all-is_nil p (id ∷ ids) h = absurd (ground arith)

is_nil-eq : (es : List SchemaError) → is_nil es ≡ true → es ≡ []
is_nil-eq [] h = refl
is_nil-eq (e ∷ es) h = absurd (ground arith)

required-declared :
    (v : PlanValidator) (step : PlanStep) (loc : String) (d : CapabilityDescriptor)
    (index : SnapshotIndex)
    → has_error (validate_required_capabilities v step loc d index) ≡ false
    → all (is_declared index) step.required_capabilities ≡ true
unfolding validate_required_capabilities
required-declared v step loc d index h =
    let ids = step.required_capabilities in
    let none_declared = all-is_nil (is_declared index) ids in
    let parts =
      no_error-append (all_declared_issues step loc index ids)
        (undeclared_kind_issues v step loc d) in
    let e = all_declared_issues-has_error step loc index ids in
    ground (arith, none_declared, parts, e)

-- A step of an enabled kind for which no error is reported has inputs that match the schema of the
-- kind, and declares capabilities of the snapshot that are enabled.
enabled_step-checked :
    (v : PlanValidator) (step : PlanStep) (loc : String) (d : CapabilityDescriptor)
    (index : SnapshotIndex) (is : Issues)
    → validate_enabled_step v step loc d index ≡ some is
    → has_error is ≡ false
    → (validate_payload_against_schema (Value.obj step.inputs) d.input_schema ≡ some [])
      × (all (is_declared index) step.required_capabilities ≡ true)
unfolding validate_enabled_step
enabled_step-checked v step loc d index is e h =
    let (errors, checked, all_issues) =
      >>=-eq-some (validate_payload_against_schema (Value.obj step.inputs) d.input_schema) _ e in
    let metadata = entry "capability_id" (Value.str d.capability_id) no_fields in
    let required = validate_required_capabilities v step loc d index in
    let (valid, declared) =
      no_error-append (schema_issues step loc metadata errors) required (ground arith) in
    let schema = schema_issues-has_error step loc metadata errors in
    let none_left = is_nil-eq errors (ground arith) in
    (rw (sym none_left) checked, required-declared v step loc d index declared)

-- A step for which the checks against the snapshot report no error is covered by the snapshot, if the
-- validator does not let deprecated capabilities through.
pub step_without_error-IsCovered :
    (v : PlanValidator) (step : PlanStep) (idx : ℕ) (index : SnapshotIndex) (is : Issues)
    → v.allow_deprecated_capability ≡ false
    → validate_step_against_capability_snapshot v step idx index ≡ some is
    → has_error is ≡ false
    → IsCovered index step
unfolding validate_step_against_capability_snapshot issue_for_unavailable_capability any
step_without_error-IsCovered v step idx index is strict e h =
    elim (Option-cases (Dict.get step.kind index.descriptor_by_step_kind)) [
      | inl no_descriptor ↦ absurd (ground arith)
      | inr (d, described) ↦
          elim (Option-cases (Dict.get step.kind index.availability_by_step_kind)) [
            | inl no_availability ↦ absurd (ground arith)
            | inr (a, available) ↦
                elim (Bool-cases
                  (contains step.kind index.enabled_step_kinds && is_enabled a.status)) [
                    | inr refused ↦ absurd (ground arith)
                    | inl accepted ↦
                        let checked =
                          enabled_step-checked v step (step_location idx) d index is (ground arith)
                            h in
                        record {
                          descriptor = d;
                          availability = a;
                          is_described = described;
                          is_available = available;
                          is_listed = ground arith;
                          status_enabled = ground arith;
                          inputs_match = checked.0;
                          all_declared = checked.1;
                        }
                  ]
          ]
    ]
