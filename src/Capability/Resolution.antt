-- ===== src/Capability/Resolution.antt =====
-- The records of src/sdk_test_agent/capability/capability_panel.py that say how a snapshot came about
-- (build_resolution_record), and their check in capability_validator.py
-- (validate_resolution_record). A record holds dictionaries, which `model_dump(mode="json")` makes of
-- the models; it is a parameter, like `str` and `repr` of a value that is not a text.
pub mod Accepting
use sth_boring.Base.{
  ℕ, String, ◌<>◌, ◌==◌, Bool, true, false, not, Option, none, some, List, [], ◌∷◌, ◌++◌, map,
  select, contains, same_texts, sorted, or_default, if◌then◌else◌, Result, ok, raise, Exception,
}
use sth_boring.Json
use sth_boring.Json.{Value, Fields}
use sth_boring.Capability.Models.{
  CapabilityStatus, enabled, disabled, unavailable, placeholder, deprecated, CapabilityAvailability,
  CapabilitySnapshot, CapabilityResolutionRecord, BuildCapabilitySnapshotInput,
}
use sth_boring.Capability.Schema.{text}
use sth_boring.Capability.Validator.{
  CapabilityValidationIssue, CapabilityValidationResult, issue, issue_if, result,
}

abbrev pub is_status : CapabilityStatus → CapabilityStatus → Bool
is_status enabled enabled = true
is_status disabled disabled = true
is_status unavailable unavailable = true
is_status placeholder placeholder = true
is_status deprecated deprecated = true
is_status _ _ = false

-- `status.value`
abbrev pub status_text : CapabilityStatus → String
status_text enabled = "enabled"
status_text disabled = "disabled"
status_text unavailable = "unavailable"
status_text placeholder = "placeholder"
status_text deprecated = "deprecated"

abbrev pub status_texts : List String
status_texts = "enabled" ∷ "disabled" ∷ "unavailable" ∷ "placeholder" ∷ "deprecated" ∷ []

-- `model_dump(mode="json")`, and what the check uses of Python: `str` and `repr` of a value, and the
-- exception of `sorted`, if it raises, of values that are not all texts.
pub record Python : Type 0 where
  pub dump_request : BuildCapabilitySnapshotInput → Fields
  pub dump_availability : CapabilityAvailability → Fields
  pub str_of : Value → String
  pub repr : String → String
  pub sort_error : List Value → Option Exception

-- `by_status[status]` of the panel
unfoldable pub ids_where : CapabilityStatus → List CapabilityAvailability → List String
ids_where status [] = []
ids_where status (a ∷ records) =
    let rest = ids_where status records in
    if is_status status a.status then a.capability_id ∷ rest else rest

unfoldable pub filed_under : String → List (String × Value) → List Value
filed_under key [] = []
filed_under key ((k, id) ∷ filed) =
    let rest = filed_under key filed in if k == key then id ∷ rest else rest

-- The texts, if the values are texts.
abbrev pub text_cons : Value → Option (List String) → Option (List String)
text_cons (Value.str s) (some ts) = some (s ∷ ts)
text_cons _ _ = none

unfoldable pub texts_of : List Value → Option (List String)
texts_of [] = some []
texts_of (v ∷ vs) = text_cons v (texts_of vs)

abbrev pub list_issue : String → Bool → List CapabilityValidationIssue
list_issue location different =
    issue_if different
      (issue "error" location (text (location <> " is not consistent with availability_records")))

abbrev pub snapshot_issues :
    CapabilityResolutionRecord → Option CapabilitySnapshot → List CapabilityValidationIssue
snapshot_issues r none = []
snapshot_issues r (some s) =
    issue_if (not (r.output_snapshot_id == s.snapshot_id))
      (issue "error" "output_snapshot_id" (text "record snapshot id does not match snapshot"))
    ++ issue_if (not (r.output_capability_digest == s.capability_digest)) (
        issue "error" "output_capability_digest"
          (text "record digest does not match snapshot digest"))

abbrev pub checks_of : CapabilityResolutionRecord → List (String × List String × String)
checks_of r =
    ("enabled_capability_ids", r.enabled_capability_ids, "enabled")
    ∷ ("disabled_capability_ids", r.disabled_capability_ids, "disabled")
    ∷ ("unavailable_capability_ids", r.unavailable_capability_ids, "unavailable")
    ∷ ("placeholder_capability_ids", r.placeholder_capability_ids, "placeholder")
    ∷ ("deprecated_capability_ids", r.deprecated_capability_ids, "deprecated")
    ∷ []

module _ (python : Python) where
  -- The time is a number of seconds.
  unfoldable pub build_resolution_record :
      String
      → Option String
      → Option String
      → ℕ
      → BuildCapabilitySnapshotInput
      → CapabilitySnapshot
      → CapabilityResolutionRecord
  build_resolution_record record_id prompt_id artifact_id created_at request snapshot = record {
    record_id = record_id;
    input_payload = python.dump_request request;
    output_snapshot_id = snapshot.snapshot_id;
    output_capability_digest = snapshot.capability_digest;
    descriptor_ids = map (λ d. d.capability_id) snapshot.capabilities;
    enabled_capability_ids = ids_where enabled snapshot.availability;
    disabled_capability_ids = ids_where disabled snapshot.availability;
    unavailable_capability_ids = ids_where unavailable snapshot.availability;
    placeholder_capability_ids = ids_where placeholder snapshot.availability;
    deprecated_capability_ids = ids_where deprecated snapshot.availability;
    availability_records = map python.dump_availability snapshot.availability;
    created_at = created_at;
    task_id = request.task_id;
    prompt_artifact_id = prompt_id;
    snapshot_artifact_id = artifact_id;
  }

  -- `str(availability.get("status"))`
  abbrev pub status_key : Option Value → String
  status_key none = "None"
  status_key (some (Value.str status)) = status
  status_key (some v) = python.str_of v

  -- What the validator files under a status: the keys, and the values of `capability_id`, in order. A
  -- key that is not a status raises.
  abbrev pub file_record :
      String → Value → Result (List (String × Value)) → Result (List (String × Value))
  file_record key id (raise exc) =
      if contains key status_texts
      then raise exc
      else raise (record { class_name = "KeyError"; message = python.repr key })
  file_record key id (ok rest) =
      if contains key status_texts
      then ok ((key, id) ∷ rest)
      else raise (record { class_name = "KeyError"; message = python.repr key })

  unfoldable pub by_status : List Fields → Result (List (String × Value))
  by_status [] = ok []
  by_status (a ∷ records) =
      file_record (status_key (Json.get "status" a))
        (or_default Value.null (Json.get "capability_id" a)) (by_status records)

  -- `sorted(actual) != sorted(expected)`
  unfoldable pub is_different : List String → List Value → Result Bool
  is_different actual expected = elim (texts_of expected) [
    | some ts ↦ ok (not (same_texts (sorted actual) (sorted ts)))
    | none ↦ elim (python.sort_error expected) [ none ↦ ok true | some exc ↦ raise exc ]
  ]

  -- The loop over `checks`, in the order of the statuses.
  unfoldable pub list_issues :
      List (String × Value)
      → List (String × List String × String)
      → Result (List CapabilityValidationIssue)
  list_issues filed [] = ok []
  list_issues filed ((location, actual, status) ∷ checks) =
      let rest = list_issues filed checks in
      elim (is_different actual (filed_under status filed)) [
        | raise exc ↦ raise exc
        | ok different ↦ elim rest [
          | raise exc ↦ raise exc
          | ok issues ↦ ok (list_issue location different ++ issues)
        ]
      ]

  unfoldable pub validate_resolution_record :
      CapabilityResolutionRecord → Option CapabilitySnapshot → Result CapabilityValidationResult
  validate_resolution_record r snapshot = elim (by_status r.availability_records) [
    | raise exc ↦ raise exc
    | ok filed ↦ elim (list_issues filed (checks_of r)) [
      | raise exc ↦ raise exc
      | ok issues ↦ ok (result (snapshot_issues r snapshot ++ issues))
    ]
  ]
