-- ===== src/Capability/Resolution/Accepting.antt =====
-- The check of the resolution records accepts the records that the panel builds.
use sth_boring.Base.{
  ℕ, String, ◌==◌, eq_refl, true, false, any, Option, some, List, [], ◌∷◌, map, contains,
  same_texts_refl, Bool-cases, All, inl, inr, ok, ◌≡◌, refl, arith,
}
use sth_boring.Json
use sth_boring.Json.{Value}
use sth_boring.Capability.Models.{
  CapabilityStatus, enabled, disabled, unavailable, placeholder, deprecated, CapabilityAvailability,
  CapabilitySnapshot, BuildCapabilitySnapshotInput,
}
use sth_boring.Capability.Validator.{result}
use sth_boring.Capability.Resolution.{
  Python, is_status, status_text, status_texts, ids_where, by_status, filed_under, texts_of,
  is_different, list_issues, checks_of, build_resolution_record, validate_resolution_record,
}

-- `model_dump(mode="json")` keeps the id of an availability record, and its status as a text.
pub record KeepsFields (python : Python) : Type 0 where
  pub status :
      (a : CapabilityAvailability)
      → Json.get "status" (python.dump_availability a) ≡ some (Value.str (status_text a.status))
  pub capability_id :
      (a : CapabilityAvailability)
      → Json.get "capability_id" (python.dump_availability a) ≡ some (Value.str a.capability_id)

status_text-known : (status : CapabilityStatus) → contains (status_text status) status_texts ≡ true
unfolding contains
status_text-known enabled = refl
status_text-known disabled = refl
status_text-known unavailable = refl
status_text-known placeholder = refl
status_text-known deprecated = refl

status_text-same :
    (wanted status : CapabilityStatus)
    → (status_text status == status_text wanted) ≡ is_status wanted status
status_text-same enabled enabled = refl
status_text-same enabled disabled = refl
status_text-same enabled unavailable = refl
status_text-same enabled placeholder = refl
status_text-same enabled deprecated = refl
status_text-same disabled enabled = refl
status_text-same disabled disabled = refl
status_text-same disabled unavailable = refl
status_text-same disabled placeholder = refl
status_text-same disabled deprecated = refl
status_text-same unavailable enabled = refl
status_text-same unavailable disabled = refl
status_text-same unavailable unavailable = refl
status_text-same unavailable placeholder = refl
status_text-same unavailable deprecated = refl
status_text-same placeholder enabled = refl
status_text-same placeholder disabled = refl
status_text-same placeholder unavailable = refl
status_text-same placeholder placeholder = refl
status_text-same placeholder deprecated = refl
status_text-same deprecated enabled = refl
status_text-same deprecated disabled = refl
status_text-same deprecated unavailable = refl
status_text-same deprecated placeholder = refl
status_text-same deprecated deprecated = refl

-- What the validator files of the dumped records.
entries : List CapabilityAvailability → List (String × Value)
entries [] = []
entries (a ∷ records) = (status_text a.status, Value.str a.capability_id) ∷ entries records

module _ (python : Python) (keeps : KeepsFields python) where
  by_status-map :
      (records : List CapabilityAvailability)
      → by_status python (map python.dump_availability records) ≡ ok (entries records)
  unfolding by_status entries
  by_status-map [] = refl
  by_status-map (a ∷ records) =
      let rest = by_status-map records in
      rw (keeps.status a, keeps.capability_id a, rest, status_text-known a.status) refl

  texts_of-filed_under :
      (status : CapabilityStatus) (records : List CapabilityAvailability)
      → texts_of (filed_under (status_text status) (entries records))
        ≡ some (ids_where status records)
  unfolding filed_under entries texts_of ids_where
  texts_of-filed_under status [] = refl
  texts_of-filed_under status (a ∷ records) =
      let rest = texts_of-filed_under status records in
      let same = status_text-same status a.status in
      elim (Bool-cases (is_status status a.status)) [
        | inl wanted ↦ rw (same, wanted) (rw rest refl)
        | inr other ↦ rw (same, other) rest
      ]

  is_different-filed_under :
      (status : CapabilityStatus) (records : List CapabilityAvailability)
      → is_different python
          (ids_where status records)
          (filed_under (status_text status) (entries records))
        ≡ ok false
  unfolding is_different
  is_different-filed_under status records =
      rw (texts_of-filed_under status records, is_different) (simp same_texts_refl)

  list_issues-nil :
      (filed : List (String × Value)) (checks : List (String × List String × String))
      → All (λ c. is_different python c.1 (filed_under c.2 filed) ≡ ok false) checks
      → list_issues python filed checks ≡ ok []
  unfolding list_issues
  list_issues-nil filed [] h = refl
  list_issues-nil filed ((location, actual, status) ∷ checks) (same, h) =
      ground (arith, same, list_issues-nil filed checks h)

  -- If `model_dump` keeps the id and the status of an availability record, the validator accepts the
  -- record that the panel builds for a snapshot, with the snapshot, and finds nothing in it.
  pub validate_resolution_record-build :
      (id : String) (prompt artifact : Option String) (t : ℕ)
      (request : BuildCapabilitySnapshotInput) (s : CapabilitySnapshot)
      → validate_resolution_record python
          (build_resolution_record python id prompt artifact t request s)
          (some s)
        ≡ ok (record { is_ok = true; issues = [] })
  unfolding validate_resolution_record build_resolution_record result any
  validate_resolution_record-build id prompt artifact t request s =
      let at = λ (status : CapabilityStatus). is_different-filed_under status s.availability in
      rw (by_status-map s.availability, validate_resolution_record)
        (rw
          (list_issues-nil (entries s.availability)
            (checks_of (build_resolution_record python id prompt artifact t request s))
            (at enabled, (at disabled, (at unavailable, (at placeholder, (at deprecated, tt))))))
          (simp eq_refl))
