-- ===== src/Plan/Finalizer/Binding.antt =====
-- src/sdk_test_agent/plan/plan_finalizer.py and plan_validation.py: the digest that the finalizer
-- writes is the one that the validator asks for.
use sth_boring.Base.{
  ℕ, String, [], ◌∷◌, Option, none, some, false, if◌then◌else◌, ◌==◌, ◌≡◌, refl, arith, eq_iff,
  eq_refl, Bool-cases, inl, inr, ap, ◌∙◌,
}
use sth_boring.Base.Dict.{Dict}
use sth_boring.Json
use sth_boring.Json.{Value, Fields, no_fields, entry}
use sth_boring.Plan.Models.{ExecutionPlanDraft}
use sth_boring.Plan.Validator.{PlanValidator}
use sth_boring.Plan.SnapshotChecks.{validate_capability_digest, digest_mismatch_issues}
use sth_boring.Plan.Finalizer.{
  Options, bind_snapshot, bind_record, bind_refs, bind_metadata, plan_metadata, finalize,
  draft_metadata,
}
use sth_boring.Capability.Models.{CapabilitySnapshot, CapabilityResolutionRecord}

get-put :
    (k j : String) (v : Value) (fs : Fields)
    → Json.get j (Json.put k v fs) ≡ (if k == j then some v else Json.get j fs)
unfolding Json.get Json.put
get-put k j v no_fields = refl
get-put k j v (entry i w fs) = ground (arith, eq_iff k j, eq_iff i k, eq_iff i j, get-put k j v fs)

-- An update with fields that lack a key leaves what the key has.
get-update :
    (k : String) (fs gs : Fields)
    → Json.get k gs ≡ none
    → Json.get k (Json.update fs gs) ≡ Json.get k fs
unfolding Json.get Json.update
get-update k fs no_fields h = refl
get-update k fs (entry j v gs) h = elim (Bool-cases (j == k)) [
  | inl e ↦ absurd (ground arith)
  | inr e ↦
      let lacks : Json.get k gs ≡ none = ground arith in
      get-update k (Json.put j v fs) gs lacks ∙ get-put j k v fs ∙ rw e refl
]

-- The extra metadata of a call does not have the key.
abbrev pub Lacks : String → Option Fields → Type 0
Lacks k none = Unit
Lacks k (some metadata) = Json.get k metadata ≡ none

get-bind_metadata :
    (k : String) (metadata : Option Fields) (fs : Fields)
    → Lacks k metadata
    → Json.get k (bind_metadata metadata fs) ≡ Json.get k fs
get-bind_metadata k none fs h = refl
get-bind_metadata k (some gs) fs h = get-update k fs gs h

get-bind_refs :
    (refs : Option (Dict String)) (fs : Fields)
    → Json.get "capability_digest" (bind_refs refs fs) ≡ Json.get "capability_digest" fs
get-bind_refs none fs = refl
get-bind_refs (some []) fs = refl
get-bind_refs (some (e ∷ refs)) fs = get-put "artifact_refs" "capability_digest" _ fs

get-bind_record :
    (r : Option CapabilityResolutionRecord) (fs : Fields)
    → Json.get "capability_digest" (bind_record r fs) ≡ Json.get "capability_digest" fs
get-bind_record none fs = refl
get-bind_record (some r) fs = get-put "capability_resolution_record_id" "capability_digest" _ fs

plan_metadata-digest :
    (d : ExecutionPlanDraft) (options : Options) (s : CapabilitySnapshot)
    → options.capability_snapshot ≡ some s
    → Lacks "capability_digest" options.metadata
    → Json.get "capability_digest" (plan_metadata d options) ≡ some (Value.str s.capability_digest)
unfolding plan_metadata draft_metadata
plan_metadata-digest d options s h lacks =
    get-bind_metadata "capability_digest" options.metadata _ lacks
    ∙ get-bind_refs options.artifact_refs _
    ∙ get-bind_record options.capability_resolution_record _
    ∙ ap (λ o. Json.get "capability_digest" (bind_snapshot o (draft_metadata d))) h
    ∙ get-put "capability_digest" "capability_digest" _ _

-- A plan that is finalized with a snapshot whose digest is not empty passes the digest check of every
-- validator for that snapshot, if the extra metadata of the call has no `capability_digest` of its
-- own.
pub finalize-digest :
    (v : PlanValidator) (d : ExecutionPlanDraft) (options : Options) (s : CapabilitySnapshot)
    (plan_id : String) (created_at : ℕ)
    → options.capability_snapshot ≡ some s
    → Lacks "capability_digest" options.metadata
    → (s.capability_digest == "") ≡ false
    → validate_capability_digest v (finalize d options plan_id created_at).plan_metadata s ≡ []
unfolding validate_capability_digest finalize digest_mismatch_issues Json.equals
finalize-digest v d options s plan_id created_at h lacks given =
    rw (plan_metadata-digest d options s h lacks, given, eq_refl s.capability_digest) refl
