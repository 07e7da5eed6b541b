-- ===== src/Execution/Recording/Totality.antt =====
-- The methods that record artifacts raise only what the encoder, the JSON writer and the artifact
-- manager raise.
use sth_boring.Base.{
  ℕ, List, String, Option, none, some, ok, raise, Result, Exception, inl, inr, ◌≡◌, refl, sym,
  subst, ◌==◌, if◌then◌else◌, Bool-cases,
}
use sth_boring.Base.Dict.{Dict}
use sth_boring.Plan.Models.{PlanStep}
use sth_boring.Execution.Models.{ExecutionStepRun, ExecutionRun, StepExecutionResult}
use sth_boring.Execution.Action.{Services, PersistRequest, EndsIn, Ends, Ends-bind, Ends-pure}
use sth_boring.Execution.Recording.{
  now, new_id, get_context, start_step_run, mark_skipped, finish_step_run,
  finish_artifact_recording, send, positional, persist_with, persist_by, persist, persist_optional,
}

-- What the artifact manager, if there is one, raises has `E`.
abbrev pub Stores :
    {W : Type 0} → (Exception → Type 0) → Option (PersistRequest → W → Result String × W) → Type 0
Stores E none = Unit
Stores {W} E (some manager) = (req : PersistRequest) (w : W) → EndsIn E (manager req w).0

-- What the encoder, the JSON writer and the artifact manager raise has `E`.
pub record RaiseOnly {W : Type 0} (E : Exception → Type 0) (services : Services W) : Type 0 where
  pub encodes : (t : String) → EndsIn E (services.encode t)
  pub writes :
      (run : ExecutionRun) (results : Dict StepExecutionResult)
      → EndsIn E (services.dumps run results)
  pub stores : Stores E services.artifact_manager

module _ {W : Type 0} (E : Exception → Type 0) (services : Services W) where
  pub now-Ends : Ends E (now services)
  now-Ends = record { at = λ s. inl (_, refl) }

  pub new_id-Ends : (prefix : String) → Ends E (new_id services prefix)
  new_id-Ends prefix = record { at = λ s. inl (_, refl) }

  pub get_context-Ends : Ends E (get_context services)
  get_context-Ends = record { at = λ s. inl (_, refl) }

  pub start_step_run-Ends :
      (step : PlanStep) (run : ExecutionRun) → Ends E (start_step_run services step run)
  unfolding start_step_run
  start_step_run-Ends step run = search (Ends-bind, Ends-pure, now-Ends, new_id-Ends)

  pub mark_skipped-Ends :
      (step : PlanStep) (run : ExecutionRun) → Ends E (mark_skipped services step run)
  unfolding mark_skipped
  mark_skipped-Ends step run = search (Ends-bind, Ends-pure, now-Ends, new_id-Ends)

  send-EndsIn :
      (manager : PersistRequest → W → Result String × W) (encoded : Result (List ℕ))
      (req : List ℕ → PersistRequest) (w : W)
      → Stores E (some manager)
      → EndsIn E encoded
      → EndsIn E (send manager encoded req w).0
  send-EndsIn manager (ok bytes) req w stores h = stores (req bytes) w
  send-EndsIn manager (raise x) req w stores (inl (a, e)) = absurd cc
  send-EndsIn manager (raise x) req w stores (inr (y, e, h)) =
      let same : x ≡ y = cc in inr (x, refl, subst E (sym same) h)

  persist_with-EndsIn :
      (manager : PersistRequest → W → Result String × W) (encoded : Result (List ℕ))
      (req : List ℕ → PersistRequest) (w : W)
      → Stores E (some manager)
      → EndsIn E encoded
      → EndsIn E (persist_with manager encoded req w).0
  unfolding persist_with
  persist_with-EndsIn manager encoded req w stores h =
      sent _ _ (send-EndsIn manager encoded req w stores h)
    where
      sent :
          (reply : Result String) (w : W)
          → EndsIn E reply
          → EndsIn E
              (elim reply as (λ _. Result String × W) [
                | ok ref ↦ (ok ref, w)
                | raise exc ↦
                    if exc.class_name == "TypeError"
                    then send manager encoded (λ bytes. positional (req bytes)) w
                    else (raise exc, w)
              ]).0
      sent (ok ref) w k = inl (ref, refl)
      sent (raise exc) w k = elim (Bool-cases (exc.class_name == "TypeError")) [
        | inl again ↦
            rw again (send-EndsIn manager encoded (λ bytes. positional (req bytes)) w stores h)
        | inr other ↦ rw other k
      ]

  persist_by-Ends :
      (manager : Option (PersistRequest → W → Result String × W)) (name : String)
      (encoded : Result (List ℕ)) (req : List ℕ → PersistRequest)
      → Stores E manager
      → EndsIn E encoded
      → Ends E (persist_by services manager name encoded req)
  unfolding persist_by
  persist_by-Ends none name encoded req stores h = Ends-pure none
  persist_by-Ends (some manager) name encoded req stores h =
      Ends-bind _ _ (record { at = λ s. persist_with-EndsIn manager encoded req s.world stores h })
        (λ ref. record { at = λ s. inl (_, refl) })

  module _ (only : RaiseOnly E services) where
    persist-Ends :
        (kind name content mime_type : String)
        → Ends E (persist services kind name content mime_type)
    unfolding persist
    persist-Ends kind name content mime_type = Ends-bind _ _ get_context-Ends (λ context.
        persist_by-Ends services.artifact_manager name (services.encode content) _ only.stores
          (only.encodes content))

    persist_optional-Ends :
        (kind name : String) (t : Option String) → Ends E (persist_optional services kind name t)
    unfolding persist_optional
    persist_optional-Ends kind name none = Ends-pure none
    persist_optional-Ends kind name (some t) = persist-Ends kind name _ _

    pub finish_step_run-Ends :
        (sr : ExecutionStepRun) (r : StepExecutionResult) → Ends E (finish_step_run services sr r)
    unfolding finish_step_run
    finish_step_run-Ends sr r =
        search (Ends-bind, Ends-pure, now-Ends, persist_optional-Ends) depth 10

    pub finish_artifact_recording-Ends :
        (run : ExecutionRun) (results : Dict StepExecutionResult)
        → Ends E (finish_artifact_recording services run results)
    unfolding finish_artifact_recording
    finish_artifact_recording-Ends run results =
        Ends-bind _ _ (record { at = λ s. only.writes run results })
          λ payload. Ends-bind _ _ (persist-Ends _ _ _ _) λ ref. Ends-pure _
