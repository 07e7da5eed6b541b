-- ===== src/AgentLoop/Interaction/Examples.antt =====
-- Two answers of a model, and the theorems at them.
use sth_boring.Base.{
  ℕ, String, none, some, Result, ok, raise, Exception, ◌≡◌, refl, contains, strip, select,
}
use sth_boring.Base.Effects.{Action}
use sth_boring.Base.Int.{pos}
use sth_boring.Json
use sth_boring.Json.{Value, Fields, no_fields, entry}
use sth_boring.AgentLoop.Interaction.{
  InteractionDecisionRequest, InteractionDecision, LlmResponse, decide, interpret,
  parse_json_object, from_payload, validate, validation_error,
}
use sth_boring.AgentLoop.Interaction.Contract.{Contract, decide-Contract}
use sth_boring.AgentLoop.Interaction.Errors.{IsExpected, decide-IsExpected}

abbrev request : InteractionDecisionRequest
request = record {
  raw_user_input = "deploy the package";
  task_id = none;
  session_id = none;
  user_id = none;
  conversation_summary = none;
  system_capability_summary = none;
  metadata = no_fields;
}

abbrev payload : Value → Fields
payload goal = entry "mode" (Value.str "PLAN") (
    entry "content" (Value.str "") (
      entry "confidence" (Value.float (pos 3) 2) (
        entry "reason" (Value.str "a deployment")
          (entry "normalized_goal" goal (entry "metadata" (Value.obj no_fields) no_fields)))))

abbrev answer : Value → LlmResponse
answer goal = record { content = ""; parsed_json = some (payload goal) }

abbrev complete : Value → InteractionDecisionRequest → Action ℕ LlmResponse
complete goal _ w = (ok (answer goal), w)

abbrev loads : String → Result Value
loads s = raise (record { class_name = "JSONDecodeError"; message = "no JSON" })

abbrev repr : Value → String
repr v = "?"

abbrev planned : InteractionDecision
planned = record {
  mode = Value.str "PLAN";
  content = Value.str "";
  confidence = Value.float (pos 3) 2;
  reason = Value.str "a deployment";
  normalized_goal = Value.str "deploy";
  metadata = Value.obj no_fields;
}

decided : (decide (complete (Value.str "deploy")) loads repr request 0).0 ≡ ok planned
unfolding decide interpret parse_json_object from_payload validate Json.get contains strip select
decided = refl

decide-Contract_example : Contract planned
decide-Contract_example =
    decide-Contract (complete (Value.str "deploy")) loads repr request 0 planned decided

abbrev no_goal : Exception
no_goal = validation_error "PLAN requires a non-empty normalized_goal"

refused : (decide (complete Value.null) loads repr request 0).0 ≡ raise no_goal
unfolding decide interpret parse_json_object from_payload validate Json.get contains strip select
refused = refl

decide-IsExpected_example : IsExpected (parse_json_object loads (answer Value.null)) no_goal
decide-IsExpected_example =
    decide-IsExpected (complete Value.null) loads repr request 0 (answer Value.null) no_goal refl
      refused
