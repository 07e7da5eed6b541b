-- ===== src/AgentLoop/Interaction.antt =====
-- src/sdk_test_agent/agent_loop/interaction_decision.py and src/sdk_test_agent/llm/response_parser.py:
-- how a request is to be handled, as a language model decides it. The client, with the prompt that it
-- is given, and `json.loads` are arguments.
pub mod Contract
pub mod Errors
mod Examples
use sth_boring.Base.{
  String, List, [], ◌∷◌, Option, none, some, Bool, true, false, not, ◌&&◌, ◌||◌, Result, ok, raise,
  Exception, if◌then◌else◌, ◌==◌, ◌<>◌, strip, contains, join, is_none, is_nil, select,
}
use sth_boring.Base.Effects.{Action, lift, ◌>>=◌}
use sth_boring.Base.Int.{pos}
use sth_boring.Json
use sth_boring.Json.{Value, Fields, Number, number_of, number_lt}

pub record InteractionDecisionRequest : Type 0 where
  pub raw_user_input : String
  pub task_id : Option String
  pub session_id : Option String
  pub user_id : Option String
  pub conversation_summary : Option String
  pub system_capability_summary : Option String
  pub metadata : Fields

-- The values are those of the payload, of whatever type.
pub record InteractionDecision : Type 0 where
  pub mode : Value
  pub content : Value
  pub confidence : Value
  pub reason : Value
  pub normalized_goal : Value
  pub metadata : Value

-- Of the fields of the source, those that the parser reads.
pub record LlmResponse : Type 0 where
  pub content : String
  pub parsed_json : Option Fields

abbrev pub parse_error : String → Exception
parse_error message = record { class_name = "InteractionDecisionParseError"; message = message }

abbrev pub validation_error : String → Exception
validation_error message = record {
  class_name = "InteractionDecisionValidationError";
  message = message;
}

abbrev response_error : String → Exception
response_error message = record { class_name = "LlmResponseParseError"; message = message }

-- `if wrong: raise InteractionDecisionValidationError(message)`
abbrev pub refuse_if : Bool → String → Result (Unit {0})
refuse_if true message = raise (validation_error message)
refuse_if false message = ok tt

infixl 5 ◌then_check◌
abbrev pub ◌then_check◌ : Result (Unit {0}) → Result (Unit {0}) → Result (Unit {0})
(ok tt) then_check r = r
(raise e) then_check r = raise e

abbrev pub allowed_modes : List String
allowed_modes = "PLAN" ∷ "RETURN" ∷ "REFUSE" ∷ "HUMAN" ∷ []

-- The first check: only a value that can be hashed is looked up in a set. `repr` is Python's.
abbrev check_mode : (Value → String) → Value → Result (Unit {0})
check_mode repr (Value.str m) =
    refuse_if (not (contains m allowed_modes))
      ("unsupported interaction mode: " <> repr (Value.str m))
check_mode repr (Value.arr vs) =
    raise (record { class_name = "TypeError"; message = "unhashable type: 'list'" })
check_mode repr (Value.obj fs) =
    raise (record { class_name = "TypeError"; message = "unhashable type: 'dict'" })
check_mode repr v = refuse_if true ("unsupported interaction mode: " <> repr v)

abbrev is_text : Value → Bool
is_text (Value.str s) = true
is_text _ = false

-- A text that is not blank: `isinstance(v, str) and v.strip()`
abbrev pub is_filled : Value → Bool
is_filled (Value.str s) = not (strip s == "")
is_filled _ = false

-- A number that is not a bool.
abbrev pub plain_number : Value → Option Number
plain_number (Value.int n) = number_of (Value.int n)
plain_number (Value.float m k) = number_of (Value.float m k)
plain_number _ = none

abbrev pub in_unit : Number → Bool
in_unit n =
    not (number_lt n (record { mantissa = pos 0; scale = 0 }))
    && not (number_lt (record { mantissa = pos 1; scale = 0 }) n)

abbrev check_confidence : Option Number → Result (Unit {0})
check_confidence none = refuse_if true "confidence must be a number"
check_confidence (some n) = refuse_if (not (in_unit n)) "confidence must be between 0.0 and 1.0"

abbrev is_object : Value → Bool
is_object (Value.obj fs) = true
is_object _ = false

abbrev is_null : Value → Bool
is_null Value.null = true
is_null _ = false

-- `decision.mode == mode`
abbrev pub is_mode : Value → String → Bool
is_mode (Value.str m) mode = m == mode
is_mode _ mode = false

unfoldable pub validate : (Value → String) → InteractionDecision → Result (Unit {0})
validate repr decision =
    check_mode repr decision.mode
    then_check refuse_if (not (is_text decision.content)) "content must be a string"
    then_check refuse_if (not (is_filled decision.reason)) "reason must be a non-empty string"
    then_check check_confidence (plain_number decision.confidence)
    then_check refuse_if (not (is_object decision.metadata)) "metadata must be an object"
    then_check refuse_if
        (not (is_null decision.normalized_goal || is_text decision.normalized_goal))
        "normalized_goal must be a string or null"
    then_check refuse_if (is_mode decision.mode "PLAN" && not (is_filled decision.normalized_goal))
        "PLAN requires a non-empty normalized_goal"
    then_check refuse_if
        ((is_mode decision.mode "RETURN"
            || is_mode decision.mode "REFUSE"
            || is_mode decision.mode "HUMAN")
          && not (is_filled decision.content))
        (mode_text decision.mode <> " requires non-empty content")
  where
    mode_text : Value → String
    mode_text (Value.str m) = m
    mode_text v = repr v

-- `LlmJsonResponseParser.parse_json_object`; `loads` is `json.loads`, whose exception carries its text.
unfoldable pub parse_json_object : (String → Result Value) → LlmResponse → Result Fields
parse_json_object loads response = elim response.parsed_json [
  | some fields ↦ ok fields
  | none ↦ elim (loads response.content) [
    | ok (Value.obj fields) ↦ ok fields
    | ok v ↦ raise (response_error "LLM response is not a JSON object")
    | raise e ↦
        if e.class_name == "JSONDecodeError"
        then raise (response_error ("failed to parse LLM response as JSON object: " <> e.message))
        else raise e
  ]
]

abbrev required_fields : List String
required_fields = "mode" ∷ "content" ∷ "confidence" ∷ "reason" ∷ "normalized_goal" ∷ "metadata" ∷ []

-- `payload[name]`, of a name that is there
abbrev pub field_of : String → Fields → Value
field_of name payload = elim (Json.get name payload) [ none ↦ Value.null | some v ↦ v ]

-- `_from_payload`
unfoldable pub from_payload : Fields → Result InteractionDecision
from_payload payload =
    let missing = select (λ name. is_none (Json.get name payload)) required_fields in
    if not (is_nil missing)
    then raise (validation_error ("missing required fields: " <> join ", " missing))
    else ok (record {
      mode = field_of "mode" payload;
      content = field_of "content" payload;
      confidence = field_of "confidence" payload;
      reason = field_of "reason" payload;
      normalized_goal = field_of "normalized_goal" payload;
      metadata = field_of "metadata" payload;
    })

-- `except Exception as exc`, around the parser
abbrev pub as_parse_error : Result Fields → Result Fields
as_parse_error (ok fields) = ok fields
as_parse_error (raise e) =
    raise (parse_error "failed to parse interaction decision as a JSON object")

abbrev pub checked : Result (Unit {0}) → InteractionDecision → Result InteractionDecision
checked (ok tt) decision = ok decision
checked (raise e) decision = raise e

abbrev pub validated : (Value → String) → Result InteractionDecision → Result InteractionDecision
validated repr (ok decision) = checked (validate repr decision) decision
validated repr (raise e) = raise e

abbrev pub interpreted : (Value → String) → Result Fields → Result InteractionDecision
interpreted repr (ok payload) = validated repr (from_payload payload)
interpreted repr (raise e) = raise e

-- `decide`, from the response on
unfoldable pub interpret :
    (String → Result Value) → (Value → String) → LlmResponse → Result InteractionDecision
interpret loads repr response = interpreted repr (as_parse_error (parse_json_object loads response))

-- `decide`
unfoldable pub decide :
    {W : Type 0}
    → (InteractionDecisionRequest → Action W LlmResponse)
    → (String → Result Value)
    → (Value → String)
    → InteractionDecisionRequest
    → Action W InteractionDecision
decide complete loads repr request = do
  response ← complete request
  lift (interpret loads repr response)
