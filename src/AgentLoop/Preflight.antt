-- ===== src/AgentLoop/Preflight.antt =====
-- src/sdk_test_agent/agent_loop/preflight.py, of a plan whose steps are records. The operators are the
-- keys of the dispatcher of the command controller, or none.
pub mod Coverage
use Prim.Native.String
use sth_boring.Base.{
  String, ◌<>◌, ◌==◌, Bool, true, false, not, Option, none, some, List, [], ◌∷◌, ◌++◌,
  if◌then◌else◌, contains, is_nil, Result, ok, raise, Exception,
}
use sth_boring.Json
use sth_boring.Json.{Value, Fields}
use sth_boring.Plan.Models.{PlanStep}

-- An error is the text made of a kind or of an action, which can be any value.
pub data PreflightError : Type 0 where
  no_executor : String → PreflightError
  unknown_action : Value → PreflightError

pub record PreflightResult : Type 0 where
  pub passed : Bool
  pub errors : List PreflightError
  pub warnings : List String

-- `if action not in operators`: a list or a dict cannot be looked up.
abbrev pub lookup_errors : List String → Option Value → Result (List PreflightError)
lookup_errors operators none = ok []
lookup_errors operators (some Value.null) = ok []
lookup_errors operators (some (Value.str a)) =
    if contains a operators then ok [] else ok (unknown_action (Value.str a) ∷ [])
lookup_errors operators (some (Value.arr vs)) =
    raise (record { class_name = "TypeError"; message = "unhashable type: 'list'" })
lookup_errors operators (some (Value.obj fs)) =
    raise (record { class_name = "TypeError"; message = "unhashable type: 'dict'" })
lookup_errors operators (some v) = ok (unknown_action v ∷ [])

abbrev pub action_errors : List String → PlanStep → Result (List PreflightError)
action_errors operators step =
    if step.kind == "run_command"
    then lookup_errors operators (Json.get "action" step.inputs)
    else ok []

abbrev pub kind_errors : List String → PlanStep → List PreflightError
kind_errors supported step = if contains step.kind supported then [] else no_executor step.kind ∷ []

abbrev pub join_errors :
    List PreflightError
    → Result (List PreflightError)
    → Result (List PreflightError)
    → Result (List PreflightError)
join_errors here (raise e) rest = raise e
join_errors here (ok more) (raise e) = raise e
join_errors here (ok more) (ok others) = ok (here ++ (more ++ others))

unfoldable pub all_errors : List String → List String → List PlanStep → Result (List PreflightError)
all_errors supported operators [] = ok []
all_errors supported operators (step ∷ steps) =
    join_errors (kind_errors supported step) (action_errors operators step)
      (all_errors supported operators steps)

abbrev pub preflight_result : Result (List PreflightError) → Result PreflightResult
preflight_result (raise e) = raise e
preflight_result (ok errors) =
    ok (record { passed = is_nil errors; errors = errors; warnings = [] })

-- `run_preflight`, of the kinds that have executors
unfoldable pub run_preflight : List String → List String → List PlanStep → Result PreflightResult
run_preflight supported operators steps = preflight_result (all_errors supported operators steps)
