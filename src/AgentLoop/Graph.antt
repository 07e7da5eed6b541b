-- ===== src/AgentLoop/Graph.antt =====
-- src/sdk_test_agent/agent_loop/graph_builder.py: the routes, the edges of the graph, and the loop that
-- goes through the graph once. A node is a function of its name.
pub mod Pass
pub mod Once
use Prim.Native.String
use sth_boring.Base.{
  String, ◌==◌, Bool, true, false, ◌||◌, Option, none, some, List, [], ◌∷◌, if◌then◌else◌, Result,
  ok, raise, Exception,
}
use sth_boring.Base.Effects.{Action, pure, throw, and_then, lift, ◌>>=◌}
use sth_boring.Json
use sth_boring.Json.{Value, Fields}
use sth_boring.AgentLoop.Nodes.{dict_at, value_at}

pub data Node : Type 0 where
  interaction_decision env_init capability_resolve skill_select plan finalize validate : Node
  preflight execute task_check replan_context report direct_return refuse_return fail : Node
  human_interrupt : Node

abbrev pub is_text : String → Value → Bool
is_text s (Value.str t) = t == s
is_text s _ = false

abbrev is_true : Value → Bool
is_true (Value.bool b) = b
is_true _ = false

abbrev map_ok : (Fields → Node) → Result Fields → Result Node
map_ok f (ok d) = ok (f d)
map_ok f (raise e) = raise e

-- A list or a dict cannot be looked up in the dict of routes.
abbrev unhashable : Value → Bool
unhashable (Value.arr vs) = true
unhashable (Value.obj fs) = true
unhashable _ = false

abbrev mode_route : Value → Node
mode_route mode =
    if is_text "PLAN" mode
    then env_init
    else if is_text "RETURN" mode
    then direct_return
    else if is_text "REFUSE" mode
    then refuse_return
    else if is_text "HUMAN" mode
    then human_interrupt
    else fail

abbrev hashed_route : Result Fields → Result Node
hashed_route (raise e) = raise e
hashed_route (ok decision) =
    if unhashable (value_at "mode" decision)
    then raise (record { class_name = "TypeError"; message = "unhashable type" })
    else ok (mode_route (value_at "mode" decision))

unfoldable pub route_after_interaction_decision : Fields → Result Node
route_after_interaction_decision s = hashed_route (dict_at "interaction_decision" s)

unfoldable pub route_after_validate : Fields → Result Node
route_after_validate s =
    map_ok
      (λ r.
        if is_true (value_at "passed" r) || is_text "passed" (value_at "status" r)
        then preflight
        else fail)
      (dict_at "validation_result" s)

unfoldable pub route_after_preflight : Fields → Result Node
route_after_preflight s =
    map_ok (λ r. if is_true (value_at "passed" r) then execute else fail)
      (dict_at "preflight_result" s)

unfoldable pub route_after_task_check : Fields → Result Node
route_after_task_check s =
    map_ok
      (λ d.
        if is_text "end" (value_at "route" d)
        then report
        else if is_text "replan" (value_at "route" d)
        then replan_context
        else if is_text "human_interrupt" (value_at "route" d)
        then human_interrupt
        else fail)
      (dict_at "task_check_decision" s)

-- The edges of `build_langgraph_agent_loop`; a node with none goes to END, and is its own next node
-- here.
unfoldable pub next : Node → Fields → Result Node
next interaction_decision s = route_after_interaction_decision s
next env_init s = ok capability_resolve
next capability_resolve s = ok skill_select
next skill_select s = ok plan
next plan s = ok finalize
next finalize s = ok validate
next validate s = route_after_validate s
next preflight s = route_after_preflight s
next execute s = ok task_check
next task_check s = route_after_task_check s
next replan_context s = ok capability_resolve
next report s = ok report
next direct_return s = ok direct_return
next refuse_return s = ok refuse_return
next fail s = ok fail
next human_interrupt s = ok human_interrupt

-- `{"direct_return": ..., ...}.get(route, fail_node)`, for the first route and for the last
abbrev pub first_terminal : Node → Node
first_terminal direct_return = direct_return
first_terminal refuse_return = refuse_return
first_terminal human_interrupt = human_interrupt
first_terminal _ = fail

abbrev pub last_terminal : Node → Node
last_terminal report = report
last_terminal replan_context = replan_context
last_terminal human_interrupt = human_interrupt
last_terminal _ = fail

module _ {W : Type 0} (visit : Node → Fields → Action W Fields) where
  -- `s.update(node(s, runtime_context))`
  unfoldable pub step : Node → Fields → Action W Fields
  step n s = visit n s >>= λ u. pure (Json.update s u)

  -- `for fn in (...): s.update(fn(s, runtime_context))`
  unfoldable pub steps : List Node → Fields → Action W Fields
  steps [] s = pure s
  steps (n ∷ ns) s = step n s >>= λ s'. steps ns s'

  abbrev pub finish : Fields → Node → Action W Fields
  finish s route = step (last_terminal route) s

  unfoldable pub after_preflight : Fields → Node → Action W Fields
  after_preflight s execute = do
    s' ← steps (execute ∷ task_check ∷ []) s
    route ← lift (route_after_task_check s')
    finish s' route
  after_preflight s _ = step fail s

  unfoldable pub after_validate : Fields → Node → Action W Fields
  after_validate s preflight = do
    s' ← step preflight s
    route ← lift (route_after_preflight s')
    after_preflight s' route
  after_validate s _ = step fail s

  unfoldable pub after_interaction : Fields → Node → Action W Fields
  after_interaction s env_init = do
    s' ← steps (env_init ∷ capability_resolve ∷ skill_select ∷ plan ∷ finalize ∷ validate ∷ []) s
    route ← lift (route_after_validate s')
    after_validate s' route
  after_interaction s route = step (first_terminal route) s

  unfoldable pub run_agent_loop_once : Fields → Action W Fields
  run_agent_loop_once s = do
    s' ← step interaction_decision s
    route ← lift (route_after_interaction_decision s')
    after_interaction s' route
