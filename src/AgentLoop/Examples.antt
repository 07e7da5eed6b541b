-- ===== src/AgentLoop/Examples.antt =====
-- A loop whose nodes only count their visits, and the theorems at it.

use sth_boring.Base.{ℕ, ◌+◌, String, true, [], ◌∷◌, contains, Result, ok, raise, ◌≡◌, refl, All}
use sth_boring.Base.Effects.{Action}
use sth_boring.Json
use sth_boring.Json.{Value, Fields, no_fields, entry}
use sth_boring.AgentLoop.Preflight.{all_errors, run_preflight}
use sth_boring.AgentLoop.Preflight.Coverage.{IsRunnable, run_preflight-IsRunnable}
use sth_boring.AgentLoop.Nodes.{skill_select_node, report_node, fail_node}
use sth_boring.AgentLoop.Graph.{
  Node, interaction_decision, validate, preflight, task_check, skill_select, report, fail, step,
  steps, after_preflight, after_validate, after_interaction, run_agent_loop_once,
  route_after_interaction_decision, route_after_validate, route_after_preflight,
  route_after_task_check,
}
use sth_boring.AgentLoop.Graph.Pass.{Pass}
use sth_boring.AgentLoop.Graph.Once.{run_agent_loop_once-Pass}
use sth_boring.Plan.Examples.{two_commands}

abbrev says : String → String → Value → Fields
says key name v = entry key (Value.obj (entry name v no_fields)) no_fields

abbrev update_of : Node → Fields → Result Fields
update_of interaction_decision s = ok (says "interaction_decision" "mode" (Value.str "PLAN"))
update_of skill_select s = skill_select_node s
update_of validate s = ok (says "validation_result" "status" (Value.str "passed"))
update_of preflight s = ok (says "preflight_result" "passed" (Value.bool true))
update_of task_check s = ok (says "task_check_decision" "route" (Value.str "end"))
update_of report s = report_node s
update_of fail s = fail_node s
update_of _ s = ok no_fields

abbrev counting : Node → Fields → Action ℕ Fields
counting n s w = (update_of n s, w + 1)

abbrev fields_of : Result Fields → Fields
fields_of (ok s) = s
fields_of (raise e) = no_fields

abbrev final : Fields
final = fields_of (run_agent_loop_once counting no_fields 0).0

-- Eleven nodes are visited.
one_pass : run_agent_loop_once counting no_fields 0 ≡ (ok final, 11)
unfolding run_agent_loop_once step steps after_interaction after_validate after_preflight
    route_after_interaction_decision route_after_validate route_after_preflight
    route_after_task_check skill_select_node report_node Json.get Json.put Json.update
one_pass = refl

run_agent_loop_once-Pass_example : Pass counting interaction_decision no_fields 0 final 11
run_agent_loop_once-Pass_example = run_agent_loop_once-Pass counting no_fields final 0 11 one_pass

all_found :
    run_preflight ("run_command" ∷ []) [] two_commands.steps
    ≡ ok (record { passed = true; errors = []; warnings = [] })
unfolding run_preflight all_errors Json.get contains
all_found = refl

run_preflight-IsRunnable_example : All (IsRunnable ("run_command" ∷ []) []) two_commands.steps
run_preflight-IsRunnable_example =
    run_preflight-IsRunnable ("run_command" ∷ []) [] two_commands.steps
      (record { passed = true; errors = []; warnings = [] }) all_found refl
