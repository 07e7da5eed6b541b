-- ===== src/AgentLoop/Nodes.antt =====
-- The nodes of src/sdk_test_agent/agent_loop/nodes.py that only read and write the state, which is a
-- dict. The other nodes call the components of the runtime, and are given to the loop as they are.

use sth_boring.Base.{String, none, some, or_default, Result, ok, raise}
use sth_boring.Json
use sth_boring.Json.{Value, Fields, no_fields, entry}

abbrev attribute_error : Result Fields
attribute_error =
    raise (record { class_name = "AttributeError"; message = "object has no attribute 'get'" })

-- `state.get(key, {})`, of which an entry is read next
abbrev pub dict_at : String → Fields → Result Fields
dict_at key state = elim (Json.get key state) [
  | none ↦ ok no_fields
  | some (Value.obj fs) ↦ ok fs
  | some _ ↦ attribute_error
]

-- `d.get(key)`
abbrev pub value_at : String → Fields → Value
value_at key d = or_default Value.null (Json.get key d)

abbrev one : String → Value → Fields
one key v = entry key v no_fields

abbrev status : String → Fields → Fields
status s rest = entry "loop_status" (Value.str s) rest

abbrev respond : String → Result Fields → Result Fields
respond s (raise e) = raise e
respond s (ok decision) =
    ok (status s (one "response_content" (or_default (Value.str "") (Json.get "content" decision))))

unfoldable pub skill_select_node : Fields → Result Fields
skill_select_node state =
    ok (entry "selected_skill_ids" (Value.arr Json.no_items) (one "skill_context" (Value.str "")))

unfoldable pub report_node : Fields → Result Fields
report_node state = ok (
    status "succeeded" (
      one "report" (
        Value.obj (
          entry "plan_id" (value_at "plan_id" state) (
            entry "run_id" (value_at "run_id" state)
              (one "decision" (value_at "task_check_decision" state)))))))

unfoldable pub direct_return_node : Fields → Result Fields
direct_return_node state = respond "returned" (dict_at "interaction_decision" state)

unfoldable pub refuse_return_node : Fields → Result Fields
refuse_return_node state = respond "refused" (dict_at "interaction_decision" state)

unfoldable pub human_interrupt_node : Fields → Result Fields
human_interrupt_node state = respond "need_human" (dict_at "interaction_decision" state)

unfoldable pub fail_node : Fields → Result Fields
fail_node state = ok (status "failed" no_fields)
