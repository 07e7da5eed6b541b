-- ===== src/AgentLoop/TaskCheck.antt =====
-- The decision of a task checker, src/sdk_test_agent/agent_loop/task_check.py, and what it is in the
-- state of the loop. The confidence is a number.
use sth_boring.Base.{String, Option, List}
use sth_boring.Json.{Value, Fields, no_fields, entry, texts, optional}

pub record TaskCheckDecision : Type 0 where
  pub loop_level : String
  pub route : String
  pub confidence : Value
  pub reason : String
  pub evidence_refs : List String
  pub evidence_summary : Option String
  pub replan_hint : Option String
  pub input_request : Option String
  pub human_message : Option String
  pub metadata : Fields

unfoldable pub to_dict : TaskCheckDecision → Fields
to_dict d = entry "loop_level" (Value.str d.loop_level) (
    entry "route" (Value.str d.route) (
      entry "confidence" d.confidence (
        entry "reason" (Value.str d.reason) (
          entry "evidence_refs" (Value.arr (texts d.evidence_refs)) (
            entry "evidence_summary" (optional d.evidence_summary) (
              entry "replan_hint" (optional d.replan_hint) (
                entry "input_request" (optional d.input_request) (
                  entry "human_message" (optional d.human_message)
                    (entry "metadata" (Value.obj d.metadata) no_fields)))))))))
