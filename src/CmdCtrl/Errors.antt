-- ===== src/CmdCtrl/Errors.antt =====
-- src/sdk_test_agent/cmd_ctrl/cmd_ctrl_errors.py: an exception is its class and its message.
use sth_boring.Base.{String, List, [], ◌∷◌, Bool, contains, Exception}

abbrev pub policy_violation : String → Exception
policy_violation message = record { class_name = "PolicyViolationError"; message = message }

abbrev pub action_dispatch : String → Exception
action_dispatch message = record { class_name = "ActionDispatchError"; message = message }

abbrev pub operator_execution : String → Exception
operator_execution message = record { class_name = "OperatorExecutionError"; message = message }

abbrev pub guard_denied : String → Exception
guard_denied message = record { class_name = "GuardDeniedError"; message = message }

abbrev pub guard_escalation_required : String → Exception
guard_escalation_required message = record {
  class_name = "GuardEscalationRequired";
  message = message;
}

-- CommandControlError and its subclasses
abbrev pub command_control_errors : List String
command_control_errors =
    "CommandControlError" ∷ "ActionDispatchError" ∷ "OperatorExecutionError"
    ∷ "PolicyViolationError" ∷ "GuardDeniedError" ∷ "GuardEscalationRequired" ∷ []

-- `isinstance(exc, CommandControlError)`
abbrev pub is_command_control_error : Exception → Bool
is_command_control_error e = contains e.class_name command_control_errors
