-- ===== src/CmdCtrl/Examples.antt =====
-- A sandbox that counts its commands, and the theorems at it.

use sth_boring.Base.{
  ℕ, ◌+◌, String, true, false, none, some, List, [], ◌∷◌, any, contains, same_texts, ok, raise, ◌≡◌,
  refl, ◌⊎◌,
}
use sth_boring.Json.{Value, no_fields}
use sth_boring.CmdCtrl.Errors.{policy_violation, is_command_control_error}
use sth_boring.CmdCtrl.Paths.{
  split, add_component, normal_components, join_reversed, starts_with, leading, or_dot, clean_path,
  normpath, strip_slashes, validate_relative_path,
}
use sth_boring.CmdCtrl.Paths.Inside.{within, validate_relative_path-within}
use sth_boring.CmdCtrl.Policies.{
  validate_argv, validate_form, validate_action, default_binaries, is_infix, join,
}
use sth_boring.CmdCtrl.Policies.Inspection.{IsInspection, validate_argv-IsInspection}
use sth_boring.CmdCtrl.Sandbox.{ExecResult, Sandbox}
use sth_boring.CmdCtrl.Operators.{Payload}
use sth_boring.CmdCtrl.Operators.Guarding.{IsScreened}
use sth_boring.CmdCtrl.Controller.{
  CommandController, execute_action, try_action, check_action, translate,
}
use sth_boring.CmdCtrl.Controller.Safety.{
  IsPermitted, inspecting, execute_action-raises, execute_action-IsPermitted,
  execute_action-IsScreened,
}

abbrev done : ExecResult
done = record {
  exit_code = none;
  stdout = [];
  stderr = [];
  combined = [];
  duration_sec = Value.null;
  timed_out = Value.bool false;
  meta = no_fields;
}

abbrev counting : Sandbox ℕ
counting = record {
  create = λ n. (ok Value.null, n);
  prepare_image = λ n. (ok Value.null, n);
  start = λ n. (ok Value.null, n);
  stop = λ n. (ok Value.null, n);
  destroy = λ n. (ok Value.null, n);
  snapshot = λ n. (ok Value.null, n);
  exec = λ _ _ n. (ok done, n + 1);
  run_pip = λ _ n. (ok done, n + 1);
  run_python = λ _ n. (ok done, n + 1);
  run_pytest = λ _ _ n. (ok done, n + 1);
  put_text = λ _ _ n. (ok tt, n + 1);
  get_archive = λ _ n. (ok ([], no_fields), n + 1);
}

abbrev command : List String → Payload
command argv = record {
  argv = some argv;
  workdir = none;
  timeout_sec = none;
  mode = none;
  path = none;
  content = none;
  targets = none;
  extra_args = none;
}

abbrev decode : List ℕ → String
decode bytes = "text"

abbrev controller : CommandController ℕ
controller = record {
  sandbox = counting;
  operators = inspecting decode default_binaries;
  action_policy = some ("inspect_exec" ∷ []);
  has_path_policy = true;
}

path_stays : validate_relative_path "a/../b/./c" ≡ ok tt
unfolding validate_relative_path normpath clean_path or_dot leading starts_with split
    normal_components add_component join_reversed strip_slashes
path_stays = refl

path_escapes : validate_relative_path "a/../../b" ≡ raise (policy_violation "path escapes workdir")
unfolding validate_relative_path normpath clean_path or_dot leading starts_with split
    normal_components add_component join_reversed strip_slashes
path_escapes = refl

absolute_path : validate_relative_path "/etc/passwd" ≡ ok tt
unfolding validate_relative_path normpath clean_path or_dot leading starts_with split
    normal_components add_component join_reversed strip_slashes
absolute_path = refl

no_slash : starts_with "/" "a/../b/./c" ≡ false
unfolding starts_with
no_slash = refl

validate_relative_path-within_example : within 0 (split "a/../b/./c") ≡ true
validate_relative_path-within_example =
    validate_relative_path-within "a/../b/./c" no_slash path_stays

list_accepted : validate_argv default_binaries ("pip" ∷ "list" ∷ []) ≡ ok tt
unfolding validate_argv validate_form contains any is_infix join starts_with same_texts
list_accepted = refl

validate_argv-IsInspection_example : IsInspection default_binaries "pip" ("list" ∷ [])
validate_argv-IsInspection_example =
    validate_argv-IsInspection default_binaries "pip" ("list" ∷ []) list_accepted

-- The screen lets options through that delete.
deletion_accepted : validate_argv default_binaries ("find" ∷ "." ∷ "-delete" ∷ []) ≡ ok tt
unfolding validate_argv validate_form contains any is_infix join starts_with same_texts
deletion_accepted = refl

unknown_action :
    (execute_action controller "inspect_exec2" (command []) 0).0
    ≡ raise (policy_violation "action not allowed: inspect_exec2")
unfolding execute_action try_action check_action validate_action translate contains
unknown_action = refl

execute_action-raises_example :
    is_command_control_error (policy_violation "action not allowed: inspect_exec2") ≡ true
execute_action-raises_example =
    execute_action-raises controller "inspect_exec2" (command []) 0
      (policy_violation "action not allowed: inspect_exec2") unknown_action

execute_action-IsPermitted_example :
    ((execute_action controller "inspect_exec" (command ("ls" ∷ [])) 0).1 ≡ 0)
    ⊎ ((p : IsPermitted controller "inspect_exec" (command ("ls" ∷ []))) × ((execute_action
            controller "inspect_exec"
            (command ("ls" ∷ []))
            0).1
          ≡ (p.operator counting (command ("ls" ∷ [])) 0).1))
execute_action-IsPermitted_example =
    execute_action-IsPermitted controller "inspect_exec" (command ("ls" ∷ [])) 0

execute_action-IsScreened_example :
    ((execute_action controller "inspect_exec" (command ("ls" ∷ [])) 0).1 ≡ 0)
    ⊎ IsScreened default_binaries ("ls" ∷ [])
execute_action-IsScreened_example =
    execute_action-IsScreened decode default_binaries controller "inspect_exec"
      (command ("ls" ∷ [])) 0 refl
