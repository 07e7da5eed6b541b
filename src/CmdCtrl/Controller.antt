-- ===== src/CmdCtrl/Controller.antt =====
-- src/sdk_test_agent/cmd_ctrl/dispatcher.py and controller.py.
pub mod Safety
use sth_boring.Base.{
  ℕ, String, ◌<>◌, ◌==◌, Bool, true, false, ◌&&◌, ◌||◌, Option, none, some, List, [], ◌∷◌,
  if◌then◌else◌, contains, or_default, Result, ok, raise, Exception,
}
use sth_boring.Base.Dict
use sth_boring.Base.Dict.{Dict}
use sth_boring.Json.{Value}
use sth_boring.CmdCtrl.Errors.{action_dispatch, operator_execution, is_command_control_error}
use sth_boring.CmdCtrl.Paths.{validate_relative_path}
use sth_boring.CmdCtrl.Policies.{validate_action}
use sth_boring.CmdCtrl.Sandbox.{Action, pure, throw, after, ◌>>=◌, ◌>>◌, Sandbox}
use sth_boring.CmdCtrl.Operators.{Payload, Output, Operator}

abbrev run_found :
    {W : Type 0} → Option (Operator W) → String → Payload → Sandbox W → Action W Output
run_found none action payload sandbox = throw (action_dispatch ("unknown action: " <> action))
run_found (some op) action payload sandbox = op sandbox payload

-- ActionDispatcher.dispatch, of the table of operators
unfoldable pub dispatch :
    {W : Type 0} → Dict (Operator W) → String → Payload → Sandbox W → Action W Output
dispatch operators action payload sandbox =
    run_found (Dict.get action operators) action payload sandbox

-- The fields of CommandController: of the policies, the set of allowed actions, and whether there is a
-- path policy.
pub record CommandController (W : Type 0) : Type 0 where
  pub sandbox : Sandbox W
  pub operators : Dict (Operator W)
  pub action_policy : Option (List String)
  pub has_path_policy : Bool

-- ActionResponse of an action that did not fail
pub record ActionResponse : Type 0 where
  pub action : String
  pub output : Output

unfoldable pub check_action : Option (List String) → String → Result (Unit {0})
check_action none action = ok tt
check_action (some allowed) action = validate_action allowed action

abbrev pub has_path : String → Bool
has_path action = contains action ("write_file" ∷ "collect_artifacts" ∷ [])

unfoldable pub check_path : Bool → String → Payload → Result (Unit {0})
check_path has_policy action payload =
    if has_policy && has_path action
    then validate_relative_path (or_default "" payload.path)
    else ok tt

-- The `except` clauses of `execute_action`
unfoldable pub translate : String → Exception → Exception
translate action e =
    if is_command_control_error e
    then e
    else operator_execution ("action=" <> action <> " failed: " <> e.message)

module _ {W : Type 0} (c : CommandController W) where
  -- The body of the `try`
  unfoldable pub try_action : String → Payload → Action W Output
  try_action action payload = after (check_action c.action_policy action) (
      after (check_path c.has_path_policy action payload)
        (dispatch c.operators action payload c.sandbox))

  abbrev respond : String → Result Output → Result ActionResponse
  respond action (ok output) = ok (record { action = action; output = output })
  respond action (raise e) = raise (translate action e)

  unfoldable pub execute_action : String → Payload → Action W ActionResponse
  execute_action action payload w =
      let (r, w') = try_action action payload w in (respond action r, w')

  pub open_session : Action W (Value × Value × Value)
  open_session = do
    created ← c.sandbox.create
    image_id ← c.sandbox.prepare_image
    started ← c.sandbox.start
    pure (created, image_id, started)

  -- `{"closed": True, "snapshot": ...}`: the snapshot
  pub close_session : Action W Value
  close_session = do c.sandbox.stop; c.sandbox.destroy; c.sandbox.snapshot
