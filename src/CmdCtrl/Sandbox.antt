-- ===== src/CmdCtrl/Sandbox.antt =====
-- What the operators of src/sdk_test_agent/cmd_ctrl/operator.py and the controller use of a sandbox
-- (src/sdk_test_agent/sandbox), as operations on an outside world that may raise.
use sth_boring.Base.{ℕ, String, Option, List}
use sth_boring.Base.Int.{ℤ}
use sth_boring.Json.{Value, Fields}
pub use sth_boring.Base.Effects.{Action, pure, throw, after, lift, and_then, ◌>>=◌, ◌>>◌}

pub record ExecSpec : Type 0 where
  pub argv : List String
  pub workdir : Option String

-- ExecResult: the streams are bytes.
pub record ExecResult : Type 0 where
  pub exit_code : Option ℤ
  pub stdout : List ℕ
  pub stderr : List ℕ
  pub combined : List ℕ
  pub duration_sec : Value
  pub timed_out : Value
  pub meta : Fields

pub record Sandbox (W : Type 0) : Type 0 where
  pub create : Action W Value
  pub prepare_image : Action W Value
  pub start : Action W Value
  pub stop : Action W Value
  pub destroy : Action W Value
  pub snapshot : Action W Value
  pub exec : ExecSpec → Option ℤ → Action W ExecResult
  pub run_pip : List String → Action W ExecResult
  pub run_python : List String → Action W ExecResult
  pub run_pytest : List String → List String → Action W ExecResult
  pub put_text : String → String → Action W (Unit {0})
  pub get_archive : String → Action W (List ℕ × Fields)
