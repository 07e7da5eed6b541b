-- ===== src/CmdCtrl/Operators.antt =====
-- src/sdk_test_agent/cmd_ctrl/operator.py: an operator is a function of the sandbox and the payload.
-- `decode`, which reads bytes as UTF-8 with replacement, is an argument.
pub mod Guarding
use Prim.Native.Char.{code}
use Prim.Native.String
use sth_boring.Base.{
  ℕ, ◌+◌, String, ◌<>◌, ◌==◌, Bool, true, false, Option, none, some, List, [], ◌∷◌, if◌then◌else◌,
  ltb, length, is_nil, or_default, or_text, Result, ok, raise, Exception,
}
use sth_boring.Base.Dict.{Dict}
use sth_boring.Base.Int.{ℤ}
use sth_boring.Json.{Value, Fields}
use sth_boring.CmdCtrl.Errors.{guard_denied, guard_escalation_required}
use sth_boring.CmdCtrl.Policies.{validate_argv, GuardDecision}
use sth_boring.CmdCtrl.Sandbox.{
  Action, pure, throw, lift, ◌>>=◌, ◌>>◌, ExecSpec, ExecResult, Sandbox,
}

-- The entries of a payload that the operators read, with the types that they are used at.
pub record Payload : Type 0 where
  pub argv : Option (List String)
  pub workdir : Option String
  pub timeout_sec : Option ℤ
  pub mode : Option String
  pub path : Option String
  pub content : Option String
  pub targets : Option (List String)
  pub extra_args : Option (List String)

pub record ExecOutput : Type 0 where
  pub exit_code : Option ℤ
  pub stdout : Option String
  pub stderr : Option String
  pub combined : Option String
  pub duration_sec : Value
  pub timed_out : Value
  pub meta : Fields

-- What an operator returns.
pub data Output : Type 0 where
  executed : ExecOutput → Output
  written : (path : String) (bytes : ℕ) → Output
  collected : (path : String) (size : ℕ) (stat : Fields) (archive : List ℕ) → Output

abbrev pub Operator : Type 0 → Type 0
Operator W = Sandbox W → Payload → Action W Output

-- `_payload_to_exec_spec`
abbrev pub payload_to_exec_spec : Payload → ExecSpec
payload_to_exec_spec p = record { argv = or_default [] p.argv; workdir = p.workdir }

-- `payload[key]`
abbrev required : String → Option String → Result String
required key none = raise (record { class_name = "KeyError"; message = "'" <> key <> "'" })
required key (some s) = ok s

-- The bytes of a character in UTF-8.
abbrev char_bytes : ℕ → ℕ
char_bytes c = if ltb c 0x80 then 1 else if ltb c 0x800 then 2 else if ltb c 0x10000 then 3 else 4

-- `len(content.encode("utf-8"))`
unfoldable pub utf8_length : String → ℕ
utf8_length String.[] = 0
utf8_length (String.◌∷◌ c s) = char_bytes (code c) + utf8_length s

module _ (decode : List ℕ → String) where
  abbrev decoded : List ℕ → Option String
  decoded bytes = if is_nil bytes then none else some (decode bytes)

  -- `_exec_to_dict`
  unfoldable pub exec_to_dict : ExecResult → Output
  exec_to_dict r = executed (record {
    exit_code = r.exit_code;
    stdout = decoded r.stdout;
    stderr = decoded r.stderr;
    combined = decoded r.combined;
    duration_sec = r.duration_sec;
    timed_out = r.timed_out;
    meta = r.meta;
  })

module _ {W : Type 0} (decode : List ℕ → String) where
  -- `return self._exec_to_dict(result)`, of a call that gives a result
  abbrev pub reported : Action W ExecResult → Action W Output
  reported m = m >>= λ r. pure (exec_to_dict decode r)

  unfoldable pub install_sdk : Operator W
  install_sdk sandbox payload =
      let mode = or_default "editable" payload.mode in
      if mode == "editable"
      then reported (sandbox.run_pip ("install" ∷ "-e" ∷ or_default "." payload.path ∷ []))
      else if mode == "requirements"
      then reported
          (sandbox.run_pip ("install" ∷ "-r" ∷ or_default "requirements.txt" payload.path ∷ []))
      else if mode == "wheel"
      then reported (sandbox.run_pip ("install" ∷ or_default "package.whl" payload.path ∷ []))
      else throw
          (record { class_name = "ValueError"; message = "unsupported install mode: " <> mode })

  unfoldable pub write_file : Operator W
  write_file sandbox payload = do
    path ← lift (required "path" payload.path)
    content ← lift (required "content" payload.content)
    sandbox.put_text path content
    pure (written path (utf8_length content))

  unfoldable pub run_python : Operator W
  run_python sandbox payload = reported (sandbox.run_python (or_default [] payload.argv))

  unfoldable pub run_pytest : Operator W
  run_pytest sandbox payload =
      reported
        (sandbox.run_pytest (or_default [] payload.targets) (or_default [] payload.extra_args))

  unfoldable pub collect_artifacts : Operator W
  collect_artifacts sandbox payload =
      let path = or_default "." payload.path in
      do
        archive ← sandbox.get_archive path
        pure (collected path (length archive.0) archive.1 archive.0)

  -- InspectExecOperator, of the binaries that its policy allows
  unfoldable pub inspect_exec : List String → Operator W
  inspect_exec allowed sandbox payload =
      let spec = payload_to_exec_spec payload in
      do lift (validate_argv allowed spec.argv); reported (sandbox.exec spec payload.timeout_sec)

  -- GuardedExecOperator, of its guard, which sees the command line and the payload
  unfoldable pub guarded_exec : (List String → Payload → GuardDecision) → Operator W
  guarded_exec guard sandbox payload =
      let spec = payload_to_exec_spec payload in
      let decision = guard spec.argv payload in
      if decision.decision == "deny"
      then throw (guard_denied (or_text decision.reason "guard denied execution"))
      else if decision.decision == "escalate"
      then throw (guard_escalation_required (or_text decision.reason "guard escalation required"))
      else reported (sandbox.exec spec payload.timeout_sec)
