-- ===== src/CmdCtrl/Operators/Guarding.antt =====
-- What the operators inspect_exec and guarded_exec, the latter with the default guard, of
-- src/sdk_test_agent/cmd_ctrl/operator.py do to the sandbox.

use sth_boring.Base.{
  ℕ, String, List, [], ◌∷◌, or_default, or_text, Result, ok, raise, Exception, ◌≡◌, refl, arith,
  ◌⊎◌, inl, inr,
}
use sth_boring.CmdCtrl.Errors.{guard_escalation_required}
use sth_boring.CmdCtrl.Policies.{validate_argv, default_guard}
use sth_boring.CmdCtrl.Policies.Inspection.{IsInspection, validate_argv-IsInspection}
use sth_boring.CmdCtrl.Sandbox.{Sandbox}
use sth_boring.CmdCtrl.Operators.{Payload, inspect_exec, guarded_exec}

-- A command line that passes the screen of the policy: its binary is listed and not interactive, none
-- of its words is denied, and a binary that can run scripts stands in one of the allowed forms. What
-- the other binaries do with their options (`find . -delete`) is not screened.
abbrev pub IsScreened : List String → List String → Type 0
IsScreened allowed argv =
    (bin : String) × (args : List String) × (argv ≡ bin ∷ args) × IsInspection allowed bin args

validate_argv-IsScreened :
    (allowed argv : List String) → validate_argv allowed argv ≡ ok tt → IsScreened allowed argv
unfolding validate_argv
validate_argv-IsScreened allowed [] h = absurd (ground arith)
validate_argv-IsScreened allowed (bin ∷ args) h =
    (bin, args, refl, validate_argv-IsInspection allowed bin args h)

pub Result-cases : (r : Result (Unit {0})) → (r ≡ ok tt) ⊎ ((e : Exception) × (r ≡ raise e))
Result-cases (ok tt) = inl refl
Result-cases (raise e) = inr (e, refl)

module _ {W : Type 0} (decode : List ℕ → String) (sandbox : Sandbox W) (payload : Payload)
    (w : W) where
  -- The inspecting operator leaves the sandbox as it is, unless the command line passes the screen.
  pub inspect_exec-IsScreened :
      (allowed : List String)
      → ((inspect_exec decode allowed sandbox payload w).1 ≡ w)
        ⊎ IsScreened allowed (or_default [] payload.argv)
  unfolding inspect_exec
  inspect_exec-IsScreened allowed =
      elim (Result-cases (validate_argv allowed (or_default [] payload.argv))) [
        | inl accepted ↦ inr (validate_argv-IsScreened allowed _ accepted)
        | inr (e, refused) ↦ inl (rw refused refl)
      ]

  -- With the guard that is used by default every command line is escalated and none is run.
  pub guarded_exec-default_guard :
      guarded_exec decode (λ argv _. default_guard argv) sandbox payload w
      ≡ (raise (guard_escalation_required "no concrete guard policy configured"), w)
  unfolding guarded_exec or_text
  guarded_exec-default_guard = refl
