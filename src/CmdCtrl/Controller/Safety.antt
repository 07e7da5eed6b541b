-- ===== src/CmdCtrl/Controller/Safety.antt =====
-- What CommandController.execute_action (src/sdk_test_agent/cmd_ctrl/controller.py) raises, and when
-- it may touch the sandbox.

use sth_boring.Base.{
  ℕ, String, ◌==◌, true, some, List, [], ◌∷◌, contains, or_default, Result, ok, raise, Exception,
  ◌≡◌, refl, sym, arith, ◌⊎◌, inl, inr, Bool-cases, Option-cases,
}
use sth_boring.Base.Dict
use sth_boring.Base.Dict.{Dict}
use sth_boring.CmdCtrl.Errors.{is_command_control_error}
use sth_boring.CmdCtrl.Policies.{default_guard}
use sth_boring.CmdCtrl.Operators.{Payload, Output, Operator, inspect_exec, guarded_exec}
use sth_boring.CmdCtrl.Operators.Guarding.{
  IsScreened, Result-cases, inspect_exec-IsScreened, guarded_exec-default_guard,
}
use sth_boring.CmdCtrl.Controller.{
  CommandController, dispatch, check_action, check_path, translate, try_action, respond,
  execute_action,
}

translate-control_error :
    (action : String) (e : Exception) → is_command_control_error (translate action e) ≡ true
unfolding translate contains
translate-control_error action e = elim (Bool-cases (is_command_control_error e)) [
  | inl control ↦ rw control control
  | inr other ↦ rw other refl
]

respond-raises :
    {W : Type 0} (c : CommandController W) (action : String) (r : Result Output) (e : Exception)
    → respond c action r ≡ raise e
    → is_command_control_error e ≡ true
respond-raises c action (ok output) e h = absurd (ground arith)
respond-raises c action (raise x) e h =
    let same : translate action x ≡ e = ground arith in
    rw same at (translate-control_error action x)

-- What lets an action through to its operator.
pub record IsPermitted {W : Type 0} (c : CommandController W) (action : String) (payload : Payload)
    : Type 0 where
  pub operator : Operator W
  pub known : Dict.get action c.operators ≡ some operator
  pub allowed : check_action c.action_policy action ≡ ok tt
  pub inside : check_path c.has_path_policy action payload ≡ ok tt

module _ {W : Type 0} (c : CommandController W) (action : String) (payload : Payload) (w : W) where
  -- Whatever an operator raises, `execute_action` raises a CommandControlError only.
  pub execute_action-raises :
      (e : Exception)
      → (execute_action c action payload w).0 ≡ raise e
      → is_command_control_error e ≡ true
  unfolding execute_action
  execute_action-raises e h = respond-raises c action (try_action c action payload w).0 e h

  -- The sandbox is left as it is, unless the action is permitted, and then it is what the operator
  -- of the action makes of it.
  pub execute_action-IsPermitted :
      ((execute_action c action payload w).1 ≡ w)
      ⊎ ((p : IsPermitted c action payload) × ((execute_action c action payload w).1
            ≡ (p.operator c.sandbox payload w).1))
  unfolding execute_action try_action dispatch
  execute_action-IsPermitted = elim (Result-cases (check_action c.action_policy action)) [
    | inr (e, refused) ↦ inl (rw refused refl)
    | inl allowed ↦ elim (Result-cases (check_path c.has_path_policy action payload)) [
      | inr (e, escapes) ↦ inl (rw (allowed, escapes) refl)
      | inl inside ↦ elim (Option-cases (Dict.get action c.operators)) [
        | inl unknown ↦ inl (rw (allowed, inside, unknown) refl)
        | inr (op, known) ↦ inr (
          record { operator = op; known = known; allowed = allowed; inside = inside },
          rw (allowed, inside, known) refl,
        )
      ]
    ]
  ]

-- The actions of a controller without an unguarded operator: `inspect_exec`, and `guarded_exec` with the guard
-- that is used by default.
abbrev pub inspecting : {W : Type 0} → (List ℕ → String) → List String → Dict (Operator W)
inspecting decode allowed =
    ("inspect_exec", inspect_exec decode allowed)
    ∷ ("guarded_exec", guarded_exec decode (λ argv _. default_guard argv))
    ∷ []

known_operator :
    {W : Type 0} (decode : List ℕ → String) (allowed : List String) (action : String)
    (op : Operator W)
    → Dict.get action (inspecting decode allowed) ≡ some op
    → (op ≡ inspect_exec decode allowed) ⊎ (op ≡ guarded_exec decode (λ argv _. default_guard argv))
unfolding Dict.get
known_operator decode allowed action op h = elim (Bool-cases ("inspect_exec" == action)) [
  | inl inspects ↦ inl (ground arith)
  | inr other ↦ elim (Bool-cases ("guarded_exec" == action)) [
    | inl guards ↦ inr (ground arith)
    | inr unknown ↦ absurd (ground arith)
  ]
]

-- A controller with these two operators leaves the sandbox as it is, unless the command line of the
-- payload has a listed binary that is not interactive, no denied word, and, for a binary that can run
-- scripts, one of the nine allowed forms. What the other listed binaries do with their options is not
-- restricted.
pub execute_action-IsScreened :
    {W : Type 0} (decode : List ℕ → String) (allowed : List String) (c : CommandController W)
    (action : String) (payload : Payload) (w : W)
    → c.operators ≡ inspecting decode allowed
    → ((execute_action c action payload w).1 ≡ w) ⊎ IsScreened allowed (or_default [] payload.argv)
execute_action-IsScreened decode allowed c action payload w only =
    elim (execute_action-IsPermitted c action payload w) [
      | inl untouched ↦ inl untouched
      | inr (p, change) ↦
          elim (known_operator decode allowed action p.operator (rw (sym only) p.known)) [
            | inl inspects ↦
                rw (change, inspects) (inspect_exec-IsScreened decode c.sandbox payload w allowed)
            | inr guards ↦
                inl
                  (rw (change, guards, guarded_exec-default_guard decode c.sandbox payload w) refl)
          ]
    ]
