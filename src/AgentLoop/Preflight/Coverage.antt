-- ===== src/AgentLoop/Preflight/Coverage.antt =====
-- Which plans pass the preflight of src/sdk_test_agent/agent_loop/preflight.py.

use sth_boring.Base.{
  String, ◌==◌, true, false, List, [], ◌∷◌, contains, All, ◌≡◌, refl, arith, Bool-cases, Result, ok,
  raise, Exception, ◌⊎◌, inl, inr, Option, none, some, Ex, eq_iff,
}
use sth_boring.Json
use sth_boring.Json.{Value, Fields}
use sth_boring.Plan.Models.{PlanStep}
use sth_boring.AgentLoop.Preflight.{
  PreflightError, PreflightResult, lookup_errors, action_errors, kind_errors, join_errors,
  all_errors, run_preflight,
}

-- The action of a command, if it names one, is a text and one of the operators.
abbrev pub NamesOperator : List String → Option Value → Type 0
NamesOperator operators none = Unit
NamesOperator operators (some Value.null) = Unit
NamesOperator operators (some (Value.str action)) = Ex (λ operator. operator ≡ action) operators
NamesOperator operators (some v) = ⊥

contains-Ex : (x : String) (xs : List String) → contains x xs ≡ true → Ex (λ y. y ≡ x) xs
unfolding contains
contains-Ex x [] h = absurd cc
contains-Ex x (y ∷ ys) h = elim (Bool-cases (y == x)) [
  | inl same ↦ inl ((eq_iff y x).0 same)
  | inr other ↦ inr (contains-Ex x ys (ground arith))
]

-- The lookup of an action finds no error only in an operator.
lookup_errors-nil :
    (operators : List String) (action : Option Value)
    → lookup_errors operators action ≡ ok []
    → NamesOperator operators action
lookup_errors-nil operators none h = tt
lookup_errors-nil operators (some Value.null) h = tt
lookup_errors-nil operators (some (Value.str a)) h = elim (Bool-cases (contains a operators)) [
  | inl known ↦ contains-Ex a operators known
  | inr unknown ↦ absurd (ground arith)
]
lookup_errors-nil operators (some (Value.arr vs)) h = absurd cc
lookup_errors-nil operators (some (Value.obj fs)) h = absurd cc
lookup_errors-nil operators (some (Value.bool b)) h = absurd (ground arith)
lookup_errors-nil operators (some (Value.int n)) h = absurd (ground arith)
lookup_errors-nil operators (some (Value.float m k)) h = absurd (ground arith)

-- The step has an executor, and if it runs a command that names an action, the action is one of the
-- operators.
pub record IsRunnable (supported operators : List String) (step : PlanStep) : Type 0 where
  pub kind : contains step.kind supported ≡ true
  pub action :
      ((step.kind == "run_command") ≡ false)
      ⊎ NamesOperator operators (Json.get "action" step.inputs)

Errors-cases :
    (r : Result (List PreflightError))
    → ((e : Exception) × (r ≡ raise e)) ⊎ ((es : List PreflightError) × (r ≡ ok es))
Errors-cases (raise e) = inl (e, refl)
Errors-cases (ok es) = inr (es, refl)

step_without_errors-IsRunnable :
    (supported operators : List String) (step : PlanStep)
    → kind_errors supported step ≡ []
    → action_errors operators step ≡ ok []
    → IsRunnable supported operators step
step_without_errors-IsRunnable supported operators step kinds actions = record {
  kind = ground arith;
  action = elim (Bool-cases (step.kind == "run_command")) [
    | inl runs ↦ inr (lookup_errors-nil operators (Json.get "action" step.inputs) (ground arith))
    | inr other ↦ inl other
  ];
}

join_errors-nil :
    (here : List PreflightError) (more rest : Result (List PreflightError))
    → join_errors here more rest ≡ ok []
    → (here ≡ []) × (more ≡ ok []) × (rest ≡ ok [])
join_errors-nil here (raise e) rest h = absurd (ground arith)
join_errors-nil here (ok more) (raise e) h = absurd (ground arith)
join_errors-nil [] (ok []) (ok others) h = (refl, refl, h)
join_errors-nil [] (ok (e ∷ es)) (ok others) h = absurd (ground arith)
join_errors-nil (e ∷ es) (ok more) (ok others) h = absurd (ground arith)

no_errors-All :
    (supported operators : List String) (steps : List PlanStep)
    → all_errors supported operators steps ≡ ok []
    → All (IsRunnable supported operators) steps
unfolding all_errors
no_errors-All supported operators [] h = tt
no_errors-All supported operators (step ∷ steps) h =
    let (kinds, actions, rest) =
      join_errors-nil (kind_errors supported step) (action_errors operators step)
        (all_errors supported operators steps) h in
    (
      step_without_errors-IsRunnable supported operators step kinds actions,
      no_errors-All supported operators steps rest,
    )

-- Every step of a plan that passes the preflight has an executor, and if it runs a command that names
-- an action, the action is one of the operators.
pub run_preflight-IsRunnable :
    (supported operators : List String) (steps : List PlanStep) (r : PreflightResult)
    → run_preflight supported operators steps ≡ ok r
    → r.passed ≡ true
    → All (IsRunnable supported operators) steps
unfolding run_preflight
run_preflight-IsRunnable supported operators steps r e h =
    elim (Errors-cases (all_errors supported operators steps)) [
      | inl (x, raised) ↦ absurd (ground arith)
      | inr ([], clean) ↦ no_errors-All supported operators steps clean
      | inr (x ∷ xs, found) ↦ absurd (ground arith)
    ]
