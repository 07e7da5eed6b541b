-- ===== src/AgentLoop/Graph/Pass.antt =====
-- A call of `run_agent_loop_once` goes along the edges of the graph
-- (src/sdk_test_agent/agent_loop/graph_builder.py).
use sth_boring.Base.{
  Bool, true, false, List, [], ◌∷◌, Result, ok, raise, ◌≡◌, refl, ap, ◌∙◌, arith, ◌⊎◌,
}
use sth_boring.Base.Effects.{Action, and_then, pure, ◌>>=◌}
use sth_boring.Json.{Fields}
use sth_boring.AgentLoop.Graph.{
  Node, env_init, preflight, execute, replan_context, report, direct_return, refuse_return, fail,
  human_interrupt, next, step, steps, first_terminal, last_terminal,
  route_after_interaction_decision, route_after_validate, route_after_preflight,
  route_after_task_check,
}

-- The nodes that a call ends at: those with no edge but to END, and the one before a new plan.
unfoldable pub is_last : Node → Bool
is_last replan_context = true
is_last report = true
is_last direct_return = true
is_last refuse_return = true
is_last fail = true
is_last human_interrupt = true
is_last _ = false

-- From a node, a state and a world along the edges to a last node, with what its visit leaves.
pub data Pass {W : Type 0} (visit : Node → Fields → Action W Fields)
    : Node → Fields → W → Fields → W → Type 0 where
  last :
      {n : Node} {s s' : Fields} {w w' : W}
      → is_last n ≡ true
      → step visit n s w ≡ (ok s', w')
      → Pass visit n s w s' w'
  onward :
      {n m : Node} {s s₁ s' : Fields} {w w₁ w' : W}
      → step visit n s w ≡ (ok s₁, w₁)
      → next n s₁ ≡ ok m
      → Pass visit m s₁ w₁ s' w'
      → Pass visit n s w s' w'

module _ {W A B : Type 0} where
  pub and_then-inv :
      (r : Result A) (f : A → Action W B) (w : W) {b : B} {w' : W}
      → and_then r f w ≡ (ok b, w')
      → (a : A) × (r ≡ ok a) × (f a w ≡ (ok b, w'))
  and_then-inv (ok a) f w h = (a, refl, h)
  and_then-inv (raise e) f w h = absurd (ground arith)

  pub bind-inv :
      (m : Action W A) (f : A → Action W B) (w : W) {b : B} {w' : W}
      → (m >>= f) w ≡ (ok b, w')
      → (a : A) × (w₁ : W) × (m w ≡ (ok a, w₁)) × (f a w₁ ≡ (ok b, w'))
  bind-inv m f w h =
      let (a, e, rest) = and_then-inv (m w).0 f (m w).1 h in
      (a, (m w).1, ap (λ r. (r, (m w).1)) e, rest)

module _ {W : Type 0} (visit : Node → Fields → Action W Fields) where
  -- Each node leads to the next one of the list, whatever the state.
  unfoldable pub Linked : Node → List Node → Type 0
  Linked n [] = Unit
  Linked n (k ∷ ks) = ((s : Fields) → next n s ≡ ok k) × Linked k ks

  unfoldable pub last_of : Node → List Node → Node
  last_of n [] = n
  last_of n (k ∷ ks) = last_of k ks

  pub steps-Pass :
      (n : Node) (ns : List Node) (m : Node) (s s₁ s' : Fields) (w w₁ w' : W)
      → Linked n ns
      → steps visit (n ∷ ns) s w ≡ (ok s₁, w₁)
      → next (last_of n ns) s₁ ≡ ok m
      → Pass visit m s₁ w₁ s' w'
      → Pass visit n s w s' w'
  unfolding steps last_of Linked
  steps-Pass n [] m s s₁ s' w w₁ w' linked h e rest =
      let (a, v, here, same) = bind-inv (step visit n s) (λ x. pure x) w h in
      onward (here ∙ same) e rest
  steps-Pass n (k ∷ ks) m s s₁ s' w w₁ w' linked h e rest =
      let (a, v, here, others) = bind-inv (step visit n s) (λ x. steps visit (k ∷ ks) x) w h in
      onward here (linked.0 a) (steps-Pass k ks m a s₁ s' v w₁ w' linked.1 others e rest)

pub last_terminal-is_last : (m : Node) → is_last (last_terminal m) ≡ true
unfolding is_last
last_terminal-is_last m = ground arith

pub first_terminal-is_last : (m : Node) → is_last (first_terminal m) ≡ true
unfolding is_last
first_terminal-is_last m = ground arith

pub task_route : (s : Fields) (m : Node) → route_after_task_check s ≡ ok m → last_terminal m ≡ m
unfolding route_after_task_check
task_route s m h = ground arith

pub preflight_route :
    (s : Fields) (m : Node) → route_after_preflight s ≡ ok m → (m ≡ execute) ⊎ (m ≡ fail)
unfolding route_after_preflight
preflight_route s m h = ground arith

pub validate_route :
    (s : Fields) (m : Node) → route_after_validate s ≡ ok m → (m ≡ preflight) ⊎ (m ≡ fail)
unfolding route_after_validate
validate_route s m h = ground arith

pub first_route :
    (s : Fields) (m : Node)
    → route_after_interaction_decision s ≡ ok m
    → (m ≡ env_init) ⊎ (first_terminal m ≡ m)
unfolding route_after_interaction_decision
first_route s m h = ground arith
