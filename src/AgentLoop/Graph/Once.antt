-- ===== src/AgentLoop/Graph/Once.antt =====
-- `run_agent_loop_once` of src/sdk_test_agent/agent_loop/graph_builder.py is one pass through the
-- graph of `build_langgraph_agent_loop`.
use sth_boring.Base.{[], ◌∷◌, ok, ◌≡◌, refl, sym, arith, inl, inr}
use sth_boring.Base.Effects.{Action}
use sth_boring.Json.{Fields}
use sth_boring.AgentLoop.Graph.{
  Node, interaction_decision, env_init, capability_resolve, skill_select, plan, finalize, validate,
  preflight, execute, task_check, direct_return, refuse_return, human_interrupt, fail, next, step,
  steps, finish, first_terminal, last_terminal, after_preflight, after_validate, after_interaction,
  run_agent_loop_once, route_after_interaction_decision, route_after_validate,
  route_after_preflight, route_after_task_check,
}
use sth_boring.AgentLoop.Graph.Pass.{
  is_last, Pass, last, onward, bind-inv, and_then-inv, Linked, last_of, steps-Pass,
  last_terminal-is_last, first_terminal-is_last, task_route, preflight_route, validate_route,
  first_route,
}

module _ {W : Type 0} (visit : Node → Fields → Action W Fields) where
  finish-Pass :
      (m : Node) (s s' : Fields) (w w' : W)
      → last_terminal m ≡ m
      → finish visit s m w ≡ (ok s', w')
      → Pass visit m s w s' w'
  finish-Pass m s s' w w' same h = last (rw (sym same) (last_terminal-is_last m)) (rw (sym same) h)

  execute-Pass :
      (s s' : Fields) (w w' : W)
      → after_preflight visit s execute w ≡ (ok s', w')
      → Pass visit execute s w s' w'
  unfolding after_preflight next Linked last_of
  execute-Pass s s' w w' h =
      let (a, v, ran, h') = bind-inv (steps visit (execute ∷ task_check ∷ []) s) _ w h in
      let (m, routed, ended) = and_then-inv (route_after_task_check a) _ v h' in
      steps-Pass visit execute (task_check ∷ []) m s a s' w v w' ((λ x. refl), tt) ran routed
        (finish-Pass m a s' v w' (task_route a m routed) ended)

  preflight-Pass :
      (s s' : Fields) (w w' : W)
      → after_validate visit s preflight w ≡ (ok s', w')
      → Pass visit preflight s w s' w'
  unfolding after_validate after_preflight next is_last
  preflight-Pass s s' w w' h =
      let (a, v, ran, h') = bind-inv (step visit preflight s) _ w h in
      let (m, routed, ended) = and_then-inv (route_after_preflight a) _ v h' in
      onward ran routed (elim (preflight_route a m routed) [
        | inl on ↦ rw on (execute-Pass a s' v w' (rw on at ended))
        | inr stops ↦ rw stops (last refl (rw stops at ended))
      ])

  planning-Pass :
      (s s' : Fields) (w w' : W)
      → after_interaction visit s env_init w ≡ (ok s', w')
      → Pass visit env_init s w s' w'
  unfolding after_interaction after_validate next Linked last_of is_last
  planning-Pass s s' w w' h =
      let nodes = capability_resolve ∷ skill_select ∷ plan ∷ finalize ∷ validate ∷ [] in
      let (a, v, ran, h') = bind-inv (steps visit (env_init ∷ nodes) s) _ w h in
      let (m, routed, ended) = and_then-inv (route_after_validate a) _ v h' in
      let linked : Linked visit env_init nodes =
        ((λ x. refl), ((λ x. refl), ((λ x. refl), ((λ x. refl), ((λ x. refl), tt))))) in
      steps-Pass visit env_init nodes m s a s' w v w' linked ran routed
        (elim (validate_route a m routed) [
          | inl on ↦ rw on (preflight-Pass a s' v w' (rw on at ended))
          | inr stops ↦ rw stops (last refl (rw stops at ended))
        ])

  not_planning :
      (m : Node) (s : Fields) → first_terminal m ≡ m → after_interaction visit s m ≡ step visit m s
  unfolding after_interaction
  not_planning direct_return s same = refl
  not_planning refuse_return s same = refl
  not_planning human_interrupt s same = refl
  not_planning fail s same = refl
  not_planning _ s same = absurd (ground arith)

  ended-Pass :
      (m : Node) (s s' : Fields) (w w' : W)
      → first_terminal m ≡ m
      → after_interaction visit s m w ≡ (ok s', w')
      → Pass visit m s w s' w'
  ended-Pass m s s' w w' same h =
      last (rw (sym same) (first_terminal-is_last m)) (rw (not_planning m s same) at h)

  -- A call that returns has visited, one after the other, the nodes on a path along the edges of the
  -- graph from `interaction_decision` to a last node, each with the state and the world that the visit
  -- before it left, and returns the state and the world that the last visit left.
  pub run_agent_loop_once-Pass :
      (s s' : Fields) (w w' : W)
      → run_agent_loop_once visit s w ≡ (ok s', w')
      → Pass visit interaction_decision s w s' w'
  unfolding run_agent_loop_once after_interaction next is_last
  run_agent_loop_once-Pass s s' w w' h =
      let (a, v, ran, h') = bind-inv (step visit interaction_decision s) _ w h in
      let (m, routed, ended) = and_then-inv (route_after_interaction_decision a) _ v h' in
      onward ran routed (elim (first_route a m routed) [
        | inl plans ↦ rw plans (planning-Pass a s' v w' (rw plans at ended))
        | inr same ↦ ended-Pass m a s' v w' same ended
      ])
