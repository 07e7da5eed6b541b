-- ===== src/AgentLoop/Bindings.antt =====
-- RuntimeBindings of src/sdk_test_agent/agent_loop/runtime_bindings.py, of which only what is there
-- counts, and `build_available_context_keys` of nodes.py.
use sth_boring.Base.{String, Bool, true, false, List, [], ◌∷◌, ◌++◌, contains, ◌≡◌, arith}

-- A field tells whether the component is there (`is not None`).
pub record RuntimeBindings : Type 0 where
  pub artifact_manager : Bool
  pub runtime_manager : Bool
  pub docker_driver : Bool
  pub command_controller : Bool
  pub package_inspector : Bool
  pub env_inspector : Bool

abbrev key_if : String → Bool → List String
key_if key true = key ∷ []
key_if key false = []

unfoldable pub build_available_context_keys : RuntimeBindings → List String
build_available_context_keys b =
    key_if "artifact_manager" b.artifact_manager
    ++ (key_if "runtime_manager" b.runtime_manager
        ++ (key_if "docker_driver" b.docker_driver
            ++ (key_if "command_controller" b.command_controller
                ++ (key_if "package_inspector" b.package_inspector
                    ++ key_if "env_inspector" b.env_inspector))))

-- The execution context has a command controller exactly if one is bound.
pub build_available_context_keys-command_controller :
    (b : RuntimeBindings)
    → contains "command_controller" (build_available_context_keys b) ≡ b.command_controller
unfolding build_available_context_keys contains
build_available_context_keys-command_controller b = ground arith
