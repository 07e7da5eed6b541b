-- ===== src/Capability/Builtin/Kinds.antt =====
-- src/sdk_test_agent/capability/builtin_capabilities.py and src/sdk_test_agent/plan/plan_enums.py: the
-- kinds of steps that plans may have are those of the capabilities that the agent comes with.
use sth_boring.Base.{String, ok, contains, ◌≡◌, refl, arith, map, is_none, not}
use sth_boring.Base.Dict
use sth_boring.Capability.Schema.{RootSchema}
use sth_boring.Capability.Registry.{
  CapabilityRegistry, register, register_all, maybe_get_by_step_kind,
}
use sth_boring.Capability.Builtin.{builtin_capabilities, build_builtin_capability_registry}
use sth_boring.Plan.Enums.{supported_plan_step_kinds}

module _ (schema_of : String → RootSchema) where
  abbrev built : CapabilityRegistry
  built = record {
    by_id = map (λ d. (d.capability_id, d)) (builtin_capabilities schema_of);
    by_step_kind = map (λ d. (d.step_kind, d)) (builtin_capabilities schema_of);
  }

  build-ok : build_builtin_capability_registry schema_of ≡ ok built
  unfolding build_builtin_capability_registry register_all register Dict.has Dict.get Dict.put
  build-ok = refl

  built-kinds :
      (kind : String)
      → not (is_none (maybe_get_by_step_kind built kind)) ≡ contains kind supported_plan_step_kinds
  unfolding maybe_get_by_step_kind Dict.get contains
  built-kinds kind = ground arith

-- Whatever the schemas, the built-in capabilities register without a clash, and their registry knows
-- a step kind exactly if it is one that a plan may have.
pub build-kinds :
    (schema_of : String → RootSchema) (kind : String)
    → (r : CapabilityRegistry) × (build_builtin_capability_registry schema_of ≡ ok r)
      × (not (is_none (maybe_get_by_step_kind r kind)) ≡ contains kind supported_plan_step_kinds)
build-kinds schema_of kind = (built schema_of, build-ok schema_of, built-kinds schema_of kind)
