-- ===== src/Capability/Registry.antt =====
-- src/sdk_test_agent/capability/capability_registry.py: two indexes over the same descriptors.
pub mod Consistency
use sth_boring.Base.{
  String, ◌<>◌, ◌==◌, eq_iff, Bool, true, false, Option, none, some, List, [], ◌∷◌, ◌++◌, map,
  Result, ok, raise, Exception, if◌then◌else◌, ◌≡◌, ◌≢◌, refl, sym, ◌∙◌, ap, arith, Bool-cases,
  is_none, map-append,
}
use sth_boring.Base.Dict
use sth_boring.Base.Dict.{Dict, get-put, put_new}
use sth_boring.Capability.Models.{CapabilityDescriptor}

pub record CapabilityRegistry : Type 0 where
  pub by_id : Dict CapabilityDescriptor
  pub by_step_kind : Dict CapabilityDescriptor

abbrev pub empty : CapabilityRegistry
empty = record { by_id = []; by_step_kind = [] }

abbrev value_error : String → Exception
value_error message = record { class_name = "ValueError"; message = message }

abbrev key_error : String → Exception
key_error key = record { class_name = "KeyError"; message = key }

unfoldable pub register : CapabilityDescriptor → CapabilityRegistry → Result CapabilityRegistry
unfolding Dict.has
register d r =
    if Dict.has d.capability_id r.by_id
    then raise (value_error ("duplicated capability_id: " <> d.capability_id))
    else if Dict.has d.step_kind r.by_step_kind
    then raise (value_error ("duplicated step_kind: " <> d.step_kind))
    else ok (record {
      by_id = Dict.put d.capability_id d r.by_id;
      by_step_kind = Dict.put d.step_kind d r.by_step_kind;
    })

abbrev found : String → Option CapabilityDescriptor → Result CapabilityDescriptor
found key none = raise (key_error key)
found key (some d) = ok d

unfoldable pub get_by_id : CapabilityRegistry → String → Result CapabilityDescriptor
get_by_id r key = found key (Dict.get key r.by_id)

unfoldable pub get_by_step_kind : CapabilityRegistry → String → Result CapabilityDescriptor
get_by_step_kind r key = found key (Dict.get key r.by_step_kind)

unfoldable pub maybe_get_by_step_kind : CapabilityRegistry → String → Option CapabilityDescriptor
maybe_get_by_step_kind r key = Dict.get key r.by_step_kind

unfoldable pub list_all : CapabilityRegistry → List CapabilityDescriptor
unfolding Dict.values
list_all r = Dict.values r.by_id

unfoldable pub available_step_kinds : CapabilityRegistry → List String
unfolding Dict.keys
available_step_kinds r = Dict.keys r.by_step_kind

-- `for d in descriptors: registry.register(d)`
unfoldable pub register_all :
    List CapabilityDescriptor → CapabilityRegistry → Result CapabilityRegistry
register_all [] r = ok r
register_all (d ∷ ds) r = elim (register d r) [ ok r' ↦ register_all ds r' | raise e ↦ raise e ]
