-- ===== src/Capability/Panel/Enabling.antt =====
-- When the panel enables a capability.
use sth_boring.Base.{
  String, Bool, true, false, not, ◌&&◌, List, [], ◌∷◌, ◌≡◌, refl, ◌↔◌, ◌≤◌, arith, contains, select,
  All,
}
use sth_boring.Capability.Models.{
  enabled, CapabilityDescriptor, BuildCapabilitySnapshotInput, risk_order,
}
use sth_boring.Capability.Panel.{resolve_descriptor, flagged_off}

-- The seven conditions under which a request may use a capability.
pub record IsUsable (d : CapabilityDescriptor) (request : BuildCapabilitySnapshotInput)
    : Type 0 where
  pub real : (d.is_placeholder && not request.allow_placeholder) ≡ false
  pub current : (d.is_deprecated && not request.allow_deprecated) ≡ false
  pub on : d.default_enabled ≡ true
  pub permitted : contains d.capability_id request.forbidden_capability_ids ≡ false
  pub unflagged : flagged_off d request ≡ false
  pub context : All (λ k. contains k request.available_context_keys ≡ true) d.required_context_keys
  pub risk : risk_order d.risk_level ≤ risk_order request.max_risk_level

select-nil :
    (p : String → Bool) (xs : List String)
    → (select (λ k. not (p k)) xs ≡ []) ↔ All (λ k. p k ≡ true) xs
unfolding select
select-nil p [] = (λ h. tt, λ h. refl)
select-nil p (x ∷ xs) = (
  λ h. (ground arith, (select-nil p xs).0 (ground arith)),
  λ h. ground (arith, (select-nil p xs).1 h.1, h.0),
)

-- The panel enables a capability exactly if all seven conditions hold.
pub resolve_descriptor_iff :
    (d : CapabilityDescriptor) (request : BuildCapabilitySnapshotInput)
    → ((resolve_descriptor d request).status ≡ enabled) ↔ IsUsable d request
unfolding resolve_descriptor
resolve_descriptor_iff d request =
    let ctx = select-nil (λ k. contains k request.available_context_keys) d.required_context_keys in
    (
      λ h. record {
        real = ground arith;
        current = ground arith;
        on = ground arith;
        permitted = ground arith;
        unflagged = ground arith;
        context = ctx.0 (ground arith);
        risk = ground arith;
      },
      λ h. ground (arith, ctx.1 h.context),
    )
