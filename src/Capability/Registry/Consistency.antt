-- ===== src/Capability/Registry/Consistency.antt =====
-- The two indexes of a registry hold the same descriptors, each under its own key.
use sth_boring.Base.{
  String, ◌==◌, eq_iff, false, none, some, List, [], ◌∷◌, ◌++◌, map, ok, raise, Exception, ◌≡◌,
  refl, sym, ◌∙◌, ap, arith, Bool-cases, Option-cases, map-append, append-nil, append_assoc, Result,
  ◌↔◌, ◌⊎◌, inl, inr,
}
use sth_boring.Base.Dict
use sth_boring.Base.Dict.{Dict, get-put, put_new}
use sth_boring.Capability.Models.{CapabilityDescriptor}
use sth_boring.Capability.Registry.{
  CapabilityRegistry, empty, register, register_all, list_all, get_by_id, maybe_get_by_step_kind,
}

-- Each descriptor of the index stands under its own key.
abbrev pub IsKeyed : (CapabilityDescriptor → String) → Dict CapabilityDescriptor → Type 0
IsKeyed key index = map (λ e. e.0) index ≡ map (λ e. key e.1) index

-- Both indexes hold the same descriptors in the same order.
pub record IsConsistent (r : CapabilityRegistry) : Type 0 where
  pub ids : IsKeyed (λ d. d.capability_id) r.by_id
  pub kinds : IsKeyed (λ d. d.step_kind) r.by_step_kind
  pub same : map (λ e. e.1) r.by_id ≡ map (λ e. e.1) r.by_step_kind

pub empty-IsConsistent : IsConsistent empty
empty-IsConsistent = record { ids = refl; kinds = refl; same = refl }

snoc-IsKeyed :
    (key : CapabilityDescriptor → String) (d : CapabilityDescriptor)
    (index : Dict CapabilityDescriptor)
    → IsKeyed key index
    → IsKeyed key (index ++ (key d, d) ∷ [])
snoc-IsKeyed key d index h = rw (map-append, map-append) (ap (λ l. l ++ key d ∷ []) h)

get-none_of_has :
    (k : String) (index : Dict CapabilityDescriptor)
    → Dict.has k index ≡ false
    → Dict.get k index ≡ none
unfolding Dict.has
get-none_of_has k index h = ground arith

abbrev added : CapabilityDescriptor → CapabilityRegistry → CapabilityRegistry
added d r = record {
  by_id = r.by_id ++ (d.capability_id, d) ∷ [];
  by_step_kind = r.by_step_kind ++ (d.step_kind, d) ∷ [];
}

added-IsConsistent :
    (d : CapabilityDescriptor) (r : CapabilityRegistry) → IsConsistent r → IsConsistent (added d r)
added-IsConsistent d r h = record {
  ids = snoc-IsKeyed (λ x. x.capability_id) d r.by_id h.ids;
  kinds = snoc-IsKeyed (λ x. x.step_kind) d r.by_step_kind h.kinds;
  same = rw (map-append, map-append) (ap (λ l. l ++ d ∷ []) h.same);
}

-- A registration returns exactly if neither key is taken, and then it adds the descriptor at the end
-- of both indexes.
pub register_iff :
    (d : CapabilityDescriptor) (r r' : CapabilityRegistry)
    → (register d r ≡ ok r') ↔ (
        (Dict.get d.capability_id r.by_id ≡ none)
        × (Dict.get d.step_kind r.by_step_kind ≡ none)
        × (r' ≡ added d r))
unfolding register Dict.has
register_iff d r r' = elim (Option-cases (Dict.get d.capability_id r.by_id)) [
  | inr (x, taken) ↦ (λ e. absurd (ground arith), λ h. absurd (ground (arith, h.0)))
  | inl free ↦ elim (Option-cases (Dict.get d.step_kind r.by_step_kind)) [
    | inr (x, taken) ↦ (λ e. absurd (ground arith), λ h. absurd (ground (arith, h.1)))
    | inl free' ↦
        let id = put_new d.capability_id d r.by_id free in
        let kind = put_new d.step_kind d r.by_step_kind free' in
        (λ e. (free, free', ground (arith, id, kind)), λ h. ground (arith, id, kind, h.2))
  ]
]

-- A registration that returns leaves the two indexes with the same descriptors in the same order, each
-- under its own key.
pub register-IsConsistent :
    (d : CapabilityDescriptor) (r r' : CapabilityRegistry)
    → IsConsistent r
    → register d r ≡ ok r'
    → IsConsistent r'
register-IsConsistent d r r' h e =
    let (_, _, same) = (register_iff d r r').0 e in rw same (added-IsConsistent d r h)

register_all-keeps :
    (ds : List CapabilityDescriptor) (r r' : CapabilityRegistry)
    → IsConsistent r
    → register_all ds r ≡ ok r'
    → IsConsistent r' × (list_all r' ≡ list_all r ++ ds)
unfolding register_all list_all
register_all-keeps [] r r' h e =
    let same : r ≡ r' = ground arith in
    (rw same at h, rw append-nil (ap (λ x. map (λ y. y.1) x.by_id) (sym same)))
register_all-keeps (d ∷ ds) r r' h e = elim (registered (register d r) refl) [
  | inl (x, e1) ↦
      let (kept, all) =
        register_all-keeps ds x r' (register-IsConsistent d r x h e1) (ground (arith, e1, e)) in
      let (_, _, same) = (register_iff d r x).0 e1 in
      (kept, all ∙ rw (same, map-append, append_assoc) refl)
  | inr (x, e1) ↦ absurd (ground (arith, e1, e))
]
  where
    registered :
        (m : Result CapabilityRegistry)
        → register d r ≡ m
        → ((x : CapabilityRegistry) × (register d r ≡ ok x))
          ⊎ ((x : Exception) × (register d r ≡ raise x))
    registered (ok x) e1 = inl (x, e1)
    registered (raise x) e1 = inr (x, e1)

-- After any registrations on an empty registry that all return, `list_all` lists the registered
-- descriptors in order, and the two indexes hold them, each under its own key.
pub register_all-IsConsistent :
    (ds : List CapabilityDescriptor) (r : CapabilityRegistry)
    → register_all ds empty ≡ ok r
    → IsConsistent r × (list_all r ≡ ds)
unfolding list_all
register_all-IsConsistent ds r e = register_all-keeps ds empty r empty-IsConsistent e

get-keyed :
    (key : CapabilityDescriptor → String) (index : Dict CapabilityDescriptor) (k : String)
    {d : CapabilityDescriptor}
    → IsKeyed key index
    → Dict.get k index ≡ some d
    → key d ≡ k
unfolding Dict.get
get-keyed key [] k h e = cc
get-keyed key ((j, x) ∷ index) k h e = elim (Bool-cases (j == k)) [
  | inl here ↦ ground (arith, eq_iff j k, h, e)
  | inr other ↦
      let rest : IsKeyed key index = cc h in get-keyed key index k rest (ground (arith, other, e))
]

-- In a registry with consistent indexes, what is found under a key has that key.
pub found_has_key :
    (r : CapabilityRegistry) (k : String) (d : CapabilityDescriptor)
    → IsConsistent r
    → ((get_by_id r k ≡ ok d → d.capability_id ≡ k)
        × (maybe_get_by_step_kind r k ≡ some d → d.step_kind ≡ k))
unfolding get_by_id maybe_get_by_step_kind
found_has_key r k d h = (
  λ e. get-keyed (λ x. x.capability_id) r.by_id k {d = d} h.ids (ground (arith, e)),
  λ e. get-keyed (λ x. x.step_kind) r.by_step_kind k h.kinds e,
)
