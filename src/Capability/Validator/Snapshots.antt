-- ===== src/Capability/Validator/Snapshots.antt =====
-- What the panel builds passes the validator, and what passes is what the panel builds.
use sth_boring.Base.{
  String, ◌==◌, eq_iff, true, not, [], ◌≡◌, ◌↔◌, arith, any, same_texts, same_texts_refl,
  same_texts_iff, eq_refl,
}
use sth_boring.Capability.Models.{is_enabled, BuildCapabilitySnapshotInput, CapabilitySnapshot}
use sth_boring.Capability.Registry.{CapabilityRegistry}
use sth_boring.Capability.Panel.{
  DigestPayload, digest_payload, recompute_digest, build_snapshot, step_kinds_where,
}
use sth_boring.Capability.Validator.{result, validate_snapshot}

module _ (digest : DigestPayload → String) where
  -- The validator accepts a snapshot exactly if its two lists of step kinds are those of the enabled
  -- and of the other availability records, and its digest is that of its payload.
  pub validate_snapshot_iff :
      (s : CapabilitySnapshot)
      → ((validate_snapshot digest s).is_ok ≡ true) ↔ (
          (s.available_step_kinds ≡ step_kinds_where is_enabled s.availability)
          × (s.unavailable_step_kinds ≡ step_kinds_where (λ st. not (is_enabled st)) s.availability)
          × (digest (digest_payload s) ≡ s.capability_digest))
  unfolding validate_snapshot result recompute_digest any
  validate_snapshot_iff s =
      let kinds = step_kinds_where is_enabled s.availability in
      let others = step_kinds_where (λ st. not (is_enabled st)) s.availability in
      let d = digest (digest_payload s) in
      (
        λ h. (
          same_texts_iff s.available_step_kinds kinds (ground arith),
          same_texts_iff s.unavailable_step_kinds others (ground arith),
          (eq_iff d s.capability_digest).0 (ground arith),
        ),
        λ h.
            let a : same_texts s.available_step_kinds kinds ≡ true =
              rw h.0 (same_texts_refl kinds) in
            let b : same_texts s.unavailable_step_kinds others ≡ true =
              rw h.1 (same_texts_refl others) in
            let c : (d == s.capability_digest) ≡ true = (eq_iff d s.capability_digest).1 h.2 in
            ground (arith, a, b, c),
      )

  -- The validator accepts every snapshot that the panel builds.
  pub validate_snapshot-build_snapshot :
      (registry : CapabilityRegistry) (id : String) (request : BuildCapabilitySnapshotInput)
      → validate_snapshot digest (build_snapshot digest registry id request)
        ≡ record { is_ok = true; issues = [] }
  unfolding validate_snapshot build_snapshot recompute_digest digest_payload result any
  validate_snapshot-build_snapshot registry id request = simp (same_texts_refl, eq_refl)
