-- ===== src/Domain/Fleet/Projection/Exact.antt =====
-- crates/nodescale-domain/src/n7.rs: `from_parts` and `validate` against the predicate of a
-- well-formed projection.
use hermes_nodescale.Prelude.{
  ℕ, ◌≤◌, ◌≡◌, ◌≢◌, ◌↔◌, ◌⊎◌, sym, arith, Bool, true, false, not, List, [], ok, fail_if_iff,
  seq_iff, checked_value, all,
}
use hermes_nodescale.Text.Laws.{text_eq_iff}
use hermes_nodescale.Domain.Identifier.{UuidCrate}
use hermes_nodescale.Domain.Generation.{Generation}
use hermes_nodescale.Domain.Binding.Laws.{reparse_exact}
use hermes_nodescale.Domain.Fleet.Grants.{is_generated}
use hermes_nodescale.Domain.Fleet.Provenance.Laws.{positive_exact, IsProvenance, IsProvenance-exact}
use hermes_nodescale.Domain.Fleet.Content.{
  FleetEnrollmentState, pending, N7FleetDesiredProjection, compute_content_digest,
  digest_ignores_itself,
}
use hermes_nodescale.Domain.Fleet.Projection.{
  Parts, undigested, validate_without_digest, validate_projection, from_parts,
}
use hermes_nodescale.Domain.Fleet.Projection.Laws.{
  IsDisplayName, IsDisplayName-exact, match_exact, IsRoles, roles_check, grants_exact, state_exact,
}

-- Well formed but for the digest: the IDs, the name and the provenance are, the provenance is of
-- this network and device, the roles are canonical, the grants are generated ones, and there is
-- none unless the enrollment is pending.
abbrev pub IsProjection : N7FleetDesiredProjection → Type 0
IsProjection p =
    (p.network_id ≢ 0)
    × ((p.device_id ≢ 0)
        × (IsDisplayName p.display_name
            × ((1 ≤ p.membership_generation)
                × ((1 ≤ p.projection_generation)
                    × (IsProvenance p.binding_provenance
                        × (((p.binding_provenance.network_id ≡ p.network_id)
                              × (p.binding_provenance.device_id ≡ p.device_id))
                            × (IsRoles p.roles
                                × ((all is_generated p.generated_grants ≡ true)
                                    × ((p.enrollment_state ≡ pending)
                                        ⊎ (p.generated_grants ≡ []))))))))))

-- The parts of a projection that is advanced.
abbrev pub advanced : N7FleetDesiredProjection → FleetEnrollmentState → Generation → Parts
advanced p s g = record {
  network_id = p.network_id;
  device_id = p.device_id;
  display_name = p.display_name;
  managed_membership_state = p.managed_membership_state;
  membership_generation = p.membership_generation;
  projection_generation = g;
  binding_provenance = p.binding_provenance;
  roles = p.roles;
  enrollment_state = s;
  generated_grants = [];
}

module _ (crate : UuidCrate) (sha256 : List ℕ → List ℕ) where
  without_digest_exact :
      (p : N7FleetDesiredProjection)
      → (validate_without_digest crate sha256 p ≡ ok tt) ↔ IsProjection p
  unfolding validate_without_digest
  without_digest_exact p = seq_iff _ _ (reparse_exact crate _ p.network_id) λ _.
      seq_iff _ _ (reparse_exact crate _ p.device_id) λ _.
        seq_iff _ _ (IsDisplayName-exact p.display_name) λ _.
          seq_iff _ _ (positive_exact p.membership_generation) λ _.
            seq_iff _ _ (positive_exact p.projection_generation) λ _.
              seq_iff _ _ (IsProvenance-exact crate p.binding_provenance) λ _.
                seq_iff _ _
                  (match_exact p.binding_provenance.network_id p.binding_provenance.device_id
                    p.network_id p.device_id _)
                  λ _. roles_check p.roles _ _ (
                    seq_iff _ _ (grants_exact p.generated_grants)
                      λ _. state_exact p.enrollment_state p.generated_grants _)

  -- The projection of these arguments, with its digest.
  abbrev pub sealed : Parts → N7FleetDesiredProjection
  sealed a = record (undigested a) {
    content_digest = compute_content_digest crate sha256 (undigested a);
  }

  -- A desired projection is made from its parts exactly if they are well formed: no ID is nil, the
  -- name is printable and at most 128 bytes, the generations are positive, the provenance is well
  -- formed and of this network and device, the roles are canonical and not empty, the grants are
  -- generated ones (never `fleet.hermes.run`), and there is none unless the enrollment is pending.
  -- The projection made has these parts and the digest of its content.
  pub IsProjection-made_exactly :
      (a : Parts) (q : N7FleetDesiredProjection)
      → (from_parts crate sha256 a ≡ ok q) ↔ (IsProjection (undigested a) × (sealed a ≡ q))
  unfolding from_parts
  IsProjection-made_exactly a q =
      let value =
        checked_value (validate_without_digest crate sha256 (undigested a)) (sealed a) q in
      let exact = without_digest_exact (undigested a) in
      (λ h. let (v, e) = value.0 h in (exact.0 v, e), λ h. value.1 (exact.1 h.0, h.1))

  abbrev pub IsSealed : N7FleetDesiredProjection → Type 0
  IsSealed p = p.content_digest ≡ compute_content_digest crate sha256 p

  pub validate_exact :
      (p : N7FleetDesiredProjection)
      → (validate_projection crate sha256 p ≡ ok tt) ↔ (IsProjection p × IsSealed p)
  unfolding validate_projection
  validate_exact p =
      let digest = text_eq_iff p.content_digest (compute_content_digest crate sha256 p) in
      seq_iff _ _ (without_digest_exact p) λ _. (
        λ h. digest.0 (holds _ ((fail_if_iff _ _).0 h)),
        λ h. (fail_if_iff _ _).1 (fails _ (digest.1 h)),
      )
    where
      holds : (b : Bool) → not b ≡ false → b ≡ true
      holds b h = ground arith

      fails : (b : Bool) → b ≡ true → not b ≡ false
      fails b h = ground arith

  -- What was made has the digest of its content.
  pub sealed-IsSealed : (a : Parts) → IsSealed (sealed a)
  sealed-IsSealed a = sym (digest_ignores_itself crate sha256 (undigested a) _)
