-- ===== src/Domain/Fleet/Provenance/Laws.antt =====
-- crates/nodescale-domain/src/n7.rs: `N6ActiveBindingProvenance` and the bindings that it is taken
-- from.
use hermes_nodescale.Prelude.{
  ◌≡◌, ◌≢◌, ◌↔◌, ◌≤◌, refl, arith, not, Option, none, some, ok, ◌>>◌, fail_if, seq_iff,
}
use mathlib.Core.Path.{subst}
use hermes_nodescale.Text.{Text}
use hermes_nodescale.Domain.Error.{DomainError, Checked}
use hermes_nodescale.Domain.Identifier.{UuidCrate}
use hermes_nodescale.Domain.Generation.{Generation, new_generation}
use hermes_nodescale.Domain.Identifier.Laws.{IsSafeIdentifier}
use hermes_nodescale.Domain.Lifecycle.Keryx.{
  KeryxBindingState, pending, active, stale, rotated, revoked,
}
use hermes_nodescale.Domain.Binding.{KeryxBindingIdentity}
use hermes_nodescale.Domain.Binding.Laws.{reparse_exact, peer_exact, Known, SomePeer, Evidence}
use hermes_nodescale.Domain.Binding.Consistent.{IsConsistent}
use hermes_nodescale.Domain.Fleet.Provenance.{
  N6ActiveBindingProvenance, positive_generation, validate_provenance, new_provenance,
  from_active_binding, is_active,
}

pub positive_exact : (g : Generation) → (positive_generation g ≡ ok tt) ↔ (1 ≤ g)
unfolding new_generation
positive_exact g = (λ h. ground arith, λ h. ground arith)

abbrev pub IsProvenance : N6ActiveBindingProvenance → Type 0
IsProvenance p =
    (p.network_id ≢ 0)
    × ((p.device_id ≢ 0)
        × ((p.binding_id ≢ 0)
            × (IsSafeIdentifier 255 p.authenticated_peer_id × (1 ≤ p.binding_generation))))

pub IsProvenance-exact :
    (crate : UuidCrate) (p : N6ActiveBindingProvenance)
    → (validate_provenance crate p ≡ ok tt) ↔ IsProvenance p
unfolding validate_provenance
IsProvenance-exact crate p = seq_iff _ _ (reparse_exact crate _ p.network_id) λ _.
    seq_iff _ _ (reparse_exact crate _ p.device_id) λ _.
      seq_iff _ _ (reparse_exact crate _ p.binding_id) λ _.
        seq_iff _ _ (peer_exact _ p.authenticated_peer_id) λ _. positive_exact p.binding_generation

-- The evidence that an active binding gives.
abbrev pub evidence_of : KeryxBindingIdentity → Text → N6ActiveBindingProvenance
evidence_of b peer = record {
  network_id = b.network_id;
  device_id = b.device_id;
  binding_id = b.binding_id;
  authenticated_peer_id = peer;
  binding_generation = b.generation;
}

Known-peer :
    (o : Option Text)
    → Known o
    → SomePeer o
    → (peer : Text) × (o ≡ some peer) × IsSafeIdentifier 255 peer
Known-peer none k p = ground arith
Known-peer (some peer) k p = (peer, refl, p)

evidence_passes :
    (crate : UuidCrate) (p : N6ActiveBindingProvenance)
    → IsProvenance p
    → new_provenance crate p ≡ ok p
unfolding new_provenance
evidence_passes crate p v = rw ((IsProvenance-exact crate p).1 v) refl

-- A consistent, active binding has an authenticated peer, and its own IDs, its generation and that
-- peer are the evidence it gives; a binding in another state, consistent or not, gives none.
pub active_binding_is_evidence :
    (crate : UuidCrate) (b : KeryxBindingIdentity)
    → (IsConsistent b
        → b.state ≡ active
        → (peer : Text) × (b.verified_peer_id ≡ some peer)
          × (from_active_binding crate b ≡ ok (evidence_of b peer)))
      × ((p : N6ActiveBindingProvenance) → from_active_binding crate b ≡ ok p → b.state ≡ active)
unfolding from_active_binding
active_binding_is_evidence crate b = (
  λ c a.
      let known = (subst (λ s. Evidence s b) a c.evidence).0 in
      let (binding, (network, (device, (_, (_, (safe_peer, generation)))))) = c.authority in
      let (peer, same, safe) = Known-peer b.verified_peer_id known safe_peer in
      let passes =
        evidence_passes crate (evidence_of b peer)
          (network, (device, (binding, (safe, generation)))) in
      (peer, same, rw a (rw same passes)),
  λ p h. only_active b.state _ _ p h,
)
  where
    only_active :
        (s : KeryxBindingState) (e : DomainError) (k : Checked N6ActiveBindingProvenance)
        (q : N6ActiveBindingProvenance)
        → (fail_if (not (is_active s)) e >> k) ≡ ok q
        → s ≡ active
    only_active pending e k q h = cc
    only_active active e k q h = refl
    only_active stale e k q h = cc
    only_active rotated e k q h = cc
    only_active revoked e k q h = cc
