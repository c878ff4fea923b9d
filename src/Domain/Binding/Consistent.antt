-- ===== src/Domain/Binding/Consistent.antt =====
-- crates/nodescale-domain/src/lib.rs: `validate_keryx_binding_identity` as a whole, against the
-- predicate of a consistent record.
use hermes_nodescale.Prelude.{
  ℕ, ◌≤◌, ◌≡◌, ◌≢◌, ◌↔◌, inl, inr, Bool, true, false, String, [], ◌∷◌, Option, ok, err, arith,
  is_some, is_none, fail_if, fail_if_iff, check-cases, checked_value, ==-zero_iff, ◌==◌, seq_iff,
  seq_pass, not, ◌&&◌,
}
use hermes_nodescale.Domain.Error.{DomainError, invalid_value, panicked}
use hermes_nodescale.Domain.Identifier.{UuidCrate}
use hermes_nodescale.Domain.Lifecycle.Keryx.{
  KeryxBindingState, pending, active, stale, rotated, revoked,
}
use hermes_nodescale.Domain.Binding.{
  Time, KeryxBindingIdentity, verification_bound, validate_before_last, verified_after_confirmation,
  validate_keryx_binding_identity, from_persisted, evidence_fits,
}
use hermes_nodescale.Domain.Binding.Laws.{
  HasAuthority, authority_exact, LineageOf, lineage_exact, AllFrom, timestamps_exact, Evidence,
  Evidence-exact, FromConfirmation, confirmation_exact, Ordered, Ordered-exact,
}

-- Verification comes before staleness, and both before rotation and revocation.
abbrev pub Timeline : Option Time → Option Time → Option Time → Option Time → Type 0
Timeline verified stale_at rotated_at revoked_at =
    Ordered verified stale_at
    × Ordered verified rotated_at
    × Ordered verified revoked_at
    × Ordered stale_at rotated_at
    × Ordered stale_at revoked_at

abbrev CheckedOrder : KeryxBindingState → KeryxBindingIdentity → Type 0
CheckedOrder s r =
    Ordered r.last_verified_at (verification_bound s r)
    × (Ordered r.stale_at r.rotated_at × Ordered r.stale_at r.revoked_at)

Timeline-exact :
    (s : KeryxBindingState) (r : KeryxBindingIdentity)
    → Evidence s r
    → CheckedOrder s r ↔ Timeline r.last_verified_at r.stale_at r.rotated_at r.revoked_at
Timeline-exact pending r e = (λ h. ground arith, λ h. ground arith)
Timeline-exact active r e = (λ h. ground arith, λ h. ground arith)
Timeline-exact stale r e = (λ h. ground arith, λ h. ground arith)
Timeline-exact rotated r e = (λ h. ground arith, λ h. ground arith)
Timeline-exact revoked r e = (λ h. ground arith, λ h. ground arith)

pub record IsConsistent (r : KeryxBindingIdentity) : Type 0 where
  pub authority : HasAuthority r
  pub revised : 1 ≤ r.revision
  pub created_first :
      AllFrom r.created_at
        (r.confirmed_at ∷ r.rotated_at ∷ r.revoked_at ∷ r.stale_at ∷ r.last_verified_at ∷ [])
  pub lineage : LineageOf r.generation r.binding_id r.rotated_from
  pub evidence : Evidence r.state r
  pub confirmed_first :
      FromConfirmation r.confirmed_at
        (r.last_verified_at ∷ r.stale_at ∷ r.rotated_at ∷ r.revoked_at ∷ [])
  pub timeline : Timeline r.last_verified_at r.stale_at r.rotated_at r.revoked_at

evidence_check :
    (r : KeryxBindingIdentity)
    → (fail_if (not (evidence_fits r.state r)) (
          invalid_value "Keryx binding identity"
            "state evidence and lifecycle timestamps are inconsistent")
        ≡ ok tt)
      ↔ Evidence r.state r
evidence_check r =
    let e = Evidence-exact r.state r in
    (λ h. e.0 (fits (evidence_fits r.state r) ((fail_if_iff _ _).0 h)), λ h. rw (e.1 h))
  where
    fits : (b : Bool) → not b ≡ false → b ≡ true
    fits b h = ground arith

-- A verification without a peer contradicts the evidence of every state.
peer_check :
    (s : KeryxBindingState) (r : KeryxBindingIdentity) (e : DomainError)
    → Evidence s r
    → fail_if (is_some r.last_verified_at && is_none r.verified_peer_id) e ≡ ok tt
peer_check pending r e h = ground arith
peer_check active r e h = ground arith
peer_check stale r e h = ground arith
peer_check rotated r e h = ground arith
peer_check revoked r e h = ground arith

positive_check : (n : ℕ) (e : DomainError) → (fail_if (n == 0) e ≡ ok tt) ↔ (1 ≤ n)
positive_check n e =
    (λ h. (==-zero_iff n).0 ((fail_if_iff _ e).0 h), λ h. (fail_if_iff _ e).1 ((==-zero_iff n).1 h))

-- The checks in the order in which they are made.
abbrev CheckedParts : KeryxBindingIdentity → Type 0
CheckedParts r =
    HasAuthority r
    × ((1 ≤ r.revision)
        × (AllFrom r.created_at
              (r.confirmed_at ∷ r.rotated_at ∷ r.revoked_at ∷ r.stale_at ∷ r.last_verified_at ∷ [])
            × (LineageOf r.generation r.binding_id r.rotated_from
                × (Evidence r.state r
                    × (FromConfirmation r.confirmed_at
                          (r.last_verified_at ∷ r.stale_at ∷ r.rotated_at ∷ r.revoked_at ∷ [])
                        × CheckedOrder r.state r)))))

checked_parts :
    (crate : UuidCrate) (r : KeryxBindingIdentity)
    → (validate_before_last crate r ≡ ok tt) ↔ CheckedParts r
unfolding validate_before_last
checked_parts crate r = seq_iff _ _ (authority_exact crate r) λ _.
    seq_iff _ _ (positive_check r.revision _) λ _. seq_iff _ _ (timestamps_exact _ _ _) λ _.
      seq_iff _ _ (lineage_exact r) λ _. seq_iff _ _ (evidence_check r) λ ev.
        seq_pass _ _ (peer_check r.state r _ ev) (
          seq_iff _ _ (confirmation_exact _ _) λ _.
            seq_iff _ _ (Ordered-exact _ _ _ _)
              λ _. seq_iff _ _ (Ordered-exact _ _ _ _) λ _. Ordered-exact _ _ _ _)

before_last_exact :
    (crate : UuidCrate) (r : KeryxBindingIdentity)
    → (validate_before_last crate r ≡ ok tt) ↔ IsConsistent r
before_last_exact crate r = (
  λ h.
      let (a, v, c, l, e, f, o) = flat ((checked_parts crate r).0 h) in
      record {
        authority = a;
        revised = v;
        created_first = c;
        lineage = l;
        evidence = e;
        confirmed_first = f;
        timeline = (Timeline-exact r.state r e).0 o;
      },
  λ c. (checked_parts crate r).1 (
    c.authority,
    (
      c.revised,
      (
        c.created_first,
        (
          c.lineage,
          (c.evidence, (c.confirmed_first, (Timeline-exact r.state r c.evidence).1 c.timeline)),
        ),
      ),
    ),
  ),
)
  where
    flat :
        {A B C D F G H : Type 0} → A × (B × (C × (D × (F × (G × H))))) → A × B × C × D × F × G × H
    flat (a, (b, (c, (d, (f, (g, h)))))) = (a, b, c, d, f, g, h)

-- The last check neither refuses nor panics.
last_check_passes :
    (s : KeryxBindingState) (r : KeryxBindingIdentity)
    → Evidence s r
    → FromConfirmation r.confirmed_at
        (r.last_verified_at ∷ r.stale_at ∷ r.rotated_at ∷ r.revoked_at ∷ [])
    → verified_after_confirmation r.last_verified_at r.confirmed_at ≡ ok tt
last_check_passes pending r e f = ground arith
last_check_passes active r e f = ground arith
last_check_passes stale r e f = ground arith
last_check_passes rotated r e f = ground arith
last_check_passes revoked r e f = ground arith

consistent_passes :
    (crate : UuidCrate) (r : KeryxBindingIdentity)
    → IsConsistent r
    → validate_keryx_binding_identity crate r ≡ ok tt
unfolding validate_keryx_binding_identity
consistent_passes crate r c =
    rw ((before_last_exact crate r).1 c) (last_check_passes r.state r c.evidence c.confirmed_first)

passes_before_last :
    (crate : UuidCrate) (r : KeryxBindingIdentity)
    → validate_keryx_binding_identity crate r ≡ ok tt
    → validate_before_last crate r ≡ ok tt
unfolding validate_keryx_binding_identity
passes_before_last crate r h = ground arith

-- A persisted Keryx binding is accepted, as it is, exactly if it is consistent: its IDs and its
-- peer are well formed, its generation and revision are positive, a predecessor is named exactly
-- from the second generation on and is another binding, its peer and timestamps are those that its
-- state calls for, and the timestamps that are known are in order.
pub from_persisted_exact :
    (crate : UuidCrate) (r t : KeryxBindingIdentity)
    → (from_persisted crate r ≡ ok t) ↔ (IsConsistent r × (r ≡ t))
unfolding from_persisted
from_persisted_exact crate r t =
    let value = checked_value (validate_keryx_binding_identity crate r) r t in
    (
      λ h.
          let (passed, same) = value.0 h in
          ((before_last_exact crate r).0 (passes_before_last crate r passed), same),
      λ h. value.1 (consistent_passes crate r h.0, h.1),
    )

-- The `expect` of the last check is never reached without a confirmation: no record, consistent or
-- not, makes the validation panic.
pub validation_never_panics :
    (crate : UuidCrate) (r : KeryxBindingIdentity) (message : String)
    → validate_keryx_binding_identity crate r ≢ err (panicked message)
unfolding validate_keryx_binding_identity
validation_never_panics crate r message = elim (check-cases (validate_before_last crate r)) [
  | inl passed ↦
      let c = (before_last_exact crate r).0 passed in
      let l = last_check_passes r.state r c.evidence c.confirmed_first in λ h. cc (passed, l, h)
  | inr (e, refusal) ↦ λ h. cc (refusal, h)
]
