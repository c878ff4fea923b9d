-- ===== src/Domain/Intents/Fences.antt =====
-- crates/nodescale-domain/src/lib.rs: the checks of the rotation and revocation intents, each
-- against what it asks for.
use hermes_nodescale.Prelude.{
  ℕ, ◌+◌, ◌≤◌, ◌<◌, ◌≡◌, ◌≢◌, ◌↔◌, refl, ok, err, arith, seq_iff, discard, discard-ok,
  checked_value,
}
use hermes_nodescale.Text.{Text}
use hermes_nodescale.Domain.Error.{Checked}
use hermes_nodescale.Domain.Identifier.{UuidCrate, parse_reason_code}
use hermes_nodescale.Domain.Identifier.Laws.{IsSafeIdentifier, identifiers_exact}
use hermes_nodescale.Domain.Generation.{u64_max}
use hermes_nodescale.Domain.Binding.{Time}
use hermes_nodescale.Domain.Binding.Laws.{reparse_exact}
use hermes_nodescale.Domain.Intents.{
  rotate, revoke, N6BindingRotationIntent, N6BindingRevocationIntent, revalidate_n6_reason_code,
  rotation_valid_at, revocation_valid_at, new_rotation_intent, new_revocation_intent,
}
use hermes_nodescale.Domain.Intents.Authorization.{
  generation_exact, next_generation_exact, IsFenced, IsFenced-exact,
}

-- A text whose check passes was parsed.
pub parsed : (m : Checked Text) → discard m ≡ ok tt → (t : Text) × (m ≡ ok t)
parsed (ok t) h = (t, refl)
parsed (err e) h = cc

reason_exact :
    (reason : Text) → (revalidate_n6_reason_code reason ≡ ok tt) ↔ IsSafeIdentifier 64 reason
reason_exact reason = (
  λ h.
      let (t, e) = parsed (parse_reason_code reason) h in ((identifiers_exact "" reason t).3.0 e).0,
  λ safe. discard-ok _ reason ((identifiers_exact "" reason reason).3.1 (safe, refl)),
)

abbrev pub IsRotation : N6BindingRotationIntent → Time → Type 0
IsRotation i now =
    (i.decision_id ≢ 0)
    × ((i.predecessor_binding_id ≢ 0)
        × ((1 ≤ i.predecessor_generation)
            × ((1 ≤ i.expected_next_generation)
                × (IsSafeIdentifier 64 i.reason_code
                    × (IsFenced i.authorization rotate i.predecessor_binding_id
                          i.predecessor_generation i.predecessor_revision i.expires_at now
                        × ((i.expected_next_generation ≡ i.predecessor_generation + 1)
                            × (i.expected_next_generation ≤ u64_max)))))))

abbrev pub IsRevocation : N6BindingRevocationIntent → Time → Type 0
IsRevocation i now =
    (i.decision_id ≢ 0)
    × ((i.binding_id ≢ 0)
        × ((1 ≤ i.generation)
            × (IsSafeIdentifier 64 i.reason_code
                × IsFenced i.authorization revoke i.binding_id i.generation i.revision i.expires_at
                    now)))

pub IsRotation-exact :
    (crate : UuidCrate) (i : N6BindingRotationIntent) (now : Time)
    → (rotation_valid_at crate i now ≡ ok tt) ↔ IsRotation i now
unfolding rotation_valid_at
IsRotation-exact crate i now = seq_iff _ _ (reparse_exact crate _ i.decision_id) λ _.
    seq_iff _ _ (reparse_exact crate _ i.predecessor_binding_id) λ _.
      seq_iff _ _ (generation_exact i.predecessor_generation) λ _.
        seq_iff _ _ (generation_exact i.expected_next_generation) λ _.
          seq_iff _ _ (reason_exact i.reason_code) λ _.
            seq_iff _ _ (IsFenced-exact crate i.authorization rotate _ _ _ _ now)
              λ _. next_generation_exact i.predecessor_generation i.expected_next_generation

pub IsRevocation-exact :
    (crate : UuidCrate) (i : N6BindingRevocationIntent) (now : Time)
    → (revocation_valid_at crate i now ≡ ok tt) ↔ IsRevocation i now
unfolding revocation_valid_at
IsRevocation-exact crate i now = seq_iff _ _ (reparse_exact crate _ i.decision_id) λ _.
    seq_iff _ _ (reparse_exact crate _ i.binding_id) λ _.
      seq_iff _ _ (generation_exact i.generation) λ _.
        seq_iff _ _ (reason_exact i.reason_code)
          λ _. IsFenced-exact crate i.authorization revoke _ _ _ _ now

-- A rotation intent is made exactly if its decision and binding are not nil, its reason is a safe
-- identifier of at most 64 characters, its authorization is well formed, alive, grants rotation of
-- this binding at this generation and revision and outlasts the intent, the intent expires in the
-- future, and the next generation is the predecessor's plus one and within 64 bits.
pub IsRotation-fenced :
    (crate : UuidCrate) (i j : N6BindingRotationIntent) (now : Time)
    → (new_rotation_intent crate i now ≡ ok j) ↔ (IsRotation i now × (i ≡ j))
unfolding new_rotation_intent
IsRotation-fenced crate i j now =
    let value = checked_value (rotation_valid_at crate i now) i j in
    let exact = IsRotation-exact crate i now in
    (λ h. let (p, e) = value.0 h in (exact.0 p, e), λ h. value.1 (exact.1 h.0, h.1))

-- A revocation intent is made exactly if its decision and binding are not nil, its reason is a safe
-- identifier of at most 64 characters, its authorization is well formed, alive, grants revocation
-- of this binding at this generation and revision and outlasts the intent, and the intent expires
-- in the future.
pub IsRevocation-fenced :
    (crate : UuidCrate) (i j : N6BindingRevocationIntent) (now : Time)
    → (new_revocation_intent crate i now ≡ ok j) ↔ (IsRevocation i now × (i ≡ j))
unfolding new_revocation_intent
IsRevocation-fenced crate i j now =
    let value = checked_value (revocation_valid_at crate i now) i j in
    let exact = IsRevocation-exact crate i now in
    (λ h. let (p, e) = value.0 h in (exact.0 p, e), λ h. value.1 (exact.1 h.0, h.1))

-- Once made, a rotation or a revocation intent validates at another time exactly while that time is
-- before its own expiry: the authorization, which lasts as long, never ends it earlier.
pub validity_ends_at_expiry :
    (crate : UuidCrate) (i : N6BindingRotationIntent) (k : N6BindingRevocationIntent)
    (made now : Time)
    → rotation_valid_at crate i made ≡ ok tt
    → revocation_valid_at crate k made ≡ ok tt
    → ((rotation_valid_at crate i now ≡ ok tt) ↔ (now < i.expires_at))
      × ((revocation_valid_at crate k now ≡ ok tt) ↔ (now < k.expires_at))
validity_ends_at_expiry crate i k made now hi hk =
    let ri = IsRotation-exact crate i in
    let rk = IsRevocation-exact crate k in
    let (a, (b, (c, (d, (e, (((f, _), (_, g)), n)))))) = (ri made).0 hi in
    let (a', (b', (c', (d', ((f', _), (_, g')))))) = (rk made).0 hk in
    (
      (
        λ h. let (_, (_, (_, (_, (_, ((_, (t, _)), _)))))) = (ri now).0 h in t,
        λ t. (ri now).1 (a, (b, (c, (d, (e, (((f, outlasts t g.4), (t, g)), n)))))),
      ),
      (
        λ h. let (_, (_, (_, (_, (_, (t, _)))))) = (rk now).0 h in t,
        λ t. (rk now).1 (a', (b', (c', (d', ((f', outlasts t g'.4), (t, g')))))),
      ),
    )
  where
    outlasts : {now expires end : ℕ} → now < expires → expires ≤ end → now < end
    outlasts t l = omega arith
