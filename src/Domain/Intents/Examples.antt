-- ===== src/Domain/Intents/Examples.antt =====
-- The properties of the N6 commands at concrete ones.
use hermes_nodescale.Prelude.{ℕ, length, all, true, ◌<◌, ◌≤◌, ◌≡◌, ◌≢◌, ◌↔◌, refl, arith, ok, []}
use hermes_nodescale.Text.{Text, text, is_safe_byte}
use hermes_nodescale.Domain.Samples.{sample_crate, sample_actor}
use hermes_nodescale.Domain.Identifier.Laws.{IsSafeIdentifier}
use hermes_nodescale.Domain.Intents.{
  rotate, revoke, KeryxBindingAuthorization, N6BindingRotationIntent, N6BindingRevocationIntent,
  N6BindingChallengeRequest, N6BindingChallengeDelivery, N6AuthenticatedBindRequest,
  rotation_valid_at, revocation_valid_at, new_rotation_intent, new_revocation_intent,
}
use hermes_nodescale.Domain.Intents.Authorization.{IsAuthorization}
use hermes_nodescale.Domain.Intents.Fences.{
  IsRotation, IsRevocation, IsRotation-exact, IsRevocation-exact, IsRotation-fenced,
  IsRevocation-fenced, validity_ends_at_expiry,
}

abbrev to_rotate : KeryxBindingAuthorization
to_rotate = record {
  authorization_id = 20;
  authority_id = 21;
  actor = sample_actor;
  capability = rotate;
  binding_id = 12;
  generation = 2;
  revision = 3;
  expires_at = 600;
}

abbrev to_revoke : KeryxBindingAuthorization
to_revoke = record to_rotate { authorization_id = 22; capability = revoke }

abbrev rotation : N6BindingRotationIntent
rotation = record {
  decision_id = 30;
  authorization = to_rotate;
  predecessor_binding_id = 12;
  predecessor_generation = 2;
  predecessor_revision = 3;
  expected_next_generation = 3;
  expires_at = 500;
  reason_code = text "key_age";
}

abbrev revocation : N6BindingRevocationIntent
revocation = record {
  decision_id = 31;
  authorization = to_revoke;
  binding_id = 12;
  generation = 2;
  revision = 3;
  expires_at = 550;
  reason_code = text "key_lost";
}

IsRotation-fenced_example :
    (new_rotation_intent sample_crate rotation 400 ≡ ok rotation)
    ↔ (IsRotation rotation 400 × (rotation ≡ rotation))
IsRotation-fenced_example = IsRotation-fenced sample_crate rotation rotation 400

IsRevocation-fenced_example :
    (new_revocation_intent sample_crate revocation 400 ≡ ok revocation)
    ↔ (IsRevocation revocation 400 × (revocation ≡ revocation))
IsRevocation-fenced_example = IsRevocation-fenced sample_crate revocation revocation 400

safe : (t : Text) → 1 ≤ length t → length t ≤ 64 → all is_safe_byte t ≡ true → IsSafeIdentifier 64 t
safe t n b s = record { not_empty = n; bounded = b; safe = s }

key_age_safe : IsSafeIdentifier 64 (text "key_age")
unfolding is_safe_byte
key_age_safe = safe (text "key_age") (omega arith) (omega arith) refl

key_lost_safe : IsSafeIdentifier 64 (text "key_lost")
unfolding is_safe_byte
key_lost_safe = safe (text "key_lost") (omega arith) (omega arith) refl

nodescale_safe : IsSafeIdentifier 64 (text "nodescale")
unfolding is_safe_byte
nodescale_safe = safe (text "nodescale") (omega arith) (omega arith) refl

positive : (n : ℕ) → 1 ≤ n → n ≢ 0
positive n h e = omega arith

rotation_valid : rotation_valid_at sample_crate rotation 400 ≡ ok tt
rotation_valid =
    let p = positive 30 (omega arith) in
    let b = positive 12 (omega arith) in
    let a = positive 20 (omega arith) in
    let u = positive 21 (omega arith) in
    let t : IsAuthorization to_rotate = (a, u, b, omega arith, nodescale_safe, refl, omega arith) in
    (IsRotation-exact sample_crate rotation 400).1 (
      p,
      (
        b,
        (
          omega arith,
          (
            omega arith,
            (
              key_age_safe,
              (
                ((t, omega arith), (omega arith, (refl, refl, refl, refl, omega arith))),
                (refl, omega arith),
              ),
            ),
          ),
        ),
      ),
    )

revocation_valid : revocation_valid_at sample_crate revocation 400 ≡ ok tt
revocation_valid =
    let p = positive 31 (omega arith) in
    let b = positive 12 (omega arith) in
    let a = positive 22 (omega arith) in
    let u = positive 21 (omega arith) in
    let t : IsAuthorization to_revoke = (a, u, b, omega arith, nodescale_safe, refl, omega arith) in
    (IsRevocation-exact sample_crate revocation 400).1 (
      p,
      (
        b,
        (
          omega arith,
          (key_lost_safe, ((t, omega arith), (omega arith, (refl, refl, refl, refl, omega arith)))),
        ),
      ),
    )

validity_ends_at_expiry_example :
    ((rotation_valid_at sample_crate rotation 520 ≡ ok tt) ↔ (520 < rotation.expires_at))
    × ((revocation_valid_at sample_crate revocation 520 ≡ ok tt) ↔ (520 < revocation.expires_at))
validity_ends_at_expiry_example =
    validity_ends_at_expiry sample_crate rotation revocation 400 520 rotation_valid revocation_valid

abbrev request : N6BindingChallengeRequest
request = record {
  network_id = 2;
  device_id = 3;
  provider_binding_id = 4;
  expected_authenticated_peer_id = text "keryx-peer-7";
  generation = 1;
  expires_at = 300;
  agent_version = text "1.4.0";
}

abbrev delivery : N6BindingChallengeDelivery
delivery = record {
  challenge_id = 40;
  binding_id = 12;
  generation = 1;
  nonce = [];
  expires_at = 300;
}

abbrev bind : N6AuthenticatedBindRequest
bind = record {
  operation_id = text "bind-1";
  network_id = 2;
  device_id = 3;
  provider_binding_id = 4;
  binding_nonce = [];
  generation = 1;
  agent_version = text "1.4.0";
}
