-- ===== src/Domain/Intents/Requests.antt =====
-- crates/nodescale-domain/src/lib.rs: the checks of the challenge, its delivery and the bind
-- request, each against what it asks for.
use hermes_nodescale.Prelude.{
  bind_iff, ◌≤◌, ◌<◌, ◌≡◌, ◌≢◌, ◌↔◌, refl, ok, seq_iff, discard-ok, checked_value, ap,
}
use hermes_nodescale.Text.{Text}
use hermes_nodescale.Domain.Error.{Checked}
use hermes_nodescale.Domain.Identifier.{UuidCrate, parse_agent_version, parse_operation_id}
use hermes_nodescale.Domain.Identifier.Laws.{IsSafeIdentifier, identifiers_exact}
use hermes_nodescale.Domain.Binding.{Time}
use hermes_nodescale.Domain.Binding.Laws.{reparse_exact, peer_exact}
use hermes_nodescale.Domain.Intents.{
  N6BindingChallengeRequest, N6BindingChallengeDelivery, N6AuthenticatedBindRequest,
  revalidate_n6_agent_version, revalidate_n6_operation_id, request_valid_at, delivery_valid_at,
  new_challenge_request, new_challenge_delivery, new_bind_request,
}
use hermes_nodescale.Domain.Intents.Authorization.{generation_exact, expiry_exact}
use hermes_nodescale.Domain.Intents.Fences.{parsed}

agent_exact : (s : Text) → (revalidate_n6_agent_version s ≡ ok tt) ↔ IsSafeIdentifier 128 s
agent_exact s = (
  λ h. let (t, e) = parsed (parse_agent_version s) h in ((identifiers_exact "" s t).1.0 e).0,
  λ safe. discard-ok _ s ((identifiers_exact "" s s).1.1 (safe, refl)),
)

operation_exact : (s : Text) → (revalidate_n6_operation_id s ≡ ok tt) ↔ IsSafeIdentifier 128 s
operation_exact s = (
  λ h. let (t, e) = parsed (parse_operation_id s) h in ((identifiers_exact "" s t).2.0 e).0,
  λ safe. discard-ok _ s ((identifiers_exact "" s s).2.1 (safe, refl)),
)

abbrev pub IsRequest : N6BindingChallengeRequest → Time → Type 0
IsRequest r now =
    (r.network_id ≢ 0)
    × ((r.device_id ≢ 0)
        × ((r.provider_binding_id ≢ 0)
            × (IsSafeIdentifier 255 r.expected_authenticated_peer_id
                × ((1 ≤ r.generation)
                    × (IsSafeIdentifier 128 r.agent_version × (now < r.expires_at))))))

abbrev pub IsDelivery : N6BindingChallengeDelivery → Time → Type 0
IsDelivery d now =
    (d.challenge_id ≢ 0) × ((d.binding_id ≢ 0) × ((1 ≤ d.generation) × (now < d.expires_at)))

abbrev pub IsBindRequest : N6AuthenticatedBindRequest → Type 0
IsBindRequest r =
    IsSafeIdentifier 128 r.operation_id
    × ((r.network_id ≢ 0)
        × ((r.device_id ≢ 0)
            × ((r.provider_binding_id ≢ 0)
                × ((1 ≤ r.generation) × IsSafeIdentifier 128 r.agent_version))))

challenge_exact :
    (crate : UuidCrate) (r : N6BindingChallengeRequest) (d : N6BindingChallengeDelivery)
    (now : Time)
    → ((request_valid_at crate r now ≡ ok tt) ↔ IsRequest r now)
      × ((delivery_valid_at crate d now ≡ ok tt) ↔ IsDelivery d now)
unfolding request_valid_at delivery_valid_at
challenge_exact crate r d now = (
  seq_iff _ _ (reparse_exact crate _ r.network_id) λ _.
      seq_iff _ _ (reparse_exact crate _ r.device_id) λ _.
        seq_iff _ _ (reparse_exact crate _ r.provider_binding_id) λ _.
          seq_iff _ _ (peer_exact _ r.expected_authenticated_peer_id) λ _.
            seq_iff _ _ (generation_exact r.generation)
              λ _. seq_iff _ _ (agent_exact r.agent_version) λ _. expiry_exact r.expires_at now _,
  seq_iff _ _ (reparse_exact crate _ d.challenge_id) λ _.
      seq_iff _ _ (reparse_exact crate _ d.binding_id)
        λ _. seq_iff _ _ (generation_exact d.generation) λ _. expiry_exact d.expires_at now _,
)

-- A challenge request and its delivery are made, with the fields given, exactly if no UUID is nil,
-- the generation is positive, the present is before the expiry, and, in a request, the peer is a
-- safe identifier of at most 255 characters and the agent version one of at most 128.
pub challenges_made_valid :
    (crate : UuidCrate) (r s : N6BindingChallengeRequest) (d e : N6BindingChallengeDelivery)
    (now : Time)
    → ((new_challenge_request crate r now ≡ ok s) ↔ (IsRequest r now × (r ≡ s)))
      × ((new_challenge_delivery crate d now ≡ ok e) ↔ (IsDelivery d now × (d ≡ e)))
unfolding new_challenge_request new_challenge_delivery
challenges_made_valid crate r s d e now =
    let (request, delivery) = challenge_exact crate r d now in
    let q = checked_value (request_valid_at crate r now) r s in
    let p = checked_value (delivery_valid_at crate d now) d e in
    (
      (λ h. let (v, e) = q.0 h in (request.0 v, e), λ h. q.1 (request.1 h.0, h.1)),
      (λ h. let (v, e) = p.0 h in (delivery.0 v, e), λ h. p.1 (delivery.1 h.0, h.1)),
    )

-- An authenticated bind request is made, with the fields given, exactly if its operation ID and
-- agent version are safe identifiers of at most 128 characters, no UUID is nil, and the generation
-- is positive.
pub IsBindRequest-exact :
    (crate : UuidCrate) (r s : N6AuthenticatedBindRequest)
    → (new_bind_request crate r ≡ ok s) ↔ (IsBindRequest r × (r ≡ s))
unfolding new_bind_request
IsBindRequest-exact crate r s =
    let chain = bind_iff _ _ s (operation_exact r.operation_id) (λ _.
      bind_iff _ _ s (reparse_exact crate _ r.network_id) (λ _.
        bind_iff _ _ s (reparse_exact crate _ r.device_id) (λ _.
          bind_iff _ _ s (reparse_exact crate _ r.provider_binding_id) (λ _.
            bind_iff _ _ s (generation_exact r.generation)
              (λ _. bind_iff _ _ s (agent_exact r.agent_version) (λ _. value r s)))))) in
    (
      λ h. let (a, (b, (c, (d, (e, (f, g)))))) = chain.0 h in ((a, (b, (c, (d, (e, f))))), g),
      λ h. let ((a, (b, (c, (d, (e, f))))), g) = h in chain.1 (a, (b, (c, (d, (e, (f, g)))))),
    )
  where
    value :
        (x y : N6AuthenticatedBindRequest)
        → (◌≡◌ {A = Checked N6AuthenticatedBindRequest} (ok x) (ok y)) ↔ (x ≡ y)
    value x y = (λ h. cc, λ e. ap ok e)
