-- ===== src/Domain/Intents/Authorization.antt =====
-- crates/nodescale-domain/src/lib.rs: the checks of an authorization, and those that the
-- intents share, each against what it asks for.
use hermes_nodescale.Prelude.{
  ℕ, ◌+◌, ◌≤◌, ◌<◌, ◌≡◌, ◌≢◌, ◌↔◌, refl, ok, arith, fail_if, fail_if_iff, seq_iff, String, Bool,
  true, false, ==-zero_iff, ◌==◌, not, ◌||◌, ltb,
}
use hermes_nodescale.Domain.Error.{DomainError}
use hermes_nodescale.Domain.Identifier.{Uuid, UuidCrate}
use hermes_nodescale.Domain.Identifier.Laws.{IsSafeIdentifier, audit_actor_exact, ActorFits}
use hermes_nodescale.Domain.Generation.{Generation, u64_max, next_exact}
use hermes_nodescale.Domain.Binding.{Time}
use hermes_nodescale.Domain.Binding.Laws.{reparse_exact}
use hermes_nodescale.Domain.Intents.{
  Capability, rotate, revoke, capability_eq, KeryxBindingAuthorization, revalidate_n6_generation,
  validate_expiry, validate_exact_rotation_generation, authorization_valid_at,
  validate_authorization,
}

pub generation_exact : (g : Generation) → (revalidate_n6_generation g ≡ ok tt) ↔ (1 ≤ g)
unfolding revalidate_n6_generation
generation_exact g = (λ h. ground arith, λ h. ground arith)

pub expiry_exact : (e now : Time) (kind : String) → (validate_expiry e now kind ≡ ok tt) ↔ (now < e)
unfolding validate_expiry
expiry_exact e now kind = (λ h. ground arith, λ h. ground arith)

pub next_generation_exact :
    (g n : Generation)
    → (validate_exact_rotation_generation g n ≡ ok tt) ↔ ((n ≡ g + 1) × (n ≤ u64_max))
unfolding validate_exact_rotation_generation next_exact
next_generation_exact g n = (λ h. ground arith, λ h. ground arith)

revision_exact : (n : ℕ) (e : DomainError) → (fail_if (n == 0) e ≡ ok tt) ↔ (1 ≤ n)
revision_exact n e =
    (λ h. (==-zero_iff n).0 ((fail_if_iff _ e).0 h), λ h. (fail_if_iff _ e).1 ((==-zero_iff n).1 h))

-- Well-formed in everything but time: no UUID is nil, the actor is well formed, the generation and
-- the revision are positive.
abbrev pub IsAuthorization : KeryxBindingAuthorization → Type 0
IsAuthorization a =
    (a.authorization_id ≢ 0)
    × (a.authority_id ≢ 0)
    × (a.binding_id ≢ 0)
    × (1 ≤ a.generation)
    × IsSafeIdentifier 64 a.actor.source
    × ActorFits a.actor.source a.actor.actor_id
    × (1 ≤ a.revision)

authorization_checks :
    (crate : UuidCrate) (a : KeryxBindingAuthorization) (now : Time)
    → (authorization_valid_at crate a now ≡ ok tt) ↔ (
        (a.authorization_id ≢ 0)
        × ((a.authority_id ≢ 0)
            × ((a.binding_id ≢ 0)
                × ((1 ≤ a.generation)
                    × ((IsSafeIdentifier 64 a.actor.source
                          × ActorFits a.actor.source a.actor.actor_id)
                        × ((1 ≤ a.revision) × (now < a.expires_at)))))))
unfolding authorization_valid_at
authorization_checks crate a now = seq_iff _ _ (reparse_exact crate _ a.authorization_id) λ _.
    seq_iff _ _ (reparse_exact crate _ a.authority_id) λ _.
      seq_iff _ _ (reparse_exact crate _ a.binding_id) λ _.
        seq_iff _ _ (generation_exact a.generation) λ _.
          seq_iff _ _ (audit_actor_exact a.actor)
            λ _. seq_iff _ _ (revision_exact a.revision _) λ _. expiry_exact a.expires_at now _

IsAuthorization-exact :
    (crate : UuidCrate) (a : KeryxBindingAuthorization) (now : Time)
    → (authorization_valid_at crate a now ≡ ok tt) ↔ (IsAuthorization a × (now < a.expires_at))
IsAuthorization-exact crate a now = (
  λ h.
      let (i, (j, (k, (g, ((s, f), (v, e)))))) = (authorization_checks crate a now).0 h in
      ((i, j, k, g, s, f, v), e),
  λ h.
      let ((i, j, k, g, s, f, v), e) = h in
      (authorization_checks crate a now).1 (i, (j, (k, (g, ((s, f), (v, e)))))),
)

-- The authorization grants this capability on this binding, at this generation and revision, and
-- lasts at least as long as the intent.
abbrev pub Fences : KeryxBindingAuthorization → Capability → Uuid → Generation → ℕ → Time → Type 0
Fences a capability binding generation revision expires =
    (a.capability ≡ capability)
    × (a.binding_id ≡ binding)
    × (a.generation ≡ generation)
    × (a.revision ≡ revision)
    × (expires ≤ a.expires_at)

capability_eq_iff : (c d : Capability) → (capability_eq c d ≡ true) ↔ (c ≡ d)
capability_eq_iff rotate rotate = (λ _. refl, λ _. refl)
capability_eq_iff rotate revoke = (λ h. ground arith, λ h. ground arith)
capability_eq_iff revoke rotate = (λ h. ground arith, λ h. ground arith)
capability_eq_iff revoke revoke = (λ _. refl, λ _. refl)

fence_numbers :
    (same : Bool) (b b' g g' r r' expires expires' : ℕ) (e : DomainError)
    → (fail_if
          (not same || not (b' == b) || not (g' == g) || not (r' == r) || ltb expires' expires)
          e
        ≡ ok tt)
      ↔ ((same ≡ true) × (b' ≡ b) × (g' ≡ g) × (r' ≡ r) × (expires ≤ expires'))
fence_numbers true b b' g g' r r' expires expires' e = (λ h. ground arith, λ h. ground arith)
fence_numbers false b b' g g' r r' expires expires' e = (λ h. ground arith, λ h. ground arith)

fence_check :
    (a : KeryxBindingAuthorization) (c : Capability) (b : Uuid) (g : Generation) (r : ℕ)
    (expires : Time) (e : DomainError)
    → (fail_if
          (not (capability_eq a.capability c)
            || not (a.binding_id == b)
            || not (a.generation == g)
            || not (a.revision == r)
            || ltb a.expires_at expires)
          e
        ≡ ok tt)
      ↔ Fences a c b g r expires
fence_check a c b g r expires e =
    let same = capability_eq_iff a.capability c in
    let n =
      fence_numbers (capability_eq a.capability c) b a.binding_id g a.generation r a.revision
        expires a.expires_at e in
    (
      λ h. let (s, i, j, k, l) = n.0 h in (same.0 s, i, j, k, l),
      λ h. let (s, i, j, k, l) = h in n.1 (same.1 s, i, j, k, l),
    )

-- The intent is in the future, and its authorization is well formed, alive and fences it.
abbrev pub IsFenced :
    KeryxBindingAuthorization → Capability → Uuid → Generation → ℕ → Time → Time → Type 0
IsFenced a c b g r expires now =
    (IsAuthorization a × (now < a.expires_at)) × ((now < expires) × Fences a c b g r expires)

pub IsFenced-exact :
    (crate : UuidCrate) (a : KeryxBindingAuthorization) (c : Capability) (b : Uuid) (g : Generation)
    (r : ℕ) (expires now : Time)
    → (validate_authorization crate a c b g r expires now ≡ ok tt) ↔ IsFenced a c b g r expires now
unfolding validate_authorization
IsFenced-exact crate a c b g r expires now =
    seq_iff _ _ (IsAuthorization-exact crate a now)
      λ _. seq_iff _ _ (expiry_exact expires now _) λ _. fence_check a c b g r expires _
