-- ===== src/Domain/Lifecycle/Stages.antt =====
-- crates/nodescale-domain/src/lib.rs: `JoinSessionState` and `RevocationState` as lifecycles with
-- a single route.
use hermes_nodescale.Prelude.{◌≡◌, ◌⊎◌, refl, Bool, true, false, List, [], ◌∷◌, ℕ, drop, arith}
use hermes_nodescale.Domain.Lifecycle.Runs.{attempts}
use hermes_nodescale.Domain.Lifecycle.Routes.{InOrder, Route, arrival-InOrder}
use hermes_nodescale.Domain.Lifecycle.Join.{JoinSessionState, join_lifecycle}
use hermes_nodescale.Domain.Lifecycle.Revocation.{RevocationState, revocation_lifecycle}

-- The stages of a join, and how many of them a session has passed.
abbrev join_stages : List JoinSessionState
join_stages =
    JoinSessionState.invitation_validated ∷ JoinSessionState.provider_credential_issuing
    ∷ JoinSessionState.provider_credential_issued ∷ JoinSessionState.mesh_join_observed
    ∷ JoinSessionState.agent_registered ∷ JoinSessionState.keryx_binding_pending
    ∷ JoinSessionState.keryx_binding_verified ∷ JoinSessionState.fleet_projection_pending
    ∷ JoinSessionState.active ∷ []

abbrev stages_passed : JoinSessionState → ℕ
stages_passed JoinSessionState.created = 0
stages_passed JoinSessionState.invitation_validated = 1
stages_passed JoinSessionState.provider_credential_issuing = 2
stages_passed JoinSessionState.provider_credential_issued = 3
stages_passed JoinSessionState.mesh_join_observed = 4
stages_passed JoinSessionState.agent_registered = 5
stages_passed JoinSessionState.keryx_binding_pending = 6
stages_passed JoinSessionState.keryx_binding_verified = 7
stages_passed JoinSessionState.fleet_projection_pending = 8
stages_passed _ = 9

abbrev pub stages_left : JoinSessionState → List JoinSessionState
stages_left s = drop (stages_passed s) join_stages

-- The states from which no session becomes active.
abbrev is_off_route : JoinSessionState → Bool
is_off_route JoinSessionState.provider_credential_ambiguous = true
is_off_route JoinSessionState.provider_credential_revocation_pending = true
is_off_route JoinSessionState.expired = true
is_off_route JoinSessionState.failed = true
is_off_route JoinSessionState.revoked = true
is_off_route _ = false

off_route_stays :
    (a b : JoinSessionState)
    → join_lifecycle.allowed a b ≡ true
    → is_off_route a ≡ true
    → is_off_route b ≡ true
off_route_stays a b h k = ground arith

follow_stages :
    (a b : JoinSessionState)
    → join_lifecycle.allowed a b ≡ true
    → (is_off_route b ≡ true) ⊎ (stages_left a ≡ b ∷ stages_left b)
follow_stages a b h = ground arith

abbrev join_route : Route join_lifecycle JoinSessionState.active
join_route = record {
  remaining = stages_left;
  strayed = is_off_route;
  arrived = refl;
  goal_not_strayed = refl;
  stray = off_route_stays;
  follow = follow_stages;
}

-- A join session that becomes active has been asked for every stage after the one it was in, in
-- order: from `created`, the mesh join, the agent's registration, the verified Keryx binding and
-- the fleet projection among them. No refused or repeated attempt replaces one.
pub active-InOrder :
    (s : JoinSessionState) (ns : List JoinSessionState)
    → attempts s ns ≡ JoinSessionState.active
    → InOrder (stages_left s) ns
active-InOrder s ns e = arrival-InOrder join_route s ns e

-- The steps of a revocation, and how many of them are done.
abbrev revocation_steps : List RevocationState
revocation_steps =
    RevocationState.application_trust_removal_pending
    ∷ RevocationState.credential_revocation_pending ∷ RevocationState.keryx_binding_disable_pending
    ∷ RevocationState.provider_cleanup_pending ∷ RevocationState.revoked ∷ []

abbrev steps_done : RevocationState → ℕ
steps_done RevocationState.requested = 0
steps_done RevocationState.application_trust_removal_pending = 1
steps_done RevocationState.credential_revocation_pending = 2
steps_done RevocationState.keryx_binding_disable_pending = 3
steps_done RevocationState.provider_cleanup_pending = 4
steps_done RevocationState.revoked = 5

abbrev pub steps_left : RevocationState → List RevocationState
steps_left s = drop (steps_done s) revocation_steps

follow_steps :
    (a b : RevocationState)
    → revocation_lifecycle.allowed a b ≡ true
    → (◌≡◌ {A = Bool} false true) ⊎ (steps_left a ≡ b ∷ steps_left b)
follow_steps a b h = ground arith

abbrev revocation_route : Route revocation_lifecycle RevocationState.revoked
revocation_route = record {
  remaining = steps_left;
  strayed = λ _. false;
  arrived = refl;
  goal_not_strayed = refl;
  stray = λ _ _ _ h. h;
  follow = follow_steps;
}

-- A revocation that is complete has been asked for every step after the one it stood at, in
-- order: application trust is removed before the credential is revoked, then the Keryx binding is
-- disabled, then the provider is cleaned up.
pub revoked-InOrder :
    (s : RevocationState) (ns : List RevocationState)
    → attempts s ns ≡ RevocationState.revoked
    → InOrder (steps_left s) ns
revoked-InOrder s ns e = arrival-InOrder revocation_route s ns e
