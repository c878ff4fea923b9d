-- ===== src/Domain/Lifecycle/Revoked.antt =====
-- crates/nodescale-domain/src/lib.rs: the final and one-way states of the lifecycles, under every
-- sequence of attempts.
use hermes_nodescale.Prelude.{ℕ, ◌≤◌, ◌<◌, ◌≡◌, refl, Bool, true, false, List, [], ◌∷◌, ok, arith}
use hermes_nodescale.Domain.Lifecycle.{Lifecycle, transition}
use hermes_nodescale.Domain.Lifecycle.Runs.{attempts, attempts_keep}
use hermes_nodescale.Domain.Lifecycle.Network.{NetworkState, network_lifecycle}
use hermes_nodescale.Domain.Lifecycle.Membership.{MembershipState, membership_lifecycle}
use hermes_nodescale.Domain.Lifecycle.Trust.{DeviceTrustState, trust_lifecycle}
use hermes_nodescale.Domain.Lifecycle.ProviderBinding.{
  ProviderBindingState, provider_binding_lifecycle,
}
use hermes_nodescale.Domain.Lifecycle.Projection.{ProjectionStatus, projection_lifecycle}
use hermes_nodescale.Domain.Lifecycle.Revocation.{RevocationState, revocation_lifecycle}
use hermes_nodescale.Domain.Lifecycle.Invitation.{InvitationState, invitation_lifecycle}
use hermes_nodescale.Domain.Lifecycle.Keryx.{KeryxBindingState, keryx_transition}

final_stays :
    {S : Type 0} ⦃m : Lifecycle S⦄ (s : S) (ns : List S)
    → ((n : S) → m.allowed s n ≡ false)
    → attempts s ns ≡ s
final_stays {S} ⦃m⦄ s ns final =
    attempts_keep (λ t. t ≡ s) (λ a b ok_move e. absurd (clash a b ok_move e)) s ns refl
  where
    clash : (a b : S) → m.allowed a b ≡ true → a ≡ s → ⊥
    clash a b ok_move e = cc (ok_move, final b, e)

-- A revoked network, membership, device trust, projection or revocation stays revoked, and a
-- removed provider binding stays removed, whatever transitions are attempted afterwards.
revoked_stays :
    ((ns : List NetworkState) → attempts NetworkState.revoked ns ≡ NetworkState.revoked)
    × ((ns : List MembershipState) → attempts MembershipState.revoked ns ≡ MembershipState.revoked)
    × ((ns : List DeviceTrustState)
        → attempts DeviceTrustState.revoked ns ≡ DeviceTrustState.revoked)
    × ((ns : List ProjectionStatus)
        → attempts ProjectionStatus.revoked ns ≡ ProjectionStatus.revoked)
    × ((ns : List RevocationState) → attempts RevocationState.revoked ns ≡ RevocationState.revoked)
    × ((ns : List ProviderBindingState)
        → attempts ProviderBindingState.removed ns ≡ ProviderBindingState.removed)
revoked_stays = (
  λ ns. final_stays NetworkState.revoked ns (λ n. ground arith),
  λ ns. final_stays MembershipState.revoked ns (λ n. ground arith),
  λ ns. final_stays DeviceTrustState.revoked ns (λ n. ground arith),
  λ ns. final_stays ProjectionStatus.revoked ns (λ n. ground arith),
  λ ns. final_stays RevocationState.revoked ns (λ n. ground arith),
  λ ns. final_stays ProviderBindingState.removed ns (λ n. ground arith),
)

-- Every network and every membership, in whatever state, is revoked by asking for `revoking` and
-- then `revoked`; every device trust and every projection by asking for `revoked`.
can_be_revoked :
    ((s : NetworkState)
      → attempts s (NetworkState.revoking ∷ NetworkState.revoked ∷ []) ≡ NetworkState.revoked)
    × ((s : MembershipState)
        → attempts s (MembershipState.revoking ∷ MembershipState.revoked ∷ [])
          ≡ MembershipState.revoked)
    × ((s : DeviceTrustState)
        → attempts s (DeviceTrustState.revoked ∷ []) ≡ DeviceTrustState.revoked)
    × ((s : ProjectionStatus)
        → attempts s (ProjectionStatus.revoked ∷ []) ≡ ProjectionStatus.revoked)
unfolding attempts transition
can_be_revoked = (λ s. ground arith, λ s. ground arith, λ s. ground arith, λ s. ground arith)

abbrev pub phase : MembershipState → ℕ
phase MembershipState.pending = 0
phase MembershipState.joining = 1
phase MembershipState.active = 2
phase MembershipState.suspended = 3
phase MembershipState.revoking = 4
phase MembershipState.revoked = 5

-- A membership never returns to an earlier state: in the order pending, joining, active,
-- suspended, revoking, revoked, no sequence of attempts leads backwards, so a suspended device is
-- never active again.
pub membership_never_returns :
    (s : MembershipState) (ns : List MembershipState) → phase s ≤ phase (attempts s ns)
membership_never_returns s ns =
    attempts_keep (λ t. phase s ≤ phase t) (λ a b m h. climbs s a b m h) s ns (omega arith)
  where
    climbs :
        (s a b : MembershipState)
        → membership_lifecycle.allowed a b ≡ true
        → phase s ≤ phase a
        → phase s ≤ phase b
    climbs s a b m h = ground arith

-- An invitation in one of these states can no longer be redeemed.
abbrev pub is_spent : InvitationState → Bool
is_spent InvitationState.issued = false
is_spent InvitationState.redeeming = false
is_spent InvitationState.redeemed = false
is_spent _ = true

-- Once an invitation is consumed, failed, exhausted, or on its way to being revoked or expired, no
-- sequence of attempts makes it issued, redeeming or redeemed again.
pub spent_invitation_stays_spent :
    (s : InvitationState) (ns : List InvitationState)
    → is_spent s ≡ true
    → is_spent (attempts s ns) ≡ true
spent_invitation_stays_spent s ns h = attempts_keep (λ t. is_spent t ≡ true) stays s ns h
  where
    stays :
        (a b : InvitationState)
        → invitation_lifecycle.allowed a b ≡ true
        → is_spent a ≡ true
        → is_spent b ≡ true
    stays a b m k = ground arith

abbrev pub binding_phase : KeryxBindingState → ℕ
binding_phase KeryxBindingState.pending = 0
binding_phase KeryxBindingState.active = 1
binding_phase KeryxBindingState.stale = 2
binding_phase KeryxBindingState.rotated = 3
binding_phase KeryxBindingState.revoked = 3

-- A Keryx binding only moves forward, in the order pending, active, stale, and then rotated or
-- revoked, which are final: every transition that is accepted gives the state asked for and goes
-- up in this order.
pub keryx_only_forward :
    (s next t : KeryxBindingState)
    → keryx_transition s next ≡ ok t
    → (t ≡ next) × (binding_phase s < binding_phase t)
unfolding keryx_transition
keryx_only_forward s next t h = ground arith
