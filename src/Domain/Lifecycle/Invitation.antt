-- ===== src/Domain/Lifecycle/Invitation.antt =====
-- crates/nodescale-domain/src/lib.rs: `InvitationState`.
use hermes_nodescale.Prelude.{String, Bool, true, false}
use hermes_nodescale.Domain.Lifecycle.{Lifecycle}

pub data InvitationState : Type 0 where
  issued redeeming consumed revoking expiring failed redeemed exhausted expired revoked :
      InvitationState

abbrev pub InvitationState-discrete : Discrete InvitationState
InvitationState-discrete = hlevel

-- the pattern of the macro's call
abbrev allowed : InvitationState → InvitationState → Bool
allowed issued redeeming = true
allowed issued revoking = true
allowed issued expiring = true
allowed issued redeemed = true
allowed issued exhausted = true
allowed issued expired = true
allowed issued revoked = true
allowed redeeming consumed = true
allowed redeeming revoking = true
allowed redeeming expiring = true
allowed redeeming failed = true
allowed redeeming expired = true
allowed redeeming revoked = true
allowed failed revoking = true
allowed failed expiring = true
allowed consumed revoking = true
allowed consumed expiring = true
allowed revoking revoked = true
allowed revoking failed = true
allowed expiring expired = true
allowed expiring failed = true
allowed redeemed exhausted = true
allowed redeemed revoking = true
allowed redeemed expiring = true
allowed redeemed expired = true
allowed redeemed revoked = true
allowed _ _ = false

abbrev as_str : InvitationState → String
as_str issued = "Issued"
as_str redeeming = "Redeeming"
as_str consumed = "Consumed"
as_str revoking = "Revoking"
as_str expiring = "Expiring"
as_str failed = "Failed"
as_str redeemed = "Redeemed"
as_str exhausted = "Exhausted"
as_str expired = "Expired"
as_str revoked = "Revoked"

instance abbrev pub invitation_lifecycle : Lifecycle InvitationState
invitation_lifecycle = record { eq = InvitationState-discrete; allowed = allowed; as_str = as_str }
