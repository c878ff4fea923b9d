-- ===== src/Domain/Lifecycle/Membership.antt =====
-- crates/nodescale-domain/src/lib.rs: `MembershipState`.
use hermes_nodescale.Prelude.{String, Bool, true, false}
use hermes_nodescale.Domain.Lifecycle.{Lifecycle}

pub data MembershipState : Type 0 where
  pending joining active suspended revoking revoked : MembershipState

abbrev pub MembershipState-discrete : Discrete MembershipState
MembershipState-discrete = hlevel

-- the pattern of the macro's call
abbrev allowed : MembershipState → MembershipState → Bool
allowed pending joining = true
allowed pending revoking = true
allowed pending revoked = true
allowed joining active = true
allowed joining revoking = true
allowed joining revoked = true
allowed active suspended = true
allowed active revoking = true
allowed suspended revoking = true
allowed revoking revoked = true
allowed _ _ = false

abbrev as_str : MembershipState → String
as_str pending = "Pending"
as_str joining = "Joining"
as_str active = "Active"
as_str suspended = "Suspended"
as_str revoking = "Revoking"
as_str revoked = "Revoked"

instance abbrev pub membership_lifecycle : Lifecycle MembershipState
membership_lifecycle = record { eq = MembershipState-discrete; allowed = allowed; as_str = as_str }
