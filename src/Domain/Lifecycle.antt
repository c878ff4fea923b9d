-- ===== src/Domain/Lifecycle.antt =====
-- crates/nodescale-domain/src/lib.rs: the macro `transition_enum!`, as a function over the enum's
-- equality, its table of allowed moves and its names. The children declare one enum each; `Runs`
-- and `Routes` prove what holds of every sequence of attempted transitions.
pub mod Network
pub mod Membership
pub mod Trust
pub mod ProviderBinding
pub mod Invitation
pub mod Join
pub mod Keryx
pub mod Projection
pub mod Revocation
pub mod Runs
mod Routes
mod Revoked
mod Stages
mod Examples
use hermes_nodescale.Prelude.{
  ◌≡◌, ◌⊎◌, String, Bool, true, false, ◌||◌, List, [], ◌∷◌, ok, err, arith, if◌then◌else◌,
}
use hermes_nodescale.Domain.Error.{Checked, invalid_transition}

pub record Lifecycle (S : Type 0) : Type 0 where
  pub eq : Discrete S
  pub allowed : S → S → Bool
  pub as_str : S → String

-- the derived `==`
abbrev pub same : {S : Type 0} → Discrete S → S → S → Bool
same eq a b = elim (eq a b) [ yes _ ↦ true | no _ ↦ false ]

module _ {S : Type 0} ⦃m : Lifecycle S⦄ where
  unfoldable pub transition : S → S → Checked S
  transition s next =
      if same m.eq s next || m.allowed s next
      then ok next
      else err (invalid_transition (m.as_str s) (m.as_str next))
