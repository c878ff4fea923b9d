-- ===== src/Domain/Lifecycle/ProviderBinding.antt =====
-- crates/nodescale-domain/src/lib.rs: `ProviderBindingState`.
use hermes_nodescale.Prelude.{String, Bool, true, false}
use hermes_nodescale.Domain.Lifecycle.{Lifecycle}

pub data ProviderBindingState : Type 0 where
  active stale cleanup_pending removed : ProviderBindingState

abbrev pub ProviderBindingState-discrete : Discrete ProviderBindingState
ProviderBindingState-discrete = hlevel

-- the pattern of the macro's call
abbrev allowed : ProviderBindingState → ProviderBindingState → Bool
allowed active stale = true
allowed active cleanup_pending = true
allowed stale active = true
allowed stale cleanup_pending = true
allowed stale removed = true
allowed cleanup_pending removed = true
allowed _ _ = false

abbrev as_str : ProviderBindingState → String
as_str active = "Active"
as_str stale = "Stale"
as_str cleanup_pending = "CleanupPending"
as_str removed = "Removed"

instance abbrev pub provider_binding_lifecycle : Lifecycle ProviderBindingState
provider_binding_lifecycle = record {
  eq = ProviderBindingState-discrete;
  allowed = allowed;
  as_str = as_str;
}
