-- ===== src/Domain/Lifecycle/Projection.antt =====
-- crates/nodescale-domain/src/lib.rs: `ProjectionStatus`.
use hermes_nodescale.Prelude.{String, Bool, true, false}
use hermes_nodescale.Domain.Lifecycle.{Lifecycle}

pub data ProjectionStatus : Type 0 where
  not_requested pending applied failed_retryable conflict revoked : ProjectionStatus

abbrev pub ProjectionStatus-discrete : Discrete ProjectionStatus
ProjectionStatus-discrete = hlevel

-- the pattern of the macro's call
abbrev allowed : ProjectionStatus → ProjectionStatus → Bool
allowed not_requested pending = true
allowed not_requested revoked = true
allowed pending applied = true
allowed pending failed_retryable = true
allowed pending conflict = true
allowed pending revoked = true
allowed failed_retryable pending = true
allowed failed_retryable revoked = true
allowed conflict pending = true
allowed conflict revoked = true
allowed applied pending = true
allowed applied revoked = true
allowed _ _ = false

abbrev as_str : ProjectionStatus → String
as_str not_requested = "NotRequested"
as_str pending = "Pending"
as_str applied = "Applied"
as_str failed_retryable = "FailedRetryable"
as_str conflict = "Conflict"
as_str revoked = "Revoked"

instance abbrev pub projection_lifecycle : Lifecycle ProjectionStatus
projection_lifecycle = record { eq = ProjectionStatus-discrete; allowed = allowed; as_str = as_str }
