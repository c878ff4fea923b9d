-- ===== src/Domain/Lifecycle/Keryx.antt =====
-- crates/nodescale-domain/src/lib.rs: `KeryxBindingState`, whose `transition` is written by hand
-- and refuses a move to the same state.
use hermes_nodescale.Prelude.{String, Bool, true, false, ok, err, if◌then◌else◌}
use hermes_nodescale.Domain.Error.{Checked, invalid_transition}

pub data KeryxBindingState : Type 0 where
  pending active stale rotated revoked : KeryxBindingState

abbrev allowed : KeryxBindingState → KeryxBindingState → Bool
allowed pending active = true
allowed pending revoked = true
allowed active stale = true
allowed active rotated = true
allowed active revoked = true
allowed stale rotated = true
allowed stale revoked = true
allowed _ _ = false

abbrev as_str : KeryxBindingState → String
as_str pending = "pending"
as_str active = "active"
as_str stale = "stale"
as_str rotated = "rotated"
as_str revoked = "revoked"

unfoldable pub keryx_transition : KeryxBindingState → KeryxBindingState → Checked KeryxBindingState
keryx_transition s next =
    if allowed s next then ok next else err (invalid_transition (as_str s) (as_str next))
