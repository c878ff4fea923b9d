-- ===== src/Admission/Limits/Laws.antt =====
-- crates/nodescale-redemption-ingress/src/lib.rs: the ranges that `AdmissionLimits` are checked
-- for.
use hermes_nodescale.Prelude.{ℕ, ◌≤◌, ◌≡◌, ok, arith}
use hermes_nodescale.Admission.Limits.{AdmissionLimits, bounded, with_initial_tokens}

-- The ranges that the buckets rely on: bursts that a u32 holds with room to spare, initial tokens
-- within them, and refill intervals of at most an hour.
pub record IsAccepted (l : AdmissionLimits) : Type 0 where
  pub source_burst_small : l.source_burst ≤ 1_024
  pub source_tokens : l.source_initial_tokens ≤ l.source_burst
  pub source_room : 1 ≤ l.source_burst
  pub source_slow : 1 ≤ l.source_refill_interval
  pub source_hourly : l.source_refill_interval ≤ 3_600_000_000_000
  pub global_burst_small : l.global_burst ≤ 1_024
  pub global_tokens : l.global_initial_tokens ≤ l.global_burst
  pub global_room : 1 ≤ l.global_burst
  pub global_slow : 1 ≤ l.global_refill_interval
  pub global_hourly : l.global_refill_interval ≤ 3_600_000_000_000

-- Limits that `bounded` accepts, and those that `with_initial_tokens` makes of such limits, are in
-- the ranges that the buckets rely on; they keep the values given, and the hard ceilings hold:
-- bodies of at most 4096 bytes, at most 65536 tracked sources and 64 queued commands.
pub limits-IsAccepted :
    (body burst interval global global_interval sources queue s g : ℕ) {l m : AdmissionLimits}
    → bounded body burst interval global global_interval sources queue ≡ ok l
    → with_initial_tokens l s g ≡ ok m
    → IsAccepted l
      × IsAccepted m
      × (m.request_body_bytes ≡ body)
      × (body ≤ 4_096)
      × (m.maximum_tracked_sources ≡ sources)
      × (sources ≤ 65_536)
      × (m.worker_queue_capacity ≡ queue)
      × (queue ≤ 64)
      × (m.source_initial_tokens ≡ s)
      × (m.global_initial_tokens ≡ g)
unfolding bounded with_initial_tokens
limits-IsAccepted body burst interval global global_interval sources queue s g h k = ground arith
