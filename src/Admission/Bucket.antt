-- ===== src/Admission/Bucket.antt =====
-- crates/nodescale-redemption-ingress/src/lib.rs: `Bucket`, a token bucket over u32 counters. An
-- instant is a number of nanoseconds; `saturating_duration_since` is the subtraction that stops at
-- 0, and `Duration::saturating_mul` stops at `Duration::MAX`.
pub mod Laws
pub mod Retry
use hermes_nodescale.Prelude.{
  ℕ, ◌+◌, ◌-◌, ◌*◌, ◌/◌, ◌%◌, ◌^◌, min, max, Bool, ltb, ◌==◌, if◌then◌else◌,
}

pub data AdmissionDecision : Type 0 where
  allowed : AdmissionDecision
  limited : ℕ → AdmissionDecision

pub record Bucket : Type 0 where
  pub tokens : ℕ
  pub burst : ℕ
  pub refill_interval : ℕ
  pub last_refill : ℕ

abbrev pub u32_max : ℕ
u32_max = 2 ^ 32 - 1

abbrev pub duration_max : ℕ
duration_max = 2 ^ 64 * 1_000_000_000 - 1

-- `Duration::saturating_mul`
abbrev pub saturating_mul : ℕ → ℕ → ℕ
saturating_mul d n = min (d * n) duration_max

unfoldable pub new_bucket : ℕ → ℕ → ℕ → ℕ → Bucket
new_bucket burst refill_interval initial_tokens now = record {
  tokens = initial_tokens;
  burst = burst;
  refill_interval = refill_interval;
  last_refill = now;
}

unfoldable pub refill : Bucket → ℕ → Bucket
refill b now =
    let elapsed = now - b.last_refill in
    let intervals = elapsed / b.refill_interval in
    let added = min intervals u32_max in
    if b.refill_interval == 0 then b else if intervals == 0 then b else record b {
      tokens = min (min (b.tokens + added) u32_max) b.burst;
      last_refill = b.last_refill + saturating_mul b.refill_interval added;
    }

unfoldable pub availability : Bucket → ℕ → Bucket × AdmissionDecision
availability b now =
    let r = refill b now in
    if ltb 0 r.tokens
    then (r, allowed)
    else (r, limited (max (r.refill_interval - (now - r.last_refill)) 1_000_000))

-- `self.tokens -= 1` on a u32, which wraps at 0 where overflow checks are off.
unfoldable pub debit : Bucket → Bucket
debit b = record b { tokens = (b.tokens + 2 ^ 32 - 1) % 2 ^ 32 }
