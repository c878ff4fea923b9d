-- ===== src/Admission/Bucket/Retry.antt =====
-- crates/nodescale-redemption-ingress/src/lib.rs: `Bucket::availability` and the delay that it
-- answers.
use hermes_nodescale.Prelude.{ℕ, ◌+◌, ◌-◌, ◌/◌, ◌≤◌, ◌≡◌, arith}
use native.Mathlib.Nat.{le-div_iff_mul-le}
use hermes_nodescale.Admission.Bucket.{allowed, limited, Bucket, refill, availability}
use hermes_nodescale.Admission.Bucket.Laws.{IsSound, refill-Refilled, refill-IsSound}

-- A refill after a whole interval leaves at least one token.
refilled_after :
    (b : Bucket) (now : ℕ)
    → IsSound b
    → b.last_refill + b.refill_interval ≤ now
    → 1 ≤ (refill b now).tokens
unfolding refill
refilled_after b now h due =
    let whole : 1 ≤ (now - b.last_refill) / b.refill_interval =
      (le-div_iff_mul-le {k = b.refill_interval} h.slow).1 (omega arith) in
    ground (arith, whole)

-- A bucket that limits a request, on a clock that has not gone back behind its last refill, says
-- after how long to retry: at least a millisecond, and if nothing else happens in between, it
-- allows a request at that time or later.
pub retry_is_honest :
    (b : Bucket) (now wait later : ℕ)
    → IsSound b
    → b.last_refill ≤ now
    → (availability b now).1 ≡ limited wait
    → now + wait ≤ later
    → (1_000_000 ≤ wait) × ((availability (availability b now).0 later).1 ≡ allowed)
unfolding availability
retry_is_honest b now wait later h clock e w =
    let r = refill b now in
    let sound = refill-IsSound b now h in
    let filled = refill-Refilled b now h in
    let behind : r.last_refill ≤ now = omega (arith, filled.not_ahead) in
    let asked : (r.refill_interval - (now - r.last_refill)) ≤ wait = ground (arith, e) in
    let due : r.last_refill + r.refill_interval ≤ later = omega arith in
    let one = refilled_after r later sound due in (ground (arith, e), ground (arith, e, one))
