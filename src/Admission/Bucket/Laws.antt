-- ===== src/Admission/Bucket/Laws.antt =====
-- crates/nodescale-redemption-ingress/src/lib.rs: what a `Bucket` keeps, and what its tokens cost
-- in time.
use hermes_nodescale.Prelude.{
  ℕ, ◌+◌, ◌-◌, ◌*◌, ◌/◌, ◌%◌, ◌^◌, ◌≤◌, ◌≡◌, inl, inr, ap, min, max, arith, ◌==◌, Bool-cases,
}
use native.Mathlib.Nat.{
  mul-le-mul, mul-le-mul_right, mul-le-mul_left, mul-div-le, add-mul, mul_comm,
}
use hermes_nodescale.Admission.Bucket.{
  allowed, Bucket, u32_max, saturating_mul, refill, availability, debit,
}

-- A bucket whose counters fit and whose interval is that of some accepted configuration.
pub record IsSound (b : Bucket) : Type 0 where
  pub capped : b.tokens ≤ b.burst
  pub small : b.burst ≤ 1_024
  pub has_room : 1 ≤ b.burst
  pub slow : 1 ≤ b.refill_interval
  pub hourly : b.refill_interval ≤ 3_600_000_000_000

refill_amount : (i n : ℕ) → i ≤ 3_600_000_000_000 → n ≤ u32_max → saturating_mul i n ≡ i * n
refill_amount i n h k = omega (arith, mul-le-mul h k)

pub refill-IsSound : (b : Bucket) (now : ℕ) → IsSound b → IsSound (refill b now)
unfolding refill
refill-IsSound b now h = ground arith

-- A refill pays for each token that it adds with one interval of the bucket's clock, which never
-- passes the latest instant seen.
pub record Refilled (b b' : Bucket) (now : ℕ) : Type 0 where
  pub same_interval : b'.refill_interval ≡ b.refill_interval
  pub same_burst : b'.burst ≡ b.burst
  pub paid :
      b'.tokens * b.refill_interval + b.last_refill ≤ b.tokens * b.refill_interval + b'.last_refill
  pub forward : b.last_refill ≤ b'.last_refill
  pub not_ahead : b'.last_refill ≤ max b.last_refill now

pub refill-Refilled : (b : Bucket) (now : ℕ) → IsSound b → Refilled b (refill b now) now
unfolding refill
refill-Refilled b now h = elim (Bool-cases ((now - b.last_refill) / b.refill_interval == 0)) [
  | inl idle ↦ record {
    same_interval = ground arith;
    same_burst = ground arith;
    paid = ground arith;
    forward = ground arith;
    not_ahead = ground arith;
  }
  | inr due ↦
      let i = b.refill_interval in
      let n = min ((now - b.last_refill) / i) u32_max in
      let e : saturating_mul i n ≡ i * n = refill_amount i n h.hourly (omega arith) in
      let t = min (min (b.tokens + n) u32_max) b.burst in
      let cost : t * i ≤ (b.tokens + n) * i = mul-le-mul_right i (omega arith) in
      let spread : (b.tokens + n) * i ≡ b.tokens * i + n * i = add-mul b.tokens n i in
      let turn : n * i ≡ i * n = mul_comm n i in
      let whole : i * n ≤ i * ((now - b.last_refill) / i) = mul-le-mul_left i (omega arith) in
      let fits : i * ((now - b.last_refill) / i) ≤ now - b.last_refill = mul-div-le _ i in
      record {
        same_interval = ground arith;
        same_burst = ground arith;
        paid = ground arith;
        forward = ground arith;
        not_ahead = ground arith;
      }
]

pub availability-Refilled :
    (b : Bucket) (now : ℕ) → IsSound b → Refilled b (availability b now).0 now
unfolding availability
availability-Refilled b now h = let r = refill-Refilled b now h in ground (arith, r)

pub availability-IsSound : (b : Bucket) (now : ℕ) → IsSound b → IsSound (availability b now).0
unfolding availability
availability-IsSound b now h = let r = refill-IsSound b now h in ground (arith, r)

pub availability-allowed :
    (b : Bucket) (now : ℕ) → (availability b now).1 ≡ allowed → 1 ≤ (availability b now).0.tokens
unfolding availability
availability-allowed b now h = ground arith

-- A debit at a token in hand takes that token: the u32 does not wrap.
pub debit_exact :
    (b : Bucket) → IsSound b → 1 ≤ b.tokens → debit b ≡ record b { tokens = b.tokens - 1 }
unfolding debit
debit_exact b h k =
    let e : (b.tokens + 2 ^ 32 - 1) % 2 ^ 32 ≡ b.tokens - 1 = omega arith in
    ap (λ (t : ℕ). record b { tokens = t }) e

pub debit-IsSound : (b : Bucket) → IsSound b → 1 ≤ b.tokens → IsSound (debit b)
debit-IsSound b h k = rw (debit_exact b h k) (ground arith)
