-- ===== src/Admission/Limits.antt =====
-- crates/nodescale-redemption-ingress/src/lib.rs: `AdmissionLimits`. Durations and instants are
-- numbers of nanoseconds; a `NonZero` integer is its value.
pub mod Laws
use hermes_nodescale.Prelude.{
  ℕ, ◌*◌, ◌^◌, ◌-◌, String, Bool, not, ◌||◌, ok, err, Result, ◌>>=◌, ◌>>◌, fail_if, ltb, ◌==◌,
  in_range,
}

pub record AdmissionLimits : Type 0 where
  pub request_body_bytes : ℕ
  pub source_burst : ℕ
  pub global_burst : ℕ
  pub source_refill_interval : ℕ
  pub global_refill_interval : ℕ
  pub maximum_tracked_sources : ℕ
  pub worker_queue_capacity : ℕ
  pub source_initial_tokens : ℕ
  pub global_initial_tokens : ℕ
  pub argon_concurrency : ℕ
  pub provider_create_concurrency : ℕ

pub data AdmissionLimitError : Type 0 where
  out_of_range : String → AdmissionLimitError

abbrev pub millis : ℕ → ℕ
millis n = n * 1_000_000

abbrev pub seconds : ℕ → ℕ
seconds n = n * 1_000_000_000

-- `if !range.contains(&value) { return Err(OutOfRange(name)) }`
abbrev within : ℕ → ℕ → ℕ → String → Result AdmissionLimitError (Unit {0})
within lo hi value name = fail_if (not (in_range lo hi value)) (out_of_range name)

unfoldable pub bounded : ℕ → ℕ → ℕ → ℕ → ℕ → ℕ → ℕ → Result AdmissionLimitError AdmissionLimits
bounded body source_burst source_interval global_burst global_interval sources queue = do
  within 1 4_096 body "request_body_bytes"
  within 1 64 source_burst "source_burst"
  within 1 1_024 global_burst "global_burst"
  within 1 65_536 sources "maximum_tracked_sources"
  within 1 64 queue "worker_queue_capacity"
  within (millis 10) (seconds 3_600) source_interval "source_refill_interval"
  within (millis 10) (seconds 3_600) global_interval "global_refill_interval"
  ok (record {
    request_body_bytes = body;
    source_burst = source_burst;
    global_burst = global_burst;
    source_refill_interval = source_interval;
    global_refill_interval = global_interval;
    maximum_tracked_sources = sources;
    worker_queue_capacity = queue;
    source_initial_tokens = 1;
    global_initial_tokens = 1;
    argon_concurrency = 1;
    provider_create_concurrency = 1;
  })

unfoldable pub safe_defaults : Result AdmissionLimitError AdmissionLimits
unfolding bounded
safe_defaults = bounded 256 4 (seconds 30) 16 (seconds 1) 1_024 2

unfoldable pub with_initial_tokens :
    AdmissionLimits → ℕ → ℕ → Result AdmissionLimitError AdmissionLimits
with_initial_tokens l source_initial global_initial = do
  fail_if (source_initial == 0 || ltb l.source_burst source_initial)
      (out_of_range "source_initial_tokens")
  fail_if (global_initial == 0 || ltb l.global_burst global_initial)
      (out_of_range "global_initial_tokens")
  ok (record l { source_initial_tokens = source_initial; global_initial_tokens = global_initial })
