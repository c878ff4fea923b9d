-- ===== src/Admission/Controller/Examples.antt =====
-- The properties of the controller and its parts at concrete requests.
use hermes_nodescale.Prelude.{◌+◌, ◌-◌, ◌*◌, ◌≤◌, ◌≡◌, refl, List, [], ◌∷◌, ok, arith}
use hermes_nodescale.Admission.Limits.{
  AdmissionLimits, millis, seconds, bounded, with_initial_tokens,
}
use hermes_nodescale.Admission.Limits.Laws.{IsAccepted, limits-IsAccepted}
use hermes_nodescale.Admission.Bucket.{allowed, limited, Bucket, refill, availability}
use hermes_nodescale.Admission.Bucket.Laws.{IsSound}
use hermes_nodescale.Admission.Bucket.Retry.{retry_is_honest}
use hermes_nodescale.Admission.Controller.{v4, v6, new_controller}
use hermes_nodescale.Admission.Controller.Table.{IsValid}
use hermes_nodescale.Admission.Controller.Rate.{
  Request, serve, AllBy, served-IsValid, admitted_rate,
}

-- The limits of `safe_defaults`.
abbrev defaults : AdmissionLimits
defaults = record {
  request_body_bytes = 256;
  source_burst = 4;
  global_burst = 16;
  source_refill_interval = seconds 30;
  global_refill_interval = seconds 1;
  maximum_tracked_sources = 1_024;
  worker_queue_capacity = 2;
  source_initial_tokens = 1;
  global_initial_tokens = 1;
  argon_concurrency = 1;
  provider_create_concurrency = 1;
}

defaults_bounded : bounded 256 4 (seconds 30) 16 (seconds 1) 1_024 2 ≡ ok defaults
unfolding bounded
defaults_bounded = refl

abbrev warm : AdmissionLimits
warm = record defaults { source_initial_tokens = 2; global_initial_tokens = 8 }

warm_accepted : with_initial_tokens defaults 2 8 ≡ ok warm
unfolding with_initial_tokens
warm_accepted = refl

warm-IsAccepted : IsAccepted warm
warm-IsAccepted =
    (limits-IsAccepted 256 4 (seconds 30) 16 (seconds 1) 1_024 2 2 8 defaults_bounded
      warm_accepted).1

-- Two sources, one of them under two names, over three seconds.
abbrev requests : List Request
requests =
    (v4 0x0a000001, seconds 11)
    ∷ (v6 0xffff0a000001, seconds 11)
    ∷ (v6 0x20010db8, seconds 12)
    ∷ (v4 0x0a000001, seconds 13)
    ∷ []

requests_by : AllBy (seconds 14) requests
requests_by = (omega arith, (omega arith, (omega arith, (omega arith, tt))))

served-IsValid_example :
    IsValid (serve (λ sources. sources) (new_controller warm (seconds 10)) requests).0
served-IsValid_example =
    served-IsValid (λ sources. sources) warm (seconds 10) requests warm-IsAccepted

admitted_rate_example :
    (serve (λ sources. sources) (new_controller warm (seconds 10)) requests).1 * seconds 1
    ≤ 8 * seconds 1 + (seconds 14 - seconds 10)
admitted_rate_example =
    admitted_rate (λ sources. sources) warm (seconds 10) (seconds 14) requests warm-IsAccepted
      (omega arith) requests_by

-- An empty bucket, a quarter into its interval.
abbrev empty : Bucket
empty = record { tokens = 0; burst = 4; refill_interval = seconds 1; last_refill = seconds 5 }

empty-IsSound : IsSound empty
empty-IsSound = record {
  capped = omega arith;
  small = omega arith;
  has_room = omega arith;
  slow = omega arith;
  hourly = omega arith;
}

empty_limited : (availability empty (millis 5_250)).1 ≡ limited (millis 750)
unfolding availability refill
empty_limited = refl

retry_is_honest_example :
    (1_000_000 ≤ millis 750)
    × ((availability (availability empty (millis 5_250)).0 (seconds 6)).1 ≡ allowed)
retry_is_honest_example =
    retry_is_honest empty (millis 5_250) (millis 750) (seconds 6) empty-IsSound (omega arith)
      empty_limited (omega arith)
