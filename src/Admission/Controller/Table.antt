-- ===== src/Admission/Controller/Table.antt =====
-- crates/nodescale-redemption-ingress/src/lib.rs: the table of sources and the
-- well-formedness of `InMemoryAdmissionController`.
use hermes_nodescale.Prelude.{ℕ, ◌+◌, ◌≤◌, ◌≡◌, true, [], ◌∷◌, some, arith, length, is_some}
use hermes_nodescale.Admission.Limits.{AdmissionLimits}
use hermes_nodescale.Admission.Limits.Laws.{IsAccepted}
use hermes_nodescale.Admission.Bucket.{new_bucket}
use hermes_nodescale.Admission.Bucket.Laws.{IsSound}
use hermes_nodescale.Admission.Controller.{
  IpAddr, v4, v6, ip_eq, SourceBucket, Sources, lookup, insert, remove, Controller, new_controller,
}

abbrev pub AllSound : Sources → Type 0
AllSound [] = Unit
AllSound ((k, s) ∷ m) = IsSound s.bucket × AllSound m

pub record IsValid (c : Controller) : Type 0 where
  pub accepted : IsAccepted c.limits
  pub global_sound : IsSound c.global
  pub overflow_sound : IsSound c.overflow
  pub sources_sound : AllSound c.sources
  pub bounded : length c.sources ≤ c.limits.maximum_tracked_sources

pub AllSound-insert :
    (k : IpAddr) (s : SourceBucket) (m : Sources)
    → IsSound s.bucket
    → AllSound m
    → AllSound (insert k s m)
AllSound-insert k s [] h c = (h, tt)
AllSound-insert k s ((j, a) ∷ m) h c = ground (arith, AllSound-insert k s m h c.1)

pub AllSound-remove : (k : IpAddr) (m : Sources) → AllSound m → AllSound (remove k m)
AllSound-remove k [] c = tt
AllSound-remove k ((j, a) ∷ m) c = ground (arith, AllSound-remove k m c.1)

pub AllSound-lookup :
    (k : IpAddr) (m : Sources) (s : SourceBucket)
    → AllSound m
    → lookup k m ≡ some s
    → IsSound s.bucket
AllSound-lookup k [] s c e = cc
AllSound-lookup k ((j, a) ∷ m) s c e = ground (arith, AllSound-lookup k m s c.1)

pub length-remove : (k : IpAddr) (m : Sources) → length (remove k m) ≤ length m
length-remove k [] = omega arith
length-remove k ((j, a) ∷ m) = ground (arith, length-remove k m)

pub length-insert_known :
    (k : IpAddr) (s : SourceBucket) (m : Sources)
    → is_some (lookup k m) ≡ true
    → length (insert k s m) ≡ length m
length-insert_known k s [] e = cc
length-insert_known k s ((j, a) ∷ m) e = ground (arith, length-insert_known k s m)

pub length-insert :
    (k : IpAddr) (s : SourceBucket) (m : Sources) → length (insert k s m) ≤ length m + 1
length-insert k s [] = omega arith
length-insert k s ((j, a) ∷ m) = ground (arith, length-insert k s m)

ip_eq_refl : (k : IpAddr) → ip_eq k k ≡ true
ip_eq_refl (v4 a) = ground arith
ip_eq_refl (v6 a) = ground arith

pub lookup-insert_self :
    (k : IpAddr) (s : SourceBucket) (m : Sources) → lookup k (insert k s m) ≡ some s
lookup-insert_self k s [] = ground (arith, ip_eq_refl k)
lookup-insert_self k s ((j, a) ∷ m) = ground (arith, ip_eq_refl k, lookup-insert_self k s m)

pub new_controller-IsValid :
    (l : AdmissionLimits) (now : ℕ) → IsAccepted l → IsValid (new_controller l now)
unfolding new_controller
new_controller-IsValid l now a = ground arith

pub fresh-IsSound :
    (l : AdmissionLimits) (now : ℕ)
    → IsAccepted l
    → IsSound (new_bucket l.source_burst l.source_refill_interval l.source_initial_tokens now)
unfolding new_bucket
fresh-IsSound l now a = ground arith
