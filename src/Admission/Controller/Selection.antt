-- ===== src/Admission/Controller/Selection.antt =====
-- crates/nodescale-redemption-ingress/src/lib.rs: the eviction, the selection of a
-- bucket and the charge in `InMemoryAdmissionController::admit`.
use hermes_nodescale.Prelude.{
  ℕ, ◌+◌, ◌≤◌, ◌≡◌, inl, inr, refl, max, true, arith, length, leb, is_some, Bool-cases,
  Option-cases,
}
use hermes_nodescale.Admission.Bucket.{
  AdmissionDecision, allowed, availability, debit, saturating_mul,
}
use hermes_nodescale.Admission.Bucket.Laws.{
  IsSound, availability-IsSound, availability-allowed, debit-IsSound,
}
use hermes_nodescale.Admission.Controller.{
  IpAddr, SourceBucket, Sources, lookup, Controller, find_stale, evict_stale, Selected, tracked,
  overflowing, fresh, select, charge,
}
use hermes_nodescale.Admission.Controller.Table.{
  IsValid, AllSound-insert, AllSound-remove, AllSound-lookup, length-remove, length-insert_known,
  length-insert, lookup-insert_self, fresh-IsSound,
}

-- What `charge` needs of the bucket that was selected.
abbrev pub Ready : Controller → IpAddr → Selected → Type 0
Ready c k (tracked s) =
    IsSound s.bucket × (1 ≤ s.bucket.tokens) × (is_some (lookup k c.sources) ≡ true)
Ready c k overflowing = 1 ≤ c.overflow.tokens
Ready c k (fresh b) =
    IsSound b × (1 ≤ b.tokens) × (length c.sources + 1 ≤ c.limits.maximum_tracked_sources)

-- The outcome of a selection from `c`.
pub record SelectsWell (c : Controller) (k : IpAddr) (r : Controller × AdmissionDecision × Selected)
    : Type 0 where
  pub same_limits : r.0.limits ≡ c.limits
  pub same_global : r.0.global ≡ c.global
  pub same_start : r.0.initialized_at ≡ c.initialized_at
  pub valid : IsValid r.0
  pub ready : r.1 ≡ allowed → Ready r.0 k r.2

pub select-SelectsWell :
    (c : Controller) (k : IpAddr) (now : ℕ) → IsValid c → SelectsWell c k (select c k now)
unfolding select
select-SelectsWell c k now v = elim (Option-cases (lookup k c.sources)) [
  | inl new ↦ elim (Bool-cases (leb c.limits.maximum_tracked_sources (length c.sources))) [
    | inl full ↦
        rw (new, full, select)
          (record {
            same_limits = refl;
            same_global = refl;
            same_start = refl;
            valid = record {
              accepted = v.accepted;
              global_sound = v.global_sound;
              overflow_sound = availability-IsSound c.overflow now v.overflow_sound;
              sources_sound = v.sources_sound;
              bounded = v.bounded;
            };
            ready = λ e. availability-allowed c.overflow now e;
          })
    | inr room ↦
        rw (new, room, select)
          (record {
            same_limits = refl;
            same_global = refl;
            same_start = refl;
            valid = v;
            ready = λ e. (
              availability-IsSound _ now (fresh-IsSound c.limits now v.accepted),
              availability-allowed _ now e,
              ground (arith, room),
            );
          })
  ]
  | inr (s, known) ↦
      let sound = AllSound-lookup k c.sources s v.sources_sound known in
      let sound' = availability-IsSound s.bucket now sound in
      let seen : SourceBucket = record {
        bucket = (availability s.bucket now).0;
        last_seen = max s.last_seen now;
      } in
      let listed : is_some (lookup k c.sources) ≡ true = rw known in
      rw (known, select)
        (record {
          same_limits = refl;
          same_global = refl;
          same_start = refl;
          valid = record {
            accepted = v.accepted;
            global_sound = v.global_sound;
            overflow_sound = v.overflow_sound;
            sources_sound = AllSound-insert k seen c.sources sound' v.sources_sound;
            bounded = omega (arith, length-insert_known k seen c.sources listed, v.bounded);
          };
          ready = λ e. (
            sound',
            availability-allowed s.bucket now e,
            rw (lookup-insert_self k seen c.sources),
          );
        })
]

pub evict-IsValid :
    (iteration : Sources → Sources) (c : Controller) (k : IpAddr) (now : ℕ)
    → IsValid c
    → IsValid (evict_stale iteration c k now)
unfolding evict_stale
evict-IsValid iteration c k now v =
    let stale_after = saturating_mul c.limits.source_refill_interval c.limits.source_burst in
    elim (Option-cases (find_stale now stale_after (iteration c.sources))) [
      | inl nothing ↦ rw (nothing, evict_stale) (ground (arith, v))
      | inr (stale, found) ↦
          rw (found, evict_stale)
            (ground (
              arith,
              v,
              AllSound-remove stale c.sources v.sources_sound,
              length-remove stale c.sources,
            ))
    ]

pub charge-IsValid :
    (c : Controller) (k : IpAddr) (now : ℕ) (s : Selected)
    → IsValid c
    → 1 ≤ c.global.tokens
    → Ready c k s
    → IsValid (charge c k now s)
unfolding charge
charge-IsValid c k now (tracked s) v g r =
    let s' : SourceBucket = record s { bucket = debit s.bucket } in
    record {
      accepted = v.accepted;
      global_sound = debit-IsSound c.global v.global_sound g;
      overflow_sound = v.overflow_sound;
      sources_sound =
          AllSound-insert k s' c.sources (debit-IsSound s.bucket r.0 r.1) v.sources_sound;
      bounded = omega (arith, length-insert_known k s' c.sources r.2, v.bounded);
    }
charge-IsValid c k now overflowing v g r = record {
  accepted = v.accepted;
  global_sound = debit-IsSound c.global v.global_sound g;
  overflow_sound = debit-IsSound c.overflow v.overflow_sound r;
  sources_sound = v.sources_sound;
  bounded = v.bounded;
}
charge-IsValid c k now (fresh b) v g r =
    let s' : SourceBucket = record { bucket = debit b; last_seen = now } in
    record {
      accepted = v.accepted;
      global_sound = debit-IsSound c.global v.global_sound g;
      overflow_sound = v.overflow_sound;
      sources_sound = AllSound-insert k s' c.sources (debit-IsSound b r.0 r.1) v.sources_sound;
      bounded = omega (arith, length-insert k s' c.sources, r.2);
    }
