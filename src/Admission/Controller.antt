-- ===== src/Admission/Controller.antt =====
-- crates/nodescale-redemption-ingress/src/lib.rs: `InMemoryAdmissionController`. The `HashMap` of
-- sources is an association list with one entry for a key; the order in which its iterator visits
-- the entries is a parameter, of which nothing is assumed.
mod Table
mod Selection
mod Answers
mod Rate
mod Examples
use hermes_nodescale.Prelude.{
  ℕ, ◌-◌, ◌/◌, ◌%◌, ◌^◌, ◌≤◌, max, Bool, true, false, ◌&&◌, not, List, [], ◌∷◌, Option, none, some,
  ltb, leb, ◌==◌, if◌then◌else◌, length, is_some,
}
use hermes_nodescale.Admission.Limits.{AdmissionLimits}
use hermes_nodescale.Admission.Bucket.{
  AdmissionDecision, allowed, limited, Bucket, saturating_mul, new_bucket, availability, debit,
}

-- An address is its 32-bit or 128-bit value.
pub data IpAddr : Type 0 where
  v4 v6 : ℕ → IpAddr

abbrev pub ip_eq : IpAddr → IpAddr → Bool
ip_eq (v4 a) (v4 b) = a == b
ip_eq (v6 a) (v6 b) = a == b
ip_eq _ _ = false

-- `::ffff:a.b.c.d` is the IPv4 address that it maps (`Ipv6Addr::to_ipv4_mapped`).
unfoldable pub normalize_ip : IpAddr → IpAddr
normalize_ip (v4 a) = v4 a
normalize_ip (v6 a) = if a / 2 ^ 32 == 0xffff then v4 (a % 2 ^ 32) else v6 a

pub record SourceBucket : Type 0 where
  pub bucket : Bucket
  pub last_seen : ℕ

abbrev pub Sources : Type 0
Sources = List (IpAddr × SourceBucket)

abbrev pub lookup : IpAddr → Sources → Option SourceBucket
lookup k [] = none
lookup k ((j, b) ∷ m) = if ip_eq k j then some b else lookup k m

-- `*map.get_mut(k).unwrap() = b`, or `insert`
abbrev pub insert : IpAddr → SourceBucket → Sources → Sources
insert k b [] = (k, b) ∷ []
insert k b ((j, a) ∷ m) = if ip_eq k j then (j, b) ∷ m else (j, a) ∷ insert k b m

abbrev pub remove : IpAddr → Sources → Sources
remove k [] = []
remove k ((j, a) ∷ m) = if ip_eq k j then m else (j, a) ∷ remove k m

pub record Controller : Type 0 where
  pub limits : AdmissionLimits
  pub initialized_at : ℕ
  pub global : Bucket
  pub overflow : Bucket
  pub sources : Sources

-- `InMemoryAdmissionController::new`, which always succeeds
unfoldable pub new_controller : AdmissionLimits → ℕ → Controller
unfolding new_bucket
new_controller l now = record {
  limits = l;
  initialized_at = now;
  global = new_bucket l.global_burst l.global_refill_interval l.global_initial_tokens now;
  overflow = new_bucket l.source_burst l.source_refill_interval 1 now;
  sources = [];
}

-- `find_map` over the entries: the first that was last seen `stale_after` ago or longer.
find_stale : ℕ → ℕ → Sources → Option IpAddr
find_stale now stale_after [] = none
find_stale now stale_after ((k, b) ∷ m) =
    let rest = find_stale now stale_after m in
    if leb stale_after (now - b.last_seen) then some k else rest

-- The three kinds of bucket that a request can be charged to.
pub data Selected : Type 0 where
  tracked : SourceBucket → Selected
  overflowing : Selected
  fresh : Bucket → Selected

pub select : Controller → IpAddr → ℕ → Controller × AdmissionDecision × Selected
select c source now = elim (lookup source c.sources) [
  | some s ↦
      let (bucket, decision) = availability s.bucket now in
      let s' : SourceBucket = record { bucket = bucket; last_seen = max s.last_seen now } in
      (record c { sources = insert source s' c.sources }, decision, tracked s')
  | none ↦
      if leb c.limits.maximum_tracked_sources (length c.sources)
      then (let (bucket, decision) = availability c.overflow now in
          (record c { overflow = bucket }, decision, overflowing))
      else (let (bucket, decision) =
            availability
              (new_bucket c.limits.source_burst c.limits.source_refill_interval
                c.limits.source_initial_tokens now)
              now in
          (c, decision, fresh bucket))
]

-- The last step: the selected bucket and the global one each lose a token.
pub charge : Controller → IpAddr → ℕ → Selected → Controller
charge c source now (tracked s) = record c {
  sources = insert source (record s { bucket = debit s.bucket }) c.sources;
  global = debit c.global;
}
charge c source now overflowing = record c { overflow = debit c.overflow; global = debit c.global }
charge c source now (fresh bucket) = record c {
  sources = insert source (record { bucket = debit bucket; last_seen = now }) c.sources;
  global = debit c.global;
}

-- The second half of `admit`: the global bucket decides after the source's.
pub conclude :
    IpAddr → ℕ → Controller × AdmissionDecision × Selected → Controller × AdmissionDecision
conclude source now (c, limited retry_after, selected) = (c, limited retry_after)
conclude source now (c, allowed, selected) =
    let (global, decision) = availability c.global now in
    let c' = record c { global = global } in
    elim decision [
      | limited retry_after ↦ (c', limited retry_after)
      | allowed ↦ (charge c' source now selected, allowed)
    ]

module _ (iteration : Sources → Sources) where
  -- A full table makes room for a new source by dropping a stale one, if there is one.
  pub evict_stale : Controller → IpAddr → ℕ → Controller
  evict_stale c source now =
      let stale_after = saturating_mul c.limits.source_refill_interval c.limits.source_burst in
      if not (is_some (lookup source c.sources))
        && leb c.limits.maximum_tracked_sources (length c.sources)
      then elim (find_stale now stale_after (iteration c.sources)) [
        | none ↦ c
        | some stale ↦ record c { sources = remove stale c.sources }
      ]
      else c

  pub admit : Controller → IpAddr → ℕ → Controller × AdmissionDecision
  admit c source now =
      let key = normalize_ip source in
      let answer = conclude key now (select (evict_stale c key now) key now) in
      if ltb now c.initialized_at then (c, limited c.limits.global_refill_interval) else answer
