-- ===== src/Domain/Binding/Laws.antt =====
-- crates/nodescale-domain/src/lib.rs: the stages of `validate_keryx_binding_identity`, each
-- against what it asks for.
use hermes_nodescale.Prelude.{
  ℕ, ◌≤◌, ◌≡◌, ◌≢◌, ◌↔◌, ◌⊎◌, refl, true, String, List, [], ◌∷◌, Option, none, some, ok, arith,
  discard, discard-ok, is_some, is_none, seq_iff,
}
use hermes_nodescale.Text.{Text}
use hermes_nodescale.Domain.Error.{Checked}
use hermes_nodescale.Domain.Identifier.{Uuid, UuidCrate, parse_bounded_id}
use hermes_nodescale.Domain.Identifier.Laws.{IsSafeIdentifier, identifiers_exact, reparse_id}
use hermes_nodescale.Domain.Lifecycle.Keryx.{
  KeryxBindingState, pending, active, stale, rotated, revoked,
}
use hermes_nodescale.Domain.Binding.{
  Time, KeryxBindingIdentity, reparse, reparse_some, peer_some, validate_authority_values,
  validate_rotation_lineage, timestamps_from, evidence_fits, after_confirmation, in_time_order,
}

pub reparse_exact :
    (crate : UuidCrate) (kind : String) (id : Uuid) → (reparse crate kind id ≡ ok tt) ↔ (id ≢ 0)
reparse_exact crate kind id = rw (reparse_id crate kind id) (λ h. ground arith, λ h. ground arith)

abbrev pub SomeNonNil : Option Uuid → Type 0
SomeNonNil none = Unit
SomeNonNil (some id) = id ≢ 0

abbrev pub SomePeer : Option Text → Type 0
SomePeer none = Unit
SomePeer (some peer) = IsSafeIdentifier 255 peer

-- Every ID is a UUID other than nil, the peer is a safe identifier, the generation is positive.
abbrev pub HasAuthority : KeryxBindingIdentity → Type 0
HasAuthority r =
    (r.binding_id ≢ 0)
    × ((r.network_id ≢ 0)
        × ((r.device_id ≢ 0)
            × ((r.provider_binding_id ≢ 0)
                × (SomeNonNil r.rotated_from
                    × (SomePeer r.verified_peer_id × (1 ≤ r.generation))))))

reparse_some_exact :
    (crate : UuidCrate) (kind : String) (o : Option Uuid)
    → (reparse_some crate kind o ≡ ok tt) ↔ SomeNonNil o
reparse_some_exact crate kind none = (λ _. tt, λ _. refl)
reparse_some_exact crate kind (some id) = reparse_exact crate kind id

pub peer_exact :
    (kind : String) (s : Text)
    → (discard (parse_bounded_id kind s) ≡ ok tt) ↔ IsSafeIdentifier 255 s
peer_exact kind s = (
  λ h. let (t, e) = parsed (parse_bounded_id kind s) h in ((identifiers_exact kind s t).0.0 e).0,
  λ safe. discard-ok (parse_bounded_id kind s) s ((identifiers_exact kind s s).0.1 (safe, refl)),
)
  where
    parsed : (m : Checked Text) → discard m ≡ ok tt → (t : Text) × (m ≡ ok t)
    parsed m h = ground arith

peer_some_exact : (o : Option Text) → (peer_some o ≡ ok tt) ↔ SomePeer o
peer_some_exact none = (λ _. tt, λ _. refl)
peer_some_exact (some s) = peer_exact "Keryx peer ID" s

pub authority_exact :
    (crate : UuidCrate) (r : KeryxBindingIdentity)
    → (validate_authority_values crate r ≡ ok tt) ↔ HasAuthority r
unfolding validate_authority_values
authority_exact crate r = seq_iff _ _ (reparse_exact crate _ r.binding_id) λ _.
    seq_iff _ _ (reparse_exact crate _ r.network_id) λ _.
      seq_iff _ _ (reparse_exact crate _ r.device_id) λ _.
        seq_iff _ _ (reparse_exact crate _ r.provider_binding_id) λ _.
          seq_iff _ _ (reparse_some_exact crate _ r.rotated_from) λ _.
            seq_iff _ _ (peer_some_exact r.verified_peer_id)
              λ _. (λ h. ground arith, λ h. ground arith)

abbrev pub LineageOf : ℕ → Uuid → Option Uuid → Type 0
LineageOf generation id none = generation ≡ 1
LineageOf generation id (some predecessor) = (generation ≢ 1) × (predecessor ≢ id)

lineage_fields :
    (r : KeryxBindingIdentity) (o : Option Uuid)
    → (validate_rotation_lineage (record r { rotated_from = o }) ≡ ok tt)
      ↔ LineageOf r.generation r.binding_id o
unfolding validate_rotation_lineage
lineage_fields r none = (λ h. ground arith, λ h. ground arith)
lineage_fields r (some p) = (λ h. ground arith, λ h. ground arith)

pub lineage_exact :
    (r : KeryxBindingIdentity)
    → (validate_rotation_lineage r ≡ ok tt) ↔ LineageOf r.generation r.binding_id r.rotated_from
lineage_exact r = lineage_fields r r.rotated_from

abbrev pub NotBefore : Time → Option Time → Type 0
NotBefore bound none = Unit
NotBefore bound (some t) = bound ≤ t

abbrev pub AllFrom : Time → List (Option Time) → Type 0
AllFrom bound [] = Unit
AllFrom bound (t ∷ ts) = NotBefore bound t × AllFrom bound ts

pub timestamps_exact :
    (bound : Time) (reason : String) (ts : List (Option Time))
    → (timestamps_from bound reason ts ≡ ok tt) ↔ AllFrom bound ts
unfolding timestamps_from
timestamps_exact bound reason [] = (λ _. tt, λ _. refl)
timestamps_exact bound reason (none ∷ ts) =
    let ih = timestamps_exact bound reason ts in (λ h. (tt, ih.0 h), λ h. ih.1 h.1)
timestamps_exact bound reason (some t ∷ ts) =
    let ih = timestamps_exact bound reason ts in
    (λ h. (ground arith, ih.0 (ground arith)), λ h. ground (arith, ih.1 h.1))

abbrev pub Known : {A : Type 0} → Option A → Type 0
Known o = is_some o ≡ true

abbrev pub Unknown : {A : Type 0} → Option A → Type 0
Unknown o = is_none o ≡ true

-- What a binding in a given state has and has not seen happen.
abbrev pub Evidence : KeryxBindingState → KeryxBindingIdentity → Type 0
Evidence pending r =
    Unknown r.verified_peer_id
    × Unknown r.confirmed_at
    × Unknown r.last_verified_at
    × Unknown r.stale_at
    × Unknown r.rotated_at
    × Unknown r.revoked_at
Evidence active r =
    Known r.verified_peer_id
    × Known r.confirmed_at
    × Known r.last_verified_at
    × Unknown r.stale_at
    × Unknown r.rotated_at
    × Unknown r.revoked_at
Evidence stale r =
    Known r.verified_peer_id
    × Known r.confirmed_at
    × Known r.last_verified_at
    × Known r.stale_at
    × Unknown r.rotated_at
    × Unknown r.revoked_at
Evidence rotated r =
    Known r.verified_peer_id
    × Known r.confirmed_at
    × Known r.last_verified_at
    × Known r.rotated_at
    × Unknown r.revoked_at
Evidence revoked r =
    Known r.revoked_at
    × Unknown r.rotated_at
    × ((Unknown r.verified_peer_id
          × Unknown r.confirmed_at
          × Unknown r.last_verified_at
          × Unknown r.stale_at)
        ⊎ (Known r.verified_peer_id × Known r.confirmed_at × Known r.last_verified_at))

pub Evidence-exact :
    (s : KeryxBindingState) (r : KeryxBindingIdentity) → (evidence_fits s r ≡ true) ↔ Evidence s r
unfolding evidence_fits
Evidence-exact pending r = (λ h. ground arith, λ h. ground arith)
Evidence-exact active r = (λ h. ground arith, λ h. ground arith)
Evidence-exact stale r = (λ h. ground arith, λ h. ground arith)
Evidence-exact rotated r = (λ h. ground arith, λ h. ground arith)
Evidence-exact revoked r = (λ h. ground arith, λ h. ground arith)

abbrev pub FromConfirmation : Option Time → List (Option Time) → Type 0
FromConfirmation none ts = Unit
FromConfirmation (some confirmed_at) ts = AllFrom confirmed_at ts

pub confirmation_exact :
    (o : Option Time) (ts : List (Option Time))
    → (after_confirmation o ts ≡ ok tt) ↔ FromConfirmation o ts
confirmation_exact none ts = (λ _. tt, λ _. refl)
confirmation_exact (some c) ts = timestamps_exact c "cannot precede confirmation" ts

-- Where both are known, the first is not after the second.
abbrev pub Ordered : Option Time → Option Time → Type 0
Ordered (some a) (some b) = a ≤ b
Ordered _ _ = Unit

pub Ordered-exact :
    (a b : Option Time) (kind reason : String)
    → (in_time_order a b kind reason ≡ ok tt) ↔ Ordered a b
Ordered-exact none none kind reason = (λ _. tt, λ _. refl)
Ordered-exact none (some b) kind reason = (λ _. tt, λ _. refl)
Ordered-exact (some a) none kind reason = (λ _. tt, λ _. refl)
Ordered-exact (some a) (some b) kind reason = (λ h. ground arith, λ h. ground arith)
