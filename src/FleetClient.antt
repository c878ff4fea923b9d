-- ===== src/FleetClient.antt =====
-- crates/nodescale-fleet-client/src/lib.rs: the document that an apply request carries, its content
-- hash, and what Fleet answers. SHA-256 is a parameter.
use hermes_nodescale.Prelude.{
  ℕ, String, List, [], ◌∷◌, Option, none, some, map, leb, ◌==◌, if◌then◌else◌,
}
use hermes_nodescale.Text.{Text, text, bytes}
use hermes_nodescale.Json.{
  Value, Values, Members, string, array, object, no_values, value, no_members, member,
  write_canonical_json,
}
use hermes_nodescale.Domain.Fleet.Content.{hex}

pub data RequestKind : Type 0 where
  capabilities apply inspect : RequestKind

pub data ProjectionSource : Type 0 where
  nodescale : ProjectionSource

pub data GeneratedOperation : Type 0 where
  health inventory message : GeneratedOperation

-- `GeneratedOperation::as_wire`
abbrev as_wire : GeneratedOperation → String
as_wire health = "fleet.health"
as_wire inventory = "fleet.inventory"
as_wire message = "fleet.message"

-- The alphabetical order of the names.
abbrev wire_rank : GeneratedOperation → ℕ
wire_rank health = 0
wire_rank inventory = 1
wire_rank message = 2

insert_by_wire : GeneratedOperation → List GeneratedOperation → List GeneratedOperation
insert_by_wire o [] = o ∷ []
insert_by_wire o (x ∷ xs) =
    let rest = insert_by_wire o xs in
    if leb (wire_rank o) (wire_rank x) then o ∷ x ∷ xs else x ∷ rest

-- `sort_unstable_by_key(|operation| operation.as_wire())`
sort_by_wire : List GeneratedOperation → List GeneratedOperation
unfolding insert_by_wire
sort_by_wire [] = []
sort_by_wire (o ∷ os) = insert_by_wire o (sort_by_wire os)

-- `dedup`
dedup : List GeneratedOperation → List GeneratedOperation
dedup [] = []
dedup (o ∷ []) = o ∷ []
dedup (o ∷ x ∷ xs) =
    let rest = dedup (x ∷ xs) in if wire_rank o == wire_rank x then rest else o ∷ rest

pub data ApplyOperation : Type 0 where
  upsert disable remove : ApplyOperation

abbrev apply_operation_str : ApplyOperation → String
apply_operation_str upsert = "upsert"
apply_operation_str disable = "disable"
apply_operation_str remove = "remove"

-- `Provenance`, its two optional members given or missing together.
pub record Provenance : Type 0 where
  pub network_id : Text
  pub device_id : Text
  pub snapshot : Text
  pub binding_id : Option Text
  pub authenticated_peer_id : Option Text

-- `Provenance::authenticated`
abbrev pub authenticated : Text → Text → Text → Text → Text → Provenance
authenticated network_id device_id snapshot binding_id authenticated_peer_id = record {
  network_id = network_id;
  device_id = device_id;
  snapshot = snapshot;
  binding_id = some binding_id;
  authenticated_peer_id = some authenticated_peer_id;
}

pub record ProjectionDocument : Type 0 where
  pub network_id : Text
  pub device_id : Text
  pub projection_generation : Text
  pub membership_generation : Text
  pub binding_generation : Text
  pub content_hash : Text
  pub operation : ApplyOperation
  pub generated_operations : List GeneratedOperation
  pub provenance : Provenance

abbrev pub strings : List Text → Values
strings [] = no_values
strings (s ∷ ss) = value (string s) (strings ss)

-- A member that is left out if it is missing.
abbrev optional_member : String → Option Text → Members → Members
optional_member key none ms = ms
optional_member key (some s) ms = member (text key) (string s) ms

abbrev pub provenance_value : Provenance → Value
provenance_value p = object (
    optional_member "authenticated_peer_id" p.authenticated_peer_id (
      optional_member "binding_id" p.binding_id (
        member (text "device_id") (string p.device_id) (
          member (text "network_id") (string p.network_id) (
            member (text "snapshot") (string p.snapshot)
              (member (text "source") (string (text "nodescale")) no_members))))))

abbrev pub operations_value : List GeneratedOperation → Value
operations_value operations = array (strings (map (λ o. text (as_wire o)) operations))

-- `CanonicalProjectionMaterial`
canonical_material : ProjectionDocument → Value
unfolding sort_by_wire
canonical_material d = object (
    member (text "binding_generation") (string d.binding_generation) (
      member (text "device_id") (string d.device_id) (
        member (text "generated_operations")
          (operations_value (sort_by_wire d.generated_operations))
          (member (text "membership_generation") (string d.membership_generation) (
            member (text "network_id") (string d.network_id) (
              member (text "operation") (string (text (apply_operation_str d.operation))) (
                member (text "projection_generation") (string d.projection_generation) (
                  member (text "provenance") (provenance_value d.provenance)
                    (member (text "source") (string (text "nodescale")) no_members)))))))))

module _ (sha256 : List ℕ → List ℕ) where
  -- `ProjectionDocument::canonical_content_hash`
  unfoldable pub canonical_content_hash : ProjectionDocument → Text
  unfolding canonical_material
  canonical_content_hash d = hex (sha256 (bytes (write_canonical_json (canonical_material d))))

  -- `ProjectionDocument::new`, on a document whose hash is not set.
  unfoldable pub new_document : ProjectionDocument → ProjectionDocument
  unfolding canonical_content_hash sort_by_wire dedup
  new_document d =
      let ordered = record d {
        content_hash = [];
        generated_operations = dedup (sort_by_wire d.generated_operations);
      } in
      record ordered { content_hash = canonical_content_hash ordered }

pub data ApplyOutcome : Type 0 where
  applied already_applied stale gap conflict regression : ApplyOutcome

pub data GeneratedStateKind : Type 0 where
  active disabled removed : GeneratedStateKind

pub record GeneratedState : Type 0 where
  pub state : GeneratedStateKind
  pub projection_generation : Text
  pub membership_generation : Text
  pub binding_generation : Text
  pub content_hash : Text
  pub allowed_operations : List GeneratedOperation
  pub provenance : Provenance

pub data ApplyError : Type 0 where
  unavailable rejected_before_send protocol_rejected ambiguous : ApplyError

pub data FleetClientError : Type 0 where
  unavailable response_lost protocol_rejected protocol frame_too_large : FleetClientError
