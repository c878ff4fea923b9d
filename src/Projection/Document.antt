-- ===== src/Projection/Document.antt =====
-- crates/nodescale-projection/src/lib.rs: the document that is applied, and the body that Fleet is
-- expected to show for it.
use hermes_nodescale.Prelude.{ℕ, String, List, [], ◌∷◌, Result, ok, err, ◌>>=◌}
use hermes_nodescale.Text.{text}
use hermes_nodescale.Json.{Value, string, object, no_members, member, SerdeJson}
use hermes_nodescale.FleetClient.{
  GeneratedOperation, health, inventory, message, ApplyOperation, authenticated, ProjectionDocument,
  new_document, operations_value, provenance_value, GeneratedStateKind, active, GeneratedState,
}
use hermes_nodescale.Domain.Identifier.{UuidCrate}
use hermes_nodescale.Domain.Roles.{
  Operation, fleet_health, fleet_inventory, fleet_message, fleet_hermes_run,
}
use hermes_nodescale.Domain.Fleet.Content.{
  FleetEnrollmentState, FleetProjectionOperation, N7FleetDesiredProjection, operation, decimal,
}
use hermes_nodescale.State.Submission.{StateError}

-- `N7ProductionError`, with the panic of `unreachable!`. A state error is kept as it is, where the
-- source keeps its text.
pub data N7ProductionError : Type 0 where
  actor_unavailable : N7ProductionError
  unsupported_fleet : N7ProductionError
  state : StateError → N7ProductionError
  state_text : String → N7ProductionError
  panicked : String → N7ProductionError

abbrev pub Produced : Type 0 → Type 0
Produced A = Result N7ProductionError A

abbrev pub state_error : {A : Type 0} → Result StateError A → Produced A
state_error (ok a) = ok a
state_error (err e) = err (state e)

abbrev apply_operation : FleetProjectionOperation → ApplyOperation
apply_operation FleetProjectionOperation.upsert = ApplyOperation.upsert
apply_operation FleetProjectionOperation.disable = ApplyOperation.disable
apply_operation FleetProjectionOperation.remove = ApplyOperation.remove

unfoldable pub generated_operation : Operation → Produced GeneratedOperation
generated_operation fleet_health = ok health
generated_operation fleet_inventory = ok inventory
generated_operation fleet_message = ok message
generated_operation fleet_hermes_run =
    err (panicked "canonical N7 grants admit only Fleet non-execution operations")

unfoldable pub generated_operations : List Operation → Produced (List GeneratedOperation)
unfolding generated_operation
generated_operations [] = ok []
generated_operations (o ∷ os) = do
  first ← generated_operation o
  rest ← generated_operations os
  ok (first ∷ rest)

abbrev generated_state : FleetEnrollmentState → GeneratedStateKind
generated_state FleetEnrollmentState.pending = active
generated_state FleetEnrollmentState.disabled = GeneratedStateKind.disabled
generated_state FleetEnrollmentState.removed = GeneratedStateKind.removed

abbrev generated_state_name : GeneratedStateKind → String
generated_state_name active = "active"
generated_state_name GeneratedStateKind.disabled = "disabled"
generated_state_name GeneratedStateKind.removed = "removed"

module _ (crate : UuidCrate) (sha256 : List ℕ → List ℕ) where
  unfoldable pub projection_document : N7FleetDesiredProjection → Produced ProjectionDocument
  unfolding generated_operations new_document
  projection_document p = do
    operations ← generated_operations p.generated_grants
    ok (
        new_document sha256 (record {
          network_id = crate.to_string p.network_id;
          device_id = crate.to_string p.device_id;
          projection_generation = decimal p.projection_generation;
          membership_generation = decimal p.membership_generation;
          binding_generation = decimal p.binding_provenance.binding_generation;
          content_hash = [];
          operation = apply_operation (operation p);
          generated_operations = operations;
          provenance =
              authenticated (crate.to_string p.network_id) (crate.to_string p.device_id)
                (decimal p.projection_generation) (crate.to_string p.binding_provenance.binding_id)
                p.binding_provenance.authenticated_peer_id;
        }))

-- What `generated_body_parts` serializes, with the keys in order.
unfoldable pub generated_value : GeneratedState → Value
generated_value g = object (
    member (text "allowed_operations") (operations_value g.allowed_operations) (
      member (text "binding_generation") (string g.binding_generation) (
        member (text "content_hash") (string g.content_hash) (
          member (text "membership_generation") (string g.membership_generation) (
            member (text "projection_generation") (string g.projection_generation) (
              member (text "provenance") (provenance_value g.provenance) (
                member (text "state") (string (text (generated_state_name g.state)))
                  no_members)))))))

-- `generated_body`
unfoldable pub generated_body : SerdeJson → GeneratedState → List ℕ
unfolding generated_value
generated_body json g = json.to_vec (generated_value g)

-- `expected_generated_body`: the body of the state that the document would generate.
unfoldable pub expected_generated_body :
    SerdeJson → ProjectionDocument → FleetEnrollmentState → List ℕ
unfolding generated_body
expected_generated_body json d enrollment = generated_body json (record {
  state = generated_state enrollment;
  projection_generation = d.projection_generation;
  membership_generation = d.membership_generation;
  binding_generation = d.binding_generation;
  content_hash = d.content_hash;
  allowed_operations = d.generated_operations;
  provenance = d.provenance;
})
