-- ===== src/State/Device.antt =====
-- crates/nodescale-state/src/n7.rs: what a projection changes of its device, the status and the
-- generation, each in the tables' columns and in the device's document.
use hermes_nodescale.Prelude.{
  ℕ, Bool, ◌&&◌, Option, none, some, ok, err, ◌>>=◌, ◌>>◌, ok_or, ◌==◌, if◌then◌else◌,
}
use hermes_nodescale.Domain.Identifier.{Uuid}
use hermes_nodescale.Domain.Generation.{Generation, next_exact, advance_fleet_projection}
use hermes_nodescale.Domain.Lifecycle.{same, transition}
use hermes_nodescale.Domain.Lifecycle.Projection.{
  ProjectionStatus, ProjectionStatus-discrete, projection_lifecycle,
}
use hermes_nodescale.State.Tables.{find, update_where, count}
use hermes_nodescale.State.Submission.{
  Stored, sqlite, not_found, stale_generation, or_conflict, sql_integer,
}
use hermes_nodescale.State.Rows.{Time, Store, DeviceRow, GenerationRow}

abbrev pub is_device : Uuid → DeviceRow → Bool
is_device device_id d = d.device_id == device_id

abbrev pub find_device : Uuid → Store → Option DeviceRow
find_device device_id s = find (is_device device_id) s.devices

abbrev pub find_generation : Uuid → Store → Option GenerationRow
find_generation device_id s =
    find (λ (g : GenerationRow). g.device_id == device_id) s.device_generations

abbrev next_status : ProjectionStatus → ProjectionStatus → Stored ProjectionStatus
next_status current next =
    if same ProjectionStatus-discrete current next
    then ok next
    else or_conflict (transition current next)

-- `n7_set_device_status`
unfoldable pub set_device_status : Uuid → ProjectionStatus → Time → Store → Stored Store
set_device_status device_id next now s = do
  row ← ok_or (find_device device_id s) (sqlite "QueryReturnedNoRows")
  status ← next_status row.document.fleet_projection_status next
  ok (record s {
    devices =
        update_where (is_device device_id)
          (λ (d : DeviceRow). record d {
            fleet_projection_status = next;
            document = record row.document { fleet_projection_status = status; updated_at = now };
          })
          s.devices;
  })

-- An UPDATE that finds no row reads the generation again for its error.
abbrev advanced_row : ℕ → Generation → Option Generation → Stored (Unit {0})
advanced_row changed expected actual =
    if changed == 0
    then elim actual [
      | some g ↦ err (stale_generation expected g)
      | none ↦ err (not_found "device")
    ]
    else ok tt

abbrev row_generation : Option GenerationRow → Option Generation
row_generation none = none
row_generation (some g) = some g.fleet_projection_generation

abbrev device_generation : Option DeviceRow → Option Generation
device_generation none = none
device_generation (some d) = some d.fleet_projection_generation

-- `n7_advance_fleet_projection_generation_tx`
unfoldable pub advance_generation : Uuid → Generation → Time → Store → Stored Store
advance_generation device_id expected now s = do
  next ← or_conflict (next_exact expected)
  row ← ok_or (find_device device_id s) (not_found "device")
  generations ← or_conflict (advance_fleet_projection expected next row.document.generations)
  sql_integer next
  let current =
      λ (g : GenerationRow). g.device_id == device_id && g.fleet_projection_generation == expected
  advanced_row (count current s.device_generations) expected
      (row_generation (find_generation device_id s))
  let fenced = λ (d : DeviceRow). is_device device_id d && d.fleet_projection_generation == expected
  advanced_row (count fenced s.devices) expected (device_generation (find_device device_id s))
  ok (record s {
    device_generations =
        update_where current
          (λ (g : GenerationRow). record g { fleet_projection_generation = next })
          s.device_generations;
    devices =
        update_where fenced
          (λ (d : DeviceRow). record d {
            fleet_projection_generation = next;
            document = record row.document { generations = generations; updated_at = now };
          })
          s.devices;
  })
