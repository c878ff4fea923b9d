-- ===== src/State/Effects/Reserve.antt =====
-- crates/nodescale-state/src/n7.rs: what `reserve_n7_projection` wrote, when it returned Ok.
use hermes_nodescale.Prelude.{
  ◌≡◌, refl, ◌∙◌, ◌⊎◌, inl, inr, false, Option, none, some, ◌∷◌, is_some,
}
use hermes_nodescale.Domain.Identifier.{Uuid}
use hermes_nodescale.State.Tables.{find}
use hermes_nodescale.State.Submission.{N7ProjectionSubmission}
use hermes_nodescale.State.Yields.{
  yields_rules, Yields, Yields-ok, Yields-bind, Yields-fail_if, Yields-weaken,
}
use hermes_nodescale.State.Rows.{Time, Store, ProjectionRow, projection_view, find_record}
use hermes_nodescale.State.Device.{set_device_status, advance_generation}
use hermes_nodescale.State.Reserve.{
  ReservationOutcome, reserve_in, new_operation, first_projection, create_projection,
  insert_projection, join_projection, same_subject, desired_row,
}
use hermes_nodescale.State.Effects.{
  SameTables, set_device_status-SameTables, advance_generation-SameTables,
}

-- A store into which a projection was inserted, by an identifier and for a device's generation
-- that no other had.
pub record Created (pid : Uuid) (q : N7ProjectionSubmission) (now : Time) (s t : Store)
    : Type 0 where
  pub fresh : find_record pid s ≡ none
  pub alone : find (same_subject q) s.records ≡ none
  pub records : t.records ≡ desired_row pid q now ∷ s.records
  pub attempts : t.attempts ≡ s.attempts
  pub inspections : t.inspections ≡ s.inspections

is_some-none : {A : Type 0} (o : Option A) → is_some o ≡ false → o ≡ none
is_some-none none h = refl
is_some-none (some a) h = cc

insert_projection-Created :
    (pid : Uuid) (q : N7ProjectionSubmission) (now : Time) (s : Store)
    → find (same_subject q) s.records ≡ none
    → Yields (Created pid q now s) (insert_projection pid q now s)
unfolding insert_projection
insert_projection-Created pid q now s alone =
    Yields-fail_if (is_some (find_record pid s)) _ _ λ absent. Yields-ok _ (record {
      fresh = is_some-none _ absent;
      alone = alone;
      records = refl;
      attempts = refl;
      inspections = refl;
    })

create_projection-Created :
    (pid : Uuid) (q : N7ProjectionSubmission) (now : Time) (s : Store)
    → find (same_subject q) s.records ≡ none
    → Yields (λ r. Created pid q now s r.1) (create_projection pid q now s)
unfolding create_projection
create_projection-Created pid q now s alone = Yields-bind (insert_projection pid q now s) _ λ s1 h1.
    Yields-bind (set_device_status _ _ _ _) _ λ s2 h2.
      Yields-bind (advance_generation _ _ _ _) _ λ s3 h3.
        Yields-bind (projection_view _ _) _ λ view _.
          let made = (insert_projection-Created pid q now s alone).at s1 h1 in
          let marked = (set_device_status-SameTables _ _ _ _).at s2 h2 in
          let moved = (advance_generation-SameTables _ _ _ _).at s3 h3 in
          Yields-ok _ (record {
            fresh = made.fresh;
            alone = made.alone;
            records = moved.records ∙ marked.records ∙ made.records;
            attempts = moved.attempts ∙ marked.attempts ∙ made.attempts;
            inspections = moved.inspections ∙ marked.inspections ∙ made.inspections;
          })

abbrev pub ReserveEffect :
    Uuid → N7ProjectionSubmission → Time → Store → ReservationOutcome × Store → Type 0
ReserveEffect pid q now s r = SameTables s r.1 ⊎ Created pid q now s r.1

create_projection-effect :
    (pid : Uuid) (q : N7ProjectionSubmission) (now : Time) (s : Store)
    → find (same_subject q) s.records ≡ none
    → Yields (ReserveEffect pid q now s) (create_projection pid q now s)
create_projection-effect pid q now s alone =
    Yields-weaken _ (create_projection-Created pid q now s alone) (λ _. inr)

join_projection-effect :
    (r : ProjectionRow) (pid : Uuid) (q : N7ProjectionSubmission) (now : Time) (s : Store)
    → Yields (ReserveEffect pid q now s) (join_projection r q now s)
unfolding join_projection
join_projection-effect r pid q now s = search (yields_rules, Yields-ok, inl)

first_projection-effect :
    (pid : Uuid) (q : N7ProjectionSubmission) (now : Time) (s : Store)
    → find (same_subject q) s.records ≡ none
    → Yields (ReserveEffect pid q now s) (first_projection pid q now s)
unfolding first_projection
first_projection-effect pid q now s alone =
    search (yields_rules, Yields-ok, inl, create_projection-effect pid q now s alone) depth 10

new_operation-effect :
    (pid : Uuid) (q : N7ProjectionSubmission) (now : Time) (s : Store)
    → Yields (ReserveEffect pid q now s) (new_operation pid q now s)
unfolding new_operation
new_operation-effect pid q now s =
    search (yields_rules, Yields-ok, inl, join_projection-effect, first_projection-effect) depth 10

-- A reservation leaves the tables alone, or it inserts one projection.
pub reserve_in-effect :
    (pid : Uuid) (q : N7ProjectionSubmission) (now : Time) (s : Store)
    → Yields (ReserveEffect pid q now s) (reserve_in pid q now s)
unfolding reserve_in
reserve_in-effect pid q now s = search (yields_rules, Yields-ok, inl, new_operation-effect) depth 10
