-- ===== src/State/Effects/Recorded.antt =====
-- crates/nodescale-state/src/n7.rs: the operation that `reserve_n7_projection` wrote, when it
-- returned Ok.
use hermes_nodescale.Prelude.{
  ◌≤◌, ◌≡◌, refl, sym, ap, ◌∙◌, ◌⊎◌, inl, inr, true, false, Option, none, some, ◌∷◌, arith, ◌==◌,
  is_some,
}
use hermes_nodescale.Text.Laws.{text_eq_iff}
use hermes_nodescale.Domain.Identifier.{Uuid}
use hermes_nodescale.State.Tables.{find, count}
use hermes_nodescale.State.Tables.Laws.{find-passes, find_unique}
use hermes_nodescale.State.Submission.{N7ProjectionSubmission, N7BindingProvenance, sql_integer}
use hermes_nodescale.State.Rows.{
  Time, Store, ProjectionRow, OperationRow, find_record, find_operation, operation_exists, has_id,
  projection_view, N7ProjectionView, binding_eq, matching_operation,
}
use hermes_nodescale.State.Device.{set_device_status, advance_generation}
use hermes_nodescale.State.Reserve.{
  ReservationOutcome, differs, same_subject, desired_row, insert_projection, create_projection,
  first_projection, join_projection, new_operation, reserve_in,
}
use hermes_nodescale.State.Effects.{
  projection_view-Shows, set_device_status-SameTables, advance_generation-SameTables,
}
use hermes_nodescale.State.Effects.Operations.{status-operations, advance-operations}
use hermes_nodescale.State.Yields.{
  yields_rules, Yields, Yields-ok, Yields-if, Yields-if_let_some, Yields-bind, Yields-fail_if,
}

-- No two projections have one identifier.
abbrev pub IsKeyed : Store → Type 0
IsKeyed s = (j : Uuid) → count (has_id j) s.records ≤ 1

-- The projection is the one that the submission asks for.
abbrev pub IsOf : N7ProjectionSubmission → ProjectionRow → Type 0
IsOf q r =
    (r.network_id ≡ q.network_id)
    × (r.device_id ≡ q.device_id)
    × (r.generation ≡ q.generation)
    × (r.desired_body ≡ q.desired_body)
    × (r.desired_hash ≡ q.desired_hash)
    × (r.binding ≡ q.binding)

abbrev pub entered : Uuid → N7ProjectionSubmission → Time → OperationRow
entered pid q now = record { projection_id = pid; submission = q; recorded_at = now }

-- An operation was inserted, by an identifier that no other had, for a projection that its
-- submission asks for.
pub record Enters (q : N7ProjectionSubmission) (s t : Store) : Type 0 where
  pub pid : Uuid
  pub now : Time
  pub row : ProjectionRow
  pub fresh : find_operation q.operation_id s ≡ none
  pub operations : t.operations ≡ entered pid q now ∷ s.operations
  pub found : find_record pid t ≡ some row
  pub content : IsOf q row

abbrev pub EntersEffect : N7ProjectionSubmission → Store → ReservationOutcome × Store → Type 0
EntersEffect q s r = (r.1.operations ≡ s.operations) ⊎ Enters q s r.1

insert_projection-rows :
    (pid : Uuid) (q : N7ProjectionSubmission) (now : Time) (s : Store)
    → Yields
        (λ t. (t.operations ≡ s.operations) × (t.records ≡ desired_row pid q now ∷ s.records))
        (insert_projection pid q now s)
unfolding insert_projection
insert_projection-rows pid q now s =
    Yields-fail_if (is_some (find_record pid s)) _ _ λ _. Yields-ok _ (refl, refl)

first_found : (pid : Uuid) → (pid == pid) ≡ true
first_found pid = ground arith

create_projection-Enters :
    (pid : Uuid) (q : N7ProjectionSubmission) (now : Time) (s : Store)
    → find_operation q.operation_id s ≡ none
    → Yields (EntersEffect q s) (create_projection pid q now s)
unfolding create_projection
create_projection-Enters pid q now s fresh = Yields-bind (insert_projection pid q now s) _ λ s1 h1.
    Yields-bind (set_device_status _ _ _ _) _ λ s2 h2.
      Yields-bind (advance_generation _ _ _ _) _ λ s3 h3.
        Yields-bind (projection_view _ _) _ λ view _.
          let (kept, made) = (insert_projection-rows pid q now s).at s1 h1 in
          let written = (status-operations _ _ _ _).at s2 h2 in
          let marked = (set_device_status-SameTables _ _ _ _).at s2 h2 in
          let moved = (advance_generation-SameTables _ _ _ _).at s3 h3 in
          let records = moved.records ∙ marked.records ∙ made in
          Yields-ok _ (
            inr (record {
              pid = pid;
              now = now;
              row = desired_row pid q now;
              fresh = fresh;
              operations =
                  (advance-operations _ _ _ _).at s3 h3
                  ∙ written
                  ∙ ap (λ os. entered pid q now ∷ os) kept;
              found = ap (find (has_id pid)) records ∙ rw (first_found pid) refl;
              content = (refl, refl, refl, refl, refl, refl);
            }))

pub binding_eq-same : (a b : N7BindingProvenance) → binding_eq a b ≡ true → a ≡ b
binding_eq-same a b h = ground (
  arith,
  text_eq_iff a.binding_id b.binding_id,
  text_eq_iff a.authenticated_peer_id b.authenticated_peer_id,
)

differs-false :
    (view : N7ProjectionView) (q : N7ProjectionSubmission)
    → differs view q ≡ false
    → (view.network_id ≡ q.network_id)
      × (view.desired_body ≡ q.desired_body)
      × (view.desired_hash ≡ q.desired_hash)
      × (view.binding ≡ q.binding)
differs-false view q h = ground (
  arith,
  text_eq_iff view.desired_hash q.desired_hash,
  text_eq_iff view.desired_body q.desired_body,
  binding_eq-same view.binding q.binding,
)

subject_of :
    (q : N7ProjectionSubmission) (r : ProjectionRow)
    → same_subject q r ≡ true
    → (r.device_id ≡ q.device_id) × (r.generation ≡ q.generation)
subject_of q r h = ground arith

itself : (r : ProjectionRow) → has_id r.projection_id r ≡ true
itself r = ground arith

join_projection-Enters :
    (r : ProjectionRow) (q : N7ProjectionSubmission) (now : Time) (s : Store)
    → IsKeyed s
    → find (same_subject q) s.records ≡ some r
    → find_operation q.operation_id s ≡ none
    → Yields (EntersEffect q s) (join_projection r q now s)
unfolding join_projection
join_projection-Enters r q now s keyed here fresh = Yields-bind (projection_view _ _) _ λ view h.
    Yields-if (differs view q) _ _ (λ _. Yields-ok _ (inl refl))
      λ same.
        let shown = (projection_view-Shows r.projection_id s).at view h in
        let own =
          find_unique (has_id r.projection_id) (same_subject q) s.records r here (itself r)
            (keyed r.projection_id) in
        let e : shown.row ≡ r = cc (sym shown.found ∙ own) in
        let (network, body, hash, binding) = differs-false view q same in
        let (device, generation) = subject_of q r (find-passes (same_subject q) s.records r here) in
        Yields-ok _ (
          inr (record {
            pid = r.projection_id;
            now = now;
            row = shown.row;
            fresh = fresh;
            operations = refl;
            found = shown.found;
            content = (
              sym shown.network_id ∙ network,
              ap (λ (x : ProjectionRow). x.device_id) e ∙ device,
              ap (λ (x : ProjectionRow). x.generation) e ∙ generation,
              sym shown.desired_body ∙ body,
              sym shown.desired_hash ∙ hash,
              sym shown.binding ∙ binding,
            );
          }))

first_projection-Enters :
    (pid : Uuid) (q : N7ProjectionSubmission) (now : Time) (s : Store)
    → find_operation q.operation_id s ≡ none
    → Yields (EntersEffect q s) (first_projection pid q now s)
unfolding first_projection
first_projection-Enters pid q now s fresh =
    search (yields_rules, Yields-ok, inl, create_projection-Enters pid q now s fresh) depth 10

not_there : (o : Option OperationRow) → is_some o ≡ false → o ≡ none
not_there none h = refl
not_there (some o) h = cc

new_operation-Enters :
    (pid : Uuid) (q : N7ProjectionSubmission) (now : Time) (s : Store)
    → IsKeyed s
    → Yields (EntersEffect q s) (new_operation pid q now s)
unfolding new_operation
new_operation-Enters pid q now s keyed =
    Yields-if (operation_exists q.operation_id s) _ _ (λ _. Yields-ok _ (inl refl))
      λ absent.
        let fresh = not_there _ absent in
        Yields-if_let_some (find (same_subject q) s.records) _ _
          (λ r here. join_projection-Enters r q now s keyed here fresh)
          (λ _. first_projection-Enters pid q now s fresh)

-- A reservation writes no operation, or one that names what it asks for.
pub reserve_in-Enters :
    (pid : Uuid) (q : N7ProjectionSubmission) (now : Time) (s : Store)
    → IsKeyed s
    → Yields (EntersEffect q s) (reserve_in pid q now s)
unfolding reserve_in
reserve_in-Enters pid q now s keyed = Yields-bind (sql_integer _) _ λ _ _.
    Yields-bind (sql_integer _) _ λ _ _.
      Yields-if_let_some (matching_operation q s) _ _
        (λ o _. Yields-bind (projection_view _ _) _ λ view _. Yields-ok _ (inl refl))
        (λ _. new_operation-Enters pid q now s keyed)
