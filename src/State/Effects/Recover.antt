-- ===== src/State/Effects/Recover.antt =====
-- crates/nodescale-state/src/n7.rs: what `recover_n7_projection_from_inspection` wrote, when it
-- returned Ok.
use mathlib.Core.Path.{subst}
use hermes_nodescale.Prelude.{
  ℕ, ◌≡◌, refl, ◌∙◌, sym, ◌⊎◌, inl, inr, true, not, some, List, ◌∷◌, ok, any, ◌==◌, arith,
}
use hermes_nodescale.Text.{Text}
use hermes_nodescale.Domain.Identifier.{Uuid}
use hermes_nodescale.State.Tables.{update_where}
use hermes_nodescale.State.Submission.{N7AuthoritativeInspection, observed, missing, unavailable}
use hermes_nodescale.State.Rows.{
  Time, Store, desired, attempted, applied, conflicted, N7ProjectionState, ProjectionRow,
  InspectionRow, N7ProjectionView, projection_view, find_record, operation_projection,
  current_attempt_id,
}
use hermes_nodescale.State.Device.{set_device_status}
use hermes_nodescale.State.Attempt.{fenced}
use hermes_nodescale.State.Recover.{
  RecoverRequest, is_attempt, insert_inspection, latest_body, Verdict, settle, settle_projection,
  judge, conclude_recovery, recover_by_kind, recover_by_state, recover_in,
}
use hermes_nodescale.State.Yields.{
  yields_rules, Yields, Yields-ok, Yields-err, Yields-bind, Yields-fail_if, Yields-weaken,
}
use hermes_nodescale.State.Effects.{
  SameTables, same_tables, Shows, projection_view-Shows, Shows-records,
  set_device_status-SameTables,
}

abbrev pub inspected : RecoverRequest → Uuid → Uuid → InspectionRow
inspected q pid aid = record {
  projection_id = pid;
  operation_id = q.operation_id;
  attempt_id = aid;
  expected_revision = q.expected_revision;
  inspection = q.inspection;
  inspected_at = q.now;
}

-- An inspection was appended for the current attempt of a projection that stood at `attempted`.
pub record Inspected (pid aid : Uuid) (q : RecoverRequest) (s t : Store) : Type 0 where
  pub row : ProjectionRow
  pub found : find_record pid s ≡ some row
  pub state : row.state ≡ attempted
  pub revision : row.revision ≡ q.expected_revision
  pub current : row.current_attempt_id ≡ some aid
  pub known : any (is_attempt aid pid q.operation_id) s.attempts ≡ true
  pub attempts : t.attempts ≡ s.attempts
  pub inspections : t.inspections ≡ inspected q pid aid ∷ s.inspections

-- The inspection showed a body, and the projection was settled by the latest one of its attempt.
pub record Settled (sha256 : List ℕ → List ℕ) (pid aid : Uuid) (q : RecoverRequest) (s t : Store)
    : Type 0 where
  pub view : N7ProjectionView
  pub shown : Shows pid s view
  pub given : List ℕ
  pub given_hash : Text
  pub observation : q.inspection ≡ observed given given_hash
  pub body : List ℕ
  pub read :
      latest_body pid aid (record s { inspections = inspected q pid aid ∷ s.inspections }) ≡ ok body
  pub records :
      t.records
      ≡ update_where
          (fenced pid attempted q.expected_revision)
          (settle (judge sha256 view body) q.now)
          s.records

current_attempt_id-row :
    (pid : Uuid) (s : Store) (row : ProjectionRow)
    → find_record pid s ≡ some row
    → Yields (λ aid. row.current_attempt_id ≡ some aid) (current_attempt_id pid s)
unfolding current_attempt_id
current_attempt_id-row pid s row e = record { at = λ aid h. ground arith }

insert_inspection-row :
    (row : InspectionRow) (s : Store)
    → Yields
        (λ t.
          (any (is_attempt row.attempt_id row.projection_id row.operation_id) s.attempts ≡ true)
          × (t ≡ record s { inspections = row ∷ s.inspections }))
        (insert_inspection row s)
unfolding insert_inspection
insert_inspection-row row s =
    Yields-fail_if (not (any _ s.attempts)) _ _ λ h. Yields-ok _ (ground arith, refl)

settle_projection-rows :
    (v : Verdict) (pid : Uuid) (revision : ℕ) (now : Time) (s : Store)
    → Yields
        (λ t. t ≡ record s {
          records = update_where (fenced pid attempted revision) (settle v now) s.records;
        })
        (settle_projection v pid revision now s)
unfolding settle_projection
settle_projection-rows v pid revision now s = search (yields_rules, Yields-ok)

module _ (sha256 : List ℕ → List ℕ) where
  conclude_recovery-effect :
      (v : Verdict) (view : N7ProjectionView) (q : RecoverRequest) (s : Store)
      → Yields
          (λ r.
            (r.1.records
              ≡ update_where
                  (fenced view.projection_id attempted q.expected_revision)
                  (settle v q.now)
                  s.records)
            × (r.1.attempts ≡ s.attempts)
            × (r.1.inspections ≡ s.inspections)
            × Shows view.projection_id r.1 r.0)
          (conclude_recovery sha256 v view q s)
  unfolding conclude_recovery
  conclude_recovery-effect v view q s = Yields-bind (settle_projection _ _ _ _ _) _ λ s1 h1.
      Yields-bind (set_device_status _ _ _ _) _ λ s2 h2.
        Yields-bind (projection_view _ _) _ λ after h3.
          let e = (settle_projection-rows _ _ _ _ _).at s1 h1 in
          let same = (set_device_status-SameTables _ _ _ _).at s2 h2 in
          Yields-ok _ (
            same.records ∙ rw e refl,
            same.attempts ∙ rw e refl,
            same.inspections ∙ rw e refl,
            (projection_view-Shows _ _).at after h3,
          )

  -- What an accepted recovery did for the projection of its operation.
  abbrev pub RecoverEffect : Uuid → RecoverRequest → Store → N7ProjectionView × Store → Type 0
  RecoverEffect pid q s r =
      Shows pid r.1 r.0
      × (SameTables s r.1
          ⊎ ((aid : Uuid) × Inspected pid aid q s r.1
              × ((r.1.records ≡ s.records) ⊎ Settled sha256 pid aid q s r.1)))

  module _ (view : N7ProjectionView) (q : RecoverRequest) (s : Store)
      (shown : Shows view.projection_id s view) (fence : view.revision ≡ q.expected_revision) where
    -- the store with the new inspection
    abbrev noted : Uuid → Store
    noted aid = record s { inspections = inspected q view.projection_id aid ∷ s.inspections }

    abbrev KindEffect : Uuid → N7ProjectionView × Store → Type 0
    KindEffect aid r =
        Shows view.projection_id r.1 r.0
        × (r.1.attempts ≡ s.attempts)
        × (r.1.inspections ≡ inspected q view.projection_id aid ∷ s.inspections)
        × ((r.1.records ≡ s.records) ⊎ Settled sha256 view.projection_id aid q s r.1)

    by_kind-effect :
        (i : N7AuthoritativeInspection) (aid : Uuid)
        → q.inspection ≡ i
        → Yields (KindEffect aid) (recover_by_kind sha256 i view aid q (noted aid))
    unfolding recover_by_kind
    by_kind-effect missing aid e =
        Yields-ok _ (Shows-records _ s _ view refl shown, refl, refl, inl refl)
    by_kind-effect unavailable aid e =
        Yields-ok _ (Shows-records _ s _ view refl shown, refl, refl, inl refl)
    by_kind-effect (observed given hash) aid e = Yields-bind (latest_body _ _ _) _ λ body read.
        Yields-weaken _ (conclude_recovery-effect _ _ _ _)
          λ r (records, attempts, inspections, after). (
            after,
            attempts,
            inspections,
            inr (record {
              view = view;
              shown = shown;
              given = given;
              given_hash = hash;
              observation = e;
              body = body;
              read = read;
              records = records;
            }),
          )

    by_state-effect :
        (from : N7ProjectionState)
        → view.state ≡ from
        → Yields (RecoverEffect view.projection_id q s) (recover_by_state sha256 from view q s)
    unfolding recover_by_state
    by_state-effect desired e = Yields-err _
    by_state-effect applied e = Yields-ok _ (shown, inl (same_tables s))
    by_state-effect conflicted e = Yields-ok _ (shown, inl (same_tables s))
    by_state-effect attempted e = Yields-bind (current_attempt_id _ _) _ λ aid h1.
        Yields-bind (insert_inspection _ _) _ λ s1 h2.
          let (known, e1) = (insert_inspection-row _ _).at s1 h2 in
          Yields-weaken _
            (subst (λ t. Yields (KindEffect aid) (recover_by_kind sha256 q.inspection view aid q t))
              (sym e1) (by_kind-effect q.inspection aid refl))
            λ r (after, attempts, inspections, change). (
              after,
              inr (
                aid,
                record {
                  row = shown.row;
                  found = shown.found;
                  state = sym shown.state ∙ e;
                  revision = sym shown.revision ∙ fence;
                  current = (current_attempt_id-row _ _ _ shown.found).at aid h1;
                  known = known;
                  attempts = attempts;
                  inspections = inspections;
                },
                change,
              ),
            )

  -- A recovery leaves the tables alone, or appends an inspection to the projection that its
  -- operation names, and settles the projection only by a body that was observed.
  pub recover_in-effect :
      (q : RecoverRequest) (s : Store)
      → Yields
          (λ r.
            (pid : Uuid) × (operation_projection q.operation_id q.device_id q.generation s ≡ ok pid)
            × RecoverEffect pid q s r)
          (recover_in sha256 q s)
  unfolding recover_in
  recover_in-effect q s = Yields-bind (operation_projection _ _ _ _) _ λ pid named.
      Yields-bind (projection_view _ _) _ λ view h1.
        let shown = (projection_view-Shows pid s).at view h1 in
        Yields-fail_if (not (view.revision == q.expected_revision)) _ _ λ fence.
          Yields-weaken _
            (by_state-effect view q s (subst (λ p. Shows p s view) (sym shown.projection_id) shown)
              (ground arith) view.state refl)
            λ r effect. (pid, named, subst (λ p. RecoverEffect p q s r) shown.projection_id effect)
