-- ===== src/State/History/Settlement.antt =====
-- crates/nodescale-state/src/n7.rs: no projection is settled without evidence.
use mathlib.Core.Path.{subst}
use hermes_nodescale.Prelude.{
  ℕ, ◌≡◌, refl, sym, ap, ◌∙◌, ◌⊎◌, inl, inr, ◌≢◌, Bool, true, some, List, ◌∷◌, arith, any, ◌==◌,
  Bool-cases, ==_iff,
}
use hermes_nodescale.Domain.Identifier.{Uuid}
use hermes_nodescale.State.Tables.{find}
use hermes_nodescale.State.Tables.Laws.{find-passes}
use hermes_nodescale.State.Reserve.{desired_row}
use hermes_nodescale.State.Submission.{N7ProjectionSubmission}
use hermes_nodescale.State.Rows.{
  Time, Store, desired, attempted, N7ProjectionState, ProjectionRow, InspectionRow, find_record,
  has_id,
}
use hermes_nodescale.State.Attempt.{AttemptRequest}
use hermes_nodescale.State.Recover.{
  RecoverRequest, Verdict, agrees, disagrees, settled_state, settle, judge,
}
use hermes_nodescale.State.Effects.Reserve.{Created}
use hermes_nodescale.State.Effects.Attempt.{Appended}
use hermes_nodescale.State.Effects.Recover.{Inspected, Settled, inspected}
use hermes_nodescale.State.History.{Command, run, run-keeps, empty_store}
use hermes_nodescale.State.History.Change.{
  Change, same, created, begun, retried, looked, settled, exec-Change,
}
use hermes_nodescale.State.History.Moves.{fenced-moves, settle-same}
use hermes_nodescale.State.History.Evidence.{
  is_evidence, IsEvidenced, same_projection_row, Settled-evidence, settled_evidence_same,
}

grown :
    (test : InspectionRow → Bool) (x : InspectionRow) (rows : List InspectionRow)
    → any test rows ≡ true
    → any test (x ∷ rows) ≡ true
grown test x rows h = ground (arith, h)

-- Desired and attempted rows are not settled.
unsettled :
    (r : ProjectionRow) (v : Verdict)
    → (r.state ≡ desired) ⊎ (r.state ≡ attempted)
    → r.state ≢ settled_state v
unsettled r agrees h e = ground arith
unsettled r disagrees h e = ground arith

settled-agrees :
    (v w : Verdict) (now : Time) (r : ProjectionRow)
    → (settle w now r).state ≡ settled_state v
    → w ≡ v
settled-agrees v w now r h = ground arith

module _ (sha256 : List ℕ → List ℕ) where
  -- The evidence stays, and a row that changed is not settled.
  kept :
      (s t : Store)
      → IsEvidenced sha256 s
      → t.inspections ≡ s.inspections
      → (j : Uuid) (r : ProjectionRow) (v : Verdict) → find_record j t ≡ some r
      → r.state ≡ settled_state v
      → (find_record j t ≡ find_record j s)
        ⊎ ((x : ProjectionRow) × (find_record j t ≡ some x)
            × ((x.state ≡ desired) ⊎ (x.state ≡ attempted)))
      → any (is_evidence sha256 v r) t.inspections ≡ true
  kept s t h e j r v found state (inl at) = rw e (h j r v (sym at ∙ found) state)
  kept s t h e j r v found state (inr (x, at, early)) = absurd (
      unsettled r v
        (subst (λ y. (y.state ≡ desired) ⊎ (y.state ≡ attempted))
          (same_projection_row x r (sym at ∙ found)) early)
        state)

  Created-kept :
      (pid : Uuid) (q : N7ProjectionSubmission) (now : Time) (s t : Store) (j : Uuid)
      → Created pid q now s t
      → (find_record j t ≡ find_record j s)
        ⊎ ((x : ProjectionRow) × (find_record j t ≡ some x)
            × ((x.state ≡ desired) ⊎ (x.state ≡ attempted)))
  Created-kept pid q now s t j c =
      let rows = ap (find (has_id j)) c.records in
      elim (Bool-cases (pid == j)) [
        | inl here ↦ inr (desired_row pid q now, rows ∙ rw here refl, inl refl)
        | inr away ↦ inl (rows ∙ rw away refl)
      ]

  Appended-kept :
      (pid : Uuid) (from : N7ProjectionState) (f : ProjectionRow → ProjectionRow) (number : ℕ)
      (q : AttemptRequest) (s t : Store) (j : Uuid)
      → Appended pid from f number q s t
      → ((r : ProjectionRow) → (f r).projection_id ≡ r.projection_id)
      → ((r : ProjectionRow) → r.state ≡ from → (f r).state ≡ attempted)
      → (find_record j t ≡ find_record j s)
        ⊎ ((x : ProjectionRow) × (find_record j t ≡ some x)
            × ((x.state ≡ desired) ⊎ (x.state ≡ attempted)))
  Appended-kept pid from f number q s t j c keep stands =
      let rows = ap (find (has_id j)) c.records in
      elim (fenced-moves j pid from q.expected_revision f s.records keep) [
        | inl still ↦ inl (rows ∙ still)
        | inr (r, _, state, _, after) ↦ inr (f r, rows ∙ after, inr (stands r state))
      ]

  -- The row was settled now, or it was before.
  Settled-row :
      (pid aid : Uuid) (q : RecoverRequest) (s t : Store)
      → IsEvidenced sha256 s
      → Inspected pid aid q s t
      → Settled sha256 pid aid q s t
      → IsEvidenced sha256 t
  Settled-row pid aid q s t h i d j r v found state =
      let w = judge sha256 d.view d.body in
      let rows = ap (find (has_id j)) d.records in
      elim (fenced-moves j pid attempted q.expected_revision (settle w q.now) s.records
        (settle-same w q.now)) [
          | inl still ↦ rw i.inspections (
              grown (is_evidence sha256 v r) (inspected q pid aid) s.inspections
                (h j r v (sym (rows ∙ still) ∙ found) state))
          | inr (x, at, _, id, after) ↦
              let here = sym ((==_iff _ _).0 (find-passes (has_id j) s.records x at)) ∙ id in
              let x_is =
                same_projection_row x i.row
                  (sym (subst (λ k. find_record k s ≡ some x) here at) ∙ i.found) in
              let r_is = same_projection_row (settle w q.now x) r (sym (rows ∙ after) ∙ found) in
              let w_is =
                settled-agrees v w q.now x (ap (λ (y : ProjectionRow). y.state) r_is ∙ state) in
              let now_shown = settled_evidence_same sha256 w w q.now x t.inspections (
                subst (λ y. any (is_evidence sha256 w y) t.inspections ≡ true) (sym x_is)
                  (Settled-evidence sha256 pid aid q s t i d)) in
              subst (λ u. any (is_evidence sha256 u r) t.inspections ≡ true) w_is
                (subst (λ y. any (is_evidence sha256 w y) t.inspections ≡ true) r_is now_shown)
        ]

  Change-IsEvidenced :
      (s t : Store) → IsEvidenced sha256 s → Change sha256 s t → IsEvidenced sha256 t
  Change-IsEvidenced s t h (same e) j r v found state =
      kept s t h e.inspections j r v found state (inl (ap (find (has_id j)) e.records))
  Change-IsEvidenced s t h (created pid q now c) j r v found state =
      kept s t h c.inspections j r v found state (Created-kept pid q now s t j c)
  Change-IsEvidenced s t h (begun pid q c) j r v found state =
      kept s t h c.inspections j r v found state
        (Appended-kept pid desired _ _ q s t j c (λ x. refl) (λ x _. refl))
  Change-IsEvidenced s t h (retried pid q c) j r v found state =
      kept s t h c.inspections j r v found state
        (Appended-kept pid attempted _ _ q s t j c (λ x. refl) (λ x e. e))
  Change-IsEvidenced s t h (looked pid aid q i e) j r v found state = rw i.inspections (
      grown (is_evidence sha256 v r) (inspected q pid aid) s.inspections
        (h j r v (sym (ap (find (has_id j)) e) ∙ found) state))
  Change-IsEvidenced s t h (settled pid aid q i d) j r v found state =
      Settled-row pid aid q s t h i d j r v found state

  -- After every sequence of operations on an empty store, a projection that is applied has an
  -- inspection of its current attempt that observed exactly the body and the digest that it
  -- desires, and one that is in conflict has an inspection of its current attempt that observed
  -- another.
  pub settled_by_evidence : (cs : List Command) → IsEvidenced sha256 (run sha256 cs empty_store)
  settled_by_evidence cs =
      run-keeps sha256 (IsEvidenced sha256)
        (λ c s h. Change-IsEvidenced s _ h (exec-Change sha256 c s)) cs empty_store
        (λ j r v found _. absurd (cc found))
