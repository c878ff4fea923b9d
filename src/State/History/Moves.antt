-- ===== src/State/History/Moves.antt =====
-- crates/nodescale-state/src/n7.rs: the lifecycle that the operations implement, one projection at
-- a time.
use hermes_nodescale.Prelude.{
  ℕ, ◌≡◌, refl, sym, ◌∙◌, ap, ◌⊎◌, inl, inr, true, Option, none, some, List, arith, Option-cases,
  Bool-cases, ◌==◌, ==_iff,
}
use hermes_nodescale.Domain.Identifier.{Uuid}
use hermes_nodescale.State.Tables.{find, update_where}
use hermes_nodescale.State.Tables.Laws.{find-update_where}
use hermes_nodescale.State.Submission.{N7ProjectionSubmission}
use hermes_nodescale.State.Rows.{
  Time, Store, desired, attempted, N7ProjectionState, state_eq, ProjectionRow, find_record, has_id,
}
use hermes_nodescale.State.Reserve.{desired_row}
use hermes_nodescale.State.Attempt.{fenced, begin_attempt, replace_attempt}
use hermes_nodescale.State.Recover.{Verdict, agrees, disagrees, settle}
use hermes_nodescale.State.Effects.Reserve.{Created}
use hermes_nodescale.State.History.{Command, exec}
use hermes_nodescale.State.History.Change.{
  Change, same, created, begun, retried, looked, settled, exec-Change,
}

-- One move of one projection, which may not be there before it.
pub data Moves (o p : Option ProjectionRow) : Type 0 where
  stays : p ≡ o → Moves o p
  appears :
      (pid : Uuid) (q : N7ProjectionSubmission) (now : Time)
      → o ≡ none
      → p ≡ some (desired_row pid q now)
      → Moves o p
  begins :
      (r : ProjectionRow) (attempt_id : Uuid) (now : Time)
      → o ≡ some r
      → r.state ≡ desired
      → p ≡ some (begin_attempt attempt_id now r)
      → Moves o p
  retries :
      (r : ProjectionRow) (attempt_id : Uuid)
      → o ≡ some r
      → r.state ≡ attempted
      → p ≡ some (replace_attempt attempt_id r)
      → Moves o p
  settles :
      (r : ProjectionRow) (verdict : Verdict) (now : Time)
      → o ≡ some r
      → r.state ≡ attempted
      → p ≡ some (settle verdict now r)
      → Moves o p

state_eq-true : (a b : N7ProjectionState) → state_eq a b ≡ true → a ≡ b
state_eq-true a b h = ground arith

pub state_eq-same : (a b : N7ProjectionState) → a ≡ b → state_eq a b ≡ true
state_eq-same a b h = ground arith

pub fenced-true :
    (pid : Uuid) (from : N7ProjectionState) (revision : ℕ) (r : ProjectionRow)
    → fenced pid from revision r ≡ true
    → (r.projection_id ≡ pid) × (r.state ≡ from) × (r.revision ≡ revision)
fenced-true pid from revision r h = ground (arith, state_eq-true r.state from)

pub settle-same :
    (v : Verdict) (now : Time) (r : ProjectionRow)
    → (settle v now r).projection_id ≡ r.projection_id
settle-same agrees now r = refl
settle-same disagrees now r = refl

-- What a fenced update does to one projection: nothing, or the change, if it stands as fenced.
pub fenced-moves :
    (j pid : Uuid) (from : N7ProjectionState) (revision : ℕ) (f : ProjectionRow → ProjectionRow)
    (rows : List ProjectionRow)
    → ((r : ProjectionRow) → (f r).projection_id ≡ r.projection_id)
    → let after = find (has_id j) (update_where (fenced pid from revision) f rows) in
      (after ≡ find (has_id j) rows)
      ⊎ ((r : ProjectionRow) × (find (has_id j) rows ≡ some r)
          × (r.state ≡ from)
          × (r.projection_id ≡ pid)
          × (after ≡ some (f r)))
fenced-moves j pid from revision f rows keep =
    let seen =
      find-update_where (has_id j) (fenced pid from revision) f rows (λ r. rw (keep r) refl) in
    elim (Option-cases (find (has_id j) rows)) [
      | inl absent ↦ inl (seen ∙ rw absent refl)
      | inr (r, found) ↦ elim (Bool-cases (fenced pid from revision r)) [
        | inl passes ↦
            let (id, state, _) = fenced-true pid from revision r passes in
            inr (r, found, state, id, seen ∙ rw (found, passes) refl)
        | inr fails ↦ inl (seen ∙ rw (found, fails) refl)
      ]
    ]

created-Moves :
    (pid : Uuid) (q : N7ProjectionSubmission) (now : Time) (s t : Store) (j : Uuid)
    → Created pid q now s t
    → Moves (find_record j s) (find_record j t)
created-Moves pid q now s t j c = elim (Bool-cases (pid == j)) [
  | inl here ↦
      appears pid q now (rw (sym ((==_iff pid j).0 here)) c.fresh)
        (ap (find (has_id j)) c.records ∙ rw here refl)
  | inr away ↦ stays (ap (find (has_id j)) c.records ∙ rw away refl)
]

module _ (sha256 : List ℕ → List ℕ) where
  pub Change-Moves :
      (s t : Store) (j : Uuid) → Change sha256 s t → Moves (find_record j s) (find_record j t)
  Change-Moves s t j (same e) = stays (ap (find (has_id j)) e.records)
  Change-Moves s t j (created pid q now c) = created-Moves pid q now s t j c
  Change-Moves s t j (looked pid aid q i e) = stays (ap (find (has_id j)) e)
  Change-Moves s t j (begun pid q c) =
      let e = ap (find (has_id j)) c.records in
      elim (fenced-moves j pid desired q.expected_revision _ s.records (λ r. refl)) [
        | inl none_changed ↦ stays (e ∙ none_changed)
        | inr (r, found, state, _, after) ↦ begins r q.attempt_id q.now found state (e ∙ after)
      ]
  Change-Moves s t j (retried pid q c) =
      let e = ap (find (has_id j)) c.records in
      elim (fenced-moves j pid attempted q.expected_revision _ s.records (λ r. refl)) [
        | inl none_changed ↦ stays (e ∙ none_changed)
        | inr (r, found, state, _, after) ↦ retries r q.attempt_id found state (e ∙ after)
      ]
  Change-Moves s t j (settled pid aid q i d) =
      let e = ap (find (has_id j)) d.records in
      elim (fenced-moves j pid attempted q.expected_revision _ s.records (settle-same _ q.now)) [
        | inl none_changed ↦ stays (e ∙ none_changed)
        | inr (r, found, state, _, after) ↦ settles r _ q.now found state (e ∙ after)
      ]

  -- Whatever an operation returns, each projection stays as it is or makes one move of its
  -- lifecycle: it appears as desired, begins its attempts, has its current attempt replaced, or is
  -- settled after an attempt.
  pub exec-Moves :
      (c : Command) (s : Store) (j : Uuid)
      → Moves (find_record j s) (find_record j (exec sha256 c s))
  exec-Moves c s j = Change-Moves s _ j (exec-Change sha256 c s)
