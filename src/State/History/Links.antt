-- ===== src/State/History/Links.antt =====
-- crates/nodescale-state/src/n7.rs: which projection each operation names.
use mathlib.Core.Path.{subst}
use hermes_nodescale.Prelude.{
  ℕ, ◌≤◌, ◌≡◌, refl, sym, ap, ◌∙◌, ◌⊎◌, inl, inr, Bool, none, some, List, [], ◌∷◌, arith, ◌==◌,
  Bool-cases,
}
use hermes_nodescale.Text.{Text, text_eq}
use hermes_nodescale.Text.Laws.{text_eq_iff}
use hermes_nodescale.Domain.Identifier.{Uuid}
use hermes_nodescale.State.Tables.{find, count}
use hermes_nodescale.State.Tables.Laws.{count-update_where, count-absent}
use hermes_nodescale.State.Submission.{N7ProjectionSubmission}
use hermes_nodescale.State.Rows.{
  Time, Store, desired, attempted, ProjectionRow, OperationRow, find_record, find_operation, has_id,
}
use hermes_nodescale.State.Reserve.{reserve_n7_projection, reserve_in}
use hermes_nodescale.State.Attempt.{
  record_attempt, attempt_in, fenced, begin_attempt, replace_attempt,
}
use hermes_nodescale.State.Recover.{recover_from_inspection, recover_in, settle, judge}
use hermes_nodescale.State.Transaction.{transactional-keeps}
use hermes_nodescale.State.Yields.{Yields-weaken}
use hermes_nodescale.State.Effects.Reserve.{Created}
use hermes_nodescale.State.Effects.Recorded.{IsKeyed, IsOf, entered, Enters, reserve_in-Enters}
use hermes_nodescale.State.Effects.Operations.{attempt_in-operations, recover_in-operations}
use hermes_nodescale.State.History.{
  Command, reserve, attempt, recover, elsewhere, exec, run, run-keeps, empty_store,
}
use hermes_nodescale.State.History.Change.{
  Change, same, created, begun, retried, looked, settled, exec-Change,
}
use hermes_nodescale.State.History.Moves.{settle-same}
use hermes_nodescale.State.History.Lifelong.{SameContent, projection_lives_on}

abbrev pub has_operation : Text → OperationRow → Bool
has_operation operation_id o = text_eq o.submission.operation_id operation_id

-- No two rows of a table share their key, and each operation names a projection that its
-- submission asks for.
pub record IsLinked (s : Store) : Type 0 where
  pub keyed : IsKeyed s
  pub named : (operation_id : Text) → count (has_operation operation_id) s.operations ≤ 1
  pub asked :
      (operation_id : Text) (o : OperationRow)
      → find_operation operation_id s ≡ some o
      → (row : ProjectionRow) × (find_record o.projection_id s ≡ some row) × IsOf o.submission row

Created-IsKeyed :
    (pid : Uuid) (q : N7ProjectionSubmission) (now : Time) (s t : Store)
    → IsKeyed s
    → Created pid q now s t
    → IsKeyed t
Created-IsKeyed pid q now s t h c j = rw c.records (elim (Bool-cases (pid == j)) [
  | inl here ↦
      let e : pid ≡ j = ground arith in
      let absent : count (has_id j) s.records ≡ 0 =
        count-absent (has_id j) s.records (subst (λ x. find_record x s ≡ none) e c.fresh) in
      rw (here, absent) (omega arith)
  | inr other ↦ rw other (h j)
])

-- A projection with the same content is asked for by the same submissions.
IsOf-content :
    (q : N7ProjectionSubmission) (a b : ProjectionRow) → SameContent a b → IsOf q a → IsOf q b
IsOf-content q a b (_, n, d, g, body, hash, binding, _) (n', d', g', body', hash', binding') =
    (n ∙ n', d ∙ d', g ∙ g', body ∙ body', hash ∙ hash', binding ∙ binding')

one_more :
    (op : Text) (q : N7ProjectionSubmission) (s t : Store)
    → count (has_operation op) s.operations ≤ 1
    → Enters q s t
    → count (has_operation op) t.operations ≤ 1
one_more op q s t h e = rw e.operations (elim (Bool-cases (text_eq q.operation_id op)) [
  | inl here ↦
      let same_id = (text_eq_iff q.operation_id op).0 here in
      let absent : count (has_operation op) s.operations ≡ 0 =
        count-absent (has_operation op) s.operations
          (subst (λ x. find_operation x s ≡ none) same_id e.fresh) in
      rw (here, absent) (omega arith)
  | inr other ↦ rw other h
])

-- An operation that is found after an insertion is the one inserted or was there before.
found_after :
    (op : Text) (q : N7ProjectionSubmission) (s t : Store) (o : OperationRow) (e : Enters q s t)
    → find_operation op t ≡ some o
    → (o ≡ entered e.pid q e.now) ⊎ (find_operation op s ≡ some o)
found_after op q s t o e h =
    let seen = sym (ap (find (has_operation op)) e.operations) ∙ h in
    elim (Bool-cases (text_eq q.operation_id op)) [
      | inl here ↦ inl (ground (arith, seen, here))
      | inr other ↦ inr (ground (arith, seen, other))
    ]

module _ (sha256 : List ℕ → List ℕ) where
  Change-IsKeyed : (s t : Store) → IsKeyed s → Change sha256 s t → IsKeyed t
  Change-IsKeyed s t h (same e) j = rw e.records (h j)
  Change-IsKeyed s t h (created pid q now c) j = Created-IsKeyed pid q now s t h c j
  Change-IsKeyed s t h (begun pid q c) j =
      rw
        (
          c.records,
          count-update_where (has_id j) (fenced pid desired q.expected_revision)
              (begin_attempt q.attempt_id q.now) s.records (λ r. refl),
        )
        (h j)
  Change-IsKeyed s t h (retried pid q c) j =
      rw
        (
          c.records,
          count-update_where (has_id j) (fenced pid attempted q.expected_revision)
              (replace_attempt q.attempt_id) s.records (λ r. refl),
        )
        (h j)
  Change-IsKeyed s t h (looked pid aid q i e) j = rw e (h j)
  Change-IsKeyed s t h (settled pid aid q i e) j =
      let v = judge sha256 e.view e.body in
      rw
        (
          e.records,
          count-update_where (has_id j) (fenced pid attempted q.expected_revision) (settle v q.now)
              s.records (λ r. rw (settle-same v q.now r) refl),
        )
        (h j)

  -- What a command wrote into the table of operations.
  abbrev pub Writes : Store → Store → Type 0
  Writes s t = (t.operations ≡ s.operations) ⊎ ((q : N7ProjectionSubmission) × Enters q s t)

  pub exec-Writes : (c : Command) (s : Store) → IsKeyed s → Writes s (exec sha256 c s)
  unfolding exec reserve_n7_projection record_attempt recover_from_inspection
  exec-Writes (reserve pid q now) s keyed =
      transactional-keeps (Writes s) (reserve_in pid q now) s (inl refl) (
        Yields-weaken _ (reserve_in-Enters pid q now s keyed)
          λ r effect. elim effect [ inl e ↦ inl e | inr c ↦ inr (q, c) ])
  exec-Writes (attempt q) s keyed =
      transactional-keeps (Writes s) (attempt_in q) s (inl refl)
        (Yields-weaken _ (attempt_in-operations q s) λ r. inl)
  exec-Writes (recover q) s keyed =
      transactional-keeps (Writes s) (recover_in sha256 q) s (inl refl)
        (Yields-weaken _ (recover_in-operations sha256 q s) λ r. inl)
  exec-Writes (elsewhere b d g) s keyed = inl refl

  -- A projection that was asked for stays so.
  pub still_asked :
      (c : Command) (s : Store) (q : N7ProjectionSubmission) (pid : Uuid) (row : ProjectionRow)
      → find_record pid s ≡ some row
      → IsOf q row
      → (b : ProjectionRow) × (find_record pid (exec sha256 c s) ≡ some b) × IsOf q b
  still_asked c s q pid row found content =
      let (b, here, kept, _) = projection_lives_on sha256 (c ∷ []) s pid row found in
      (b, unfold run in here, IsOf-content q row b kept content)

  asked_after :
      (c : Command) (s : Store) (op : Text) (o : OperationRow)
      → IsLinked s
      → Writes s (exec sha256 c s)
      → find_operation op (exec sha256 c s) ≡ some o
      → (row : ProjectionRow) × (find_record o.projection_id (exec sha256 c s) ≡ some row)
        × IsOf o.submission row
  asked_after c s op o h (inl e) found =
      let (row, there, content) = h.asked op o (sym (ap (find (has_operation op)) e) ∙ found) in
      still_asked c s o.submission o.projection_id row there content
  asked_after c s op o h (inr (q, e)) found = elim (found_after op q s _ o e found) [
    | inl new ↦
        subst
          (λ (x : OperationRow).
            (row : ProjectionRow) × (find_record x.projection_id (exec sha256 c s) ≡ some row)
            × IsOf x.submission row)
          (sym new) (e.row, e.found, e.content)
    | inr old ↦
        let (row, there, content) = h.asked op o old in
        still_asked c s o.submission o.projection_id row there content
  ]

  named_after :
      (c : Command) (s : Store) (op : Text)
      → IsLinked s
      → Writes s (exec sha256 c s)
      → count (has_operation op) (exec sha256 c s).operations ≤ 1
  named_after c s op h (inl e) = rw e (h.named op)
  named_after c s op h (inr (q, e)) = one_more op q s _ (h.named op) e

  pub exec-IsLinked : (c : Command) (s : Store) → IsLinked s → IsLinked (exec sha256 c s)
  exec-IsLinked c s h =
      let wrote = exec-Writes c s h.keyed in
      record {
        keyed = Change-IsKeyed s _ h.keyed (exec-Change sha256 c s);
        named = λ op. named_after c s op h wrote;
        asked = λ op o. asked_after c s op o h wrote;
      }

  -- After every sequence of operations on an empty store, an operation's identifier is recorded at
  -- most once, a projection's at most once, and every recorded operation names a projection that
  -- is in the store with the network, the device, the generation, the body, the digest and the
  -- binding of the operation's own submission.
  pub run-IsLinked : (cs : List Command) → IsLinked (run sha256 cs empty_store)
  run-IsLinked cs = run-keeps sha256 IsLinked exec-IsLinked cs empty_store (record {
    keyed = λ j. omega arith;
    named = λ op. omega arith;
    asked = λ op o h. absurd (cc h);
  })
