-- ===== src/State/History/Numbers.antt =====
-- crates/nodescale-state/src/n7.rs: the numbers that the attempts of one projection get.
use mathlib.Core.Path.{subst}
use hermes_nodescale.Prelude.{
  ℕ, ◌+◌, ◌≡◌, refl, sym, ap, ◌∙◌, inl, inr, Bool, true, false, Option, none, some, List, [], ◌∷◌,
  arith, ◌==◌, ==_iff, Bool-cases,
}
use hermes_nodescale.Domain.Identifier.{Uuid}
use hermes_nodescale.State.Tables.{find, set_if, count, greatest, update_where}
use hermes_nodescale.State.Rows.{
  Time, Store, desired, attempted, N7ProjectionState, ProjectionRow, AttemptRow, find_record,
  has_id, next_attempt_number,
}
use hermes_nodescale.State.Tables.Laws.{changed, find-update_where, find-passes}
use hermes_nodescale.State.Attempt.{AttemptRequest, fenced, begin_attempt, replace_attempt}
use hermes_nodescale.State.Recover.{Verdict, agrees, disagrees, settle}
use hermes_nodescale.State.Submission.{N7ProjectionSubmission}
use hermes_nodescale.State.Effects.Reserve.{Created}
use hermes_nodescale.State.Recover.{judge}
use hermes_nodescale.State.Effects.Attempt.{Appended}
use hermes_nodescale.State.History.{Command, run, run-keeps, empty_store}
use hermes_nodescale.State.History.Change.{
  Change, same, created, begun, retried, looked, settled, exec-Change,
}
use hermes_nodescale.State.History.Moves.{fenced-true, state_eq-same, settle-same}

abbrev pub of_projection : Uuid → AttemptRow → Bool
of_projection pid a = a.projection_id == pid

-- Newest first, each attempt's number is one more than the number of earlier attempts of its
-- projection.
abbrev pub IsNumbered : List AttemptRow → Type 0
IsNumbered [] = Unit
IsNumbered (a ∷ as') =
    (a.attempt_number ≡ count (of_projection a.projection_id) as' + 1) × IsNumbered as'

-- So the greatest number is the number of attempts.
greatest-IsNumbered :
    (pid : Uuid) (as' : List AttemptRow)
    → IsNumbered as'
    → greatest (of_projection pid) (λ (a : AttemptRow). a.attempt_number) as'
      ≡ count (of_projection pid) as'
greatest-IsNumbered pid [] h = refl
greatest-IsNumbered pid (a ∷ as') h =
    let rest = greatest-IsNumbered pid as' h.1 in
    elim (Bool-cases (a.projection_id == pid)) [
      | inl mine ↦
          let same_id = ap (λ p. count (of_projection p) as') ((==_iff _ _).0 mine) in
          ground (arith, rest, same_id, h.0)
      | inr other ↦ rw other rest
    ]

-- There is no such projection, or no attempt was made.
abbrev pub untried : Option ProjectionRow → Bool
untried none = true
untried (some r) = elim r.state [ desired ↦ true | _ ↦ false ]

-- Attempts are numbered from one without a gap, and a projection has none exactly while it is
-- desired.
pub record HasCountedAttempts (s : Store) : Type 0 where
  pub in_order : IsNumbered s.attempts
  pub tried : (j : Uuid) → (count (of_projection j) s.attempts == 0) ≡ untried (find_record j s)

-- Changes that do not make a projection tried or untried.
retry_untried :
    (p : ProjectionRow → Bool) (aid : Uuid) (o : Option ProjectionRow)
    → untried (changed (set_if p (replace_attempt aid)) o) ≡ untried o
retry_untried p aid none = refl
retry_untried p aid (some r) = ground arith

untried-settle :
    (pid : Uuid) (revision : ℕ) (v : Verdict) (now : Time) (o : Option ProjectionRow)
    → untried (changed (set_if (fenced pid attempted revision) (settle v now)) o) ≡ untried o
untried-settle pid revision v now none = refl
untried-settle pid revision agrees now (some r) =
    ground (arith, fenced-true pid attempted revision r)
untried-settle pid revision disagrees now (some r) =
    ground (arith, fenced-true pid attempted revision r)

begin_untried :
    (j pid : Uuid) (revision : ℕ) (aid : Uuid) (now : Time) (rows : List ProjectionRow)
    → (pid == j) ≡ false
    → untried (
        changed
          (set_if (fenced pid desired revision) (begin_attempt aid now))
          (find (has_id j) rows))
      ≡ untried (find (has_id j) rows)
begin_untried j pid revision aid now [] away = refl
begin_untried j pid revision aid now (r ∷ rows) away =
    ground (arith, begin_untried j pid revision aid now rows away)

untried-at :
    (o : Option ProjectionRow) (r : ProjectionRow) (from : N7ProjectionState)
    → o ≡ some r
    → r.state ≡ from
    → untried o ≡ untried (some (record r { state = from }))
untried-at o r from e d = rw (e, d) refl

fenced_holds :
    (pid : Uuid) (from : N7ProjectionState) (revision : ℕ) (r : ProjectionRow)
    → has_id pid r ≡ true
    → r.state ≡ from
    → r.revision ≡ revision
    → fenced pid from revision r ≡ true
fenced_holds pid from revision r id d e = ground (arith, state_eq-same r.state from d)

-- A row that is fenced gets its change.
fenced_hit :
    (pid : Uuid) (from : N7ProjectionState) (revision : ℕ) (f : ProjectionRow → ProjectionRow)
    (s : Store) (r : ProjectionRow)
    → find_record pid s ≡ some r
    → r.state ≡ from
    → r.revision ≡ revision
    → changed (set_if (fenced pid from revision) f) (find_record pid s) ≡ some (f r)
fenced_hit pid from revision f s r found d e =
    let id = find-passes (has_id pid) s.records r found in
    rw (found, fenced_holds pid from revision r id d e) refl

module _ (pid : Uuid) (from : N7ProjectionState) (change : ProjectionRow → ProjectionRow)
    (number : ℕ) (q : AttemptRequest) (s t : Store) (h : HasCountedAttempts s)
    (appended : Appended pid from change number q s t) where
  -- The attempt that was appended has the next number, and its projection has been tried.
  counted :
      number ≡ count (of_projection pid) s.attempts + 1
      → untried (find_record pid t) ≡ false
      → ((j : Uuid) → (pid == j) ≡ false → untried (find_record j t) ≡ untried (find_record j s))
      → HasCountedAttempts t
  counted next tried_now others = record {
    in_order = rw appended.attempts (next, h.in_order);
    tried = λ j.
        let rows = ap (λ as'. count (of_projection j) as' == 0) appended.attempts in
        elim (Bool-cases (pid == j)) [
          | inl mine ↦
              rows
              ∙ rw mine (ground arith)
              ∙ sym
                  (subst (λ i. untried (find_record i t) ≡ false) ((==_iff pid j).0 mine) tried_now)
          | inr other ↦ rows ∙ rw other (h.tried j) ∙ sym (others j other)
        ];
  }

Created-untried :
    (pid : Uuid) (q : N7ProjectionSubmission) (now : Time) (s t : Store)
    → Created pid q now s t
    → (j : Uuid) → untried (find_record j t) ≡ untried (find_record j s)
Created-untried pid q now s t c j =
    let rows = ap (λ rows. untried (find (has_id j) rows)) c.records in
    elim (Bool-cases (pid == j)) [
      | inl here ↦
          rows
          ∙ rw here refl
          ∙ sym (ap untried (subst (λ i. find_record i s ≡ none) ((==_iff pid j).0 here) c.fresh))
      | inr away ↦ rows ∙ rw away refl
    ]

settled_untried :
    (pid : Uuid) (revision : ℕ) (v : Verdict) (now : Time) (s t : Store)
    → t.records ≡ update_where (fenced pid attempted revision) (settle v now) s.records
    → (j : Uuid) → untried (find_record j t) ≡ untried (find_record j s)
settled_untried pid revision v now s t e j =
    ap untried (
      ap (find (has_id j)) e
      ∙ find-update_where (has_id j) (fenced pid attempted revision) (settle v now) s.records
          (λ r. rw (settle-same v now r) refl))
    ∙ untried-settle pid revision v now (find_record j s)

module _ (sha256 : List ℕ → List ℕ) where
  begun-counted :
      (pid : Uuid) (q : AttemptRequest) (s t : Store)
      → HasCountedAttempts s
      → Appended pid desired (begin_attempt q.attempt_id q.now) 1 q s t
      → HasCountedAttempts t
  begun-counted pid q s t h c =
      let seen = λ (j : Uuid).
        ap (find (has_id j)) c.records
        ∙ find-update_where (has_id j) (fenced pid desired q.expected_revision)
            (begin_attempt q.attempt_id q.now) s.records (λ r. refl) in
      let none_yet = h.tried pid ∙ untried-at _ c.row desired c.found c.state in
      counted pid desired _ 1 q s t h c (ground (arith, none_yet))
        (ap untried (
          seen pid
          ∙ fenced_hit pid desired q.expected_revision _ s c.row c.found c.state c.revision))
        (λ j other.
          ap untried (seen j) ∙ begin_untried j pid q.expected_revision _ _ s.records other)

  retried-counted :
      (pid : Uuid) (q : AttemptRequest) (s t : Store)
      → HasCountedAttempts s
      → Appended pid attempted (replace_attempt q.attempt_id) (next_attempt_number pid s) q s t
      → HasCountedAttempts t
  unfolding next_attempt_number
  retried-counted pid q s t h c =
      let seen = λ (j : Uuid).
        ap untried (
          ap (find (has_id j)) c.records
          ∙ find-update_where (has_id j) (fenced pid attempted q.expected_revision)
              (replace_attempt q.attempt_id) s.records (λ r. refl))
        ∙ retry_untried (fenced pid attempted q.expected_revision) q.attempt_id (find_record j s) in
      counted pid attempted _ _ q s t h c (rw (greatest-IsNumbered pid s.attempts h.in_order) refl)
        (seen pid ∙ untried-at _ c.row attempted c.found c.state) (λ j _. seen j)

  same-counted :
      (s t : Store)
      → HasCountedAttempts s
      → t.attempts ≡ s.attempts
      → ((j : Uuid) → untried (find_record j t) ≡ untried (find_record j s))
      → HasCountedAttempts t
  same-counted s t h e u = record {
    in_order = rw e h.in_order;
    tried = λ j. rw e (h.tried j) ∙ sym (u j);
  }

  Change-counted : (s t : Store) → HasCountedAttempts s → Change sha256 s t → HasCountedAttempts t
  Change-counted s t h (same e) = same-counted s t h e.attempts (λ j. rw e.records refl)
  Change-counted s t h (looked pid aid q i e) = same-counted s t h i.attempts (λ j. rw e refl)
  Change-counted s t h (begun pid q c) = begun-counted pid q s t h c
  Change-counted s t h (retried pid q c) = retried-counted pid q s t h c
  Change-counted s t h (created pid q now c) =
      same-counted s t h c.attempts (Created-untried pid q now s t c)
  Change-counted s t h (settled pid aid q i d) = same-counted s t h i.attempts λ j.
      settled_untried pid q.expected_revision (judge sha256 d.view d.body) q.now s t d.records j

  -- After every sequence of operations on an empty store, the attempts of each projection are
  -- numbered 1, 2, 3 and so on in the order in which they were made, so that no number is used
  -- twice, and a projection is desired exactly as long as it has no attempt.
  pub attempts_counted : (cs : List Command) → HasCountedAttempts (run sha256 cs empty_store)
  attempts_counted cs =
      run-keeps sha256 HasCountedAttempts (λ c s h. Change-counted s _ h (exec-Change sha256 c s))
        cs empty_store (record { in_order = tt; tried = λ j. refl })
