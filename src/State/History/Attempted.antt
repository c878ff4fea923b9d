-- ===== src/State/History/Attempted.antt =====
-- crates/nodescale-state/src/n7.rs: the operation that each attempt was made by.
use mathlib.Core.Path.{subst}
use hermes_nodescale.Prelude.{
  ℕ, ◌≡◌, refl, sym, ap, ◌∙◌, inl, inr, Bool, false, none, List, [], ◌∷◌, ok, ok_or, >>=-eq-ok,
  arith, any, Bool-cases,
}
use hermes_nodescale.Text.{Text, text_eq}
use hermes_nodescale.Text.Laws.{text_eq_iff}
use hermes_nodescale.Domain.Identifier.{Uuid}
use hermes_nodescale.Domain.Generation.{Generation}
use hermes_nodescale.State.Tables.{find}
use hermes_nodescale.State.Rows.{Store, AttemptRow, find_operation, operation_projection}
use hermes_nodescale.State.Reserve.{reserve_n7_projection, reserve_in}
use hermes_nodescale.State.Submission.{not_found}
use hermes_nodescale.State.Attempt.{AttemptRequest, numbered, record_attempt, attempt_in}
use hermes_nodescale.State.Recover.{recover_from_inspection, recover_in}
use hermes_nodescale.State.Transaction.{transactional-keeps}
use hermes_nodescale.State.Yields.{Yields-weaken}
use hermes_nodescale.State.Effects.Reserve.{reserve_in-effect}
use hermes_nodescale.State.Effects.Attempt.{attempt_in-effect}
use hermes_nodescale.State.Effects.Recover.{recover_in-effect}
use hermes_nodescale.State.History.{
  Command, reserve, attempt, recover, elsewhere, exec, run, run-keeps, empty_store,
}
use hermes_nodescale.State.History.Links.{
  IsLinked, Writes, exec-Writes, exec-IsLinked, has_operation, run-IsLinked,
}

abbrev pub made_by : Text → AttemptRow → Bool
made_by operation_id a = text_eq a.operation_id operation_id

-- An operation that is not recorded has made no attempt.
abbrev pub IsAttributed : Store → Type 0
IsAttributed s = (op : Text) → find_operation op s ≡ none → any (made_by op) s.attempts ≡ false

-- What a command added to the attempts was made by a recorded operation.
abbrev AddsKnown : Store → Store → Type 0
AddsKnown s t =
    (op : Text)
    → find_operation op s ≡ none
    → any (made_by op) s.attempts ≡ false
    → any (made_by op) t.attempts ≡ false

named-found :
    (op : Text) (d : Uuid) (g : Generation) (s : Store) (pid : Uuid)
    → operation_projection op d g s ≡ ok pid
    → (find_operation op s ≡ none)
    → ⊥
unfolding operation_projection
named-found op d g s pid named absent =
    let (o, h, _) = >>=-eq-ok (ok_or (find_operation op s) (not_found "N7 operation")) _ named in
    cc (sym h ∙ ap (λ x. ok_or x (not_found "N7 operation")) absent)

-- The attempt that an accepted request appends is one of a recorded operation.
appended_known :
    (q : AttemptRequest) (pid named : Uuid) (n : ℕ) (s t : Store)
    → operation_projection q.operation_id q.device_id q.generation s ≡ ok named
    → t.attempts ≡ numbered q pid n ∷ s.attempts
    → AddsKnown s t
appended_known q pid named n s t h e op absent known =
    rw (e, known)
      (elim (Bool-cases (text_eq q.operation_id op)) [
        | inl here ↦
            let same = (text_eq_iff q.operation_id op).0 here in
            absurd (
              named-found op q.device_id q.generation s named
                (subst (λ x. operation_projection x q.device_id q.generation s ≡ ok named) same h)
                absent)
        | inr other ↦ rw other refl
      ])

untouched : (s t : Store) → t.attempts ≡ s.attempts → AddsKnown s t
untouched s t e op absent known = rw e known

module _ (sha256 : List ℕ → List ℕ) where
  exec-AddsKnown : (c : Command) (s : Store) → AddsKnown s (exec sha256 c s)
  unfolding exec reserve_n7_projection record_attempt recover_from_inspection
  exec-AddsKnown (reserve pid q now) s =
      transactional-keeps (AddsKnown s) (reserve_in pid q now) s (untouched s s refl) (
        Yields-weaken _ (reserve_in-effect pid q now s) λ r effect. elim effect [
          | inl e ↦ untouched s r.1 e.attempts
          | inr c ↦ untouched s r.1 c.attempts
        ])
  exec-AddsKnown (attempt q) s =
      transactional-keeps (AddsKnown s) (attempt_in q) s (untouched s s refl) (
        Yields-weaken _ (attempt_in-effect q s) λ r (pid, named, (_, effect)). elim effect [
          | inl e ↦ untouched s r.1 e.attempts
          | inr (inl b) ↦ appended_known q pid pid 1 s r.1 named b.attempts
          | inr (inr b) ↦ appended_known q pid pid _ s r.1 named b.attempts
        ])
  exec-AddsKnown (recover q) s =
      transactional-keeps (AddsKnown s) (recover_in sha256 q) s (untouched s s refl) (
        Yields-weaken _ (recover_in-effect sha256 q s) λ r (pid, _, (_, effect)). elim effect [
          | inl e ↦ untouched s r.1 e.attempts
          | inr (aid, i, _) ↦ untouched s r.1 i.attempts
        ])
  exec-AddsKnown (elsewhere b d g) s = λ op absent known. known

  -- What is not recorded after a command was not recorded before it.
  absent_before :
      (op : Text) (s t : Store)
      → Writes sha256 s t
      → find_operation op t ≡ none
      → find_operation op s ≡ none
  absent_before op s t (inl e) h = sym (ap (find (has_operation op)) e) ∙ h
  absent_before op s t (inr (q, e)) h =
      let seen = sym (ap (find (has_operation op)) e.operations) ∙ h in
      elim (Bool-cases (text_eq q.operation_id op)) [
        | inl here ↦ ground (arith, seen, here)
        | inr other ↦ ground (arith, seen, other)
      ]

  pub run-IsAttributed :
      (cs : List Command)
      → IsLinked (run sha256 cs empty_store) × IsAttributed (run sha256 cs empty_store)
  run-IsAttributed cs =
      run-keeps sha256 (λ s. IsLinked s × IsAttributed s)
        (λ c s (linked, known). (
          exec-IsLinked sha256 c s linked,
          λ op absent.
              let before = absent_before op s _ (exec-Writes sha256 c s linked.keyed) absent in
              exec-AddsKnown c s op before (known op before),
        ))
        cs empty_store (unfold run in run-IsLinked sha256 [], λ op absent. refl)
