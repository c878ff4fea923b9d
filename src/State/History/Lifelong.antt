-- ===== src/State/History/Lifelong.antt =====
-- crates/nodescale-state/src/n7.rs: what a projection keeps through every sequence of operations.
use hermes_nodescale.Prelude.{ℕ, ◌≤◌, ◌≡◌, refl, sym, ap, ◌∙◌, Option, some, List, arith}
use hermes_nodescale.Domain.Identifier.{Uuid}
use hermes_nodescale.State.Rows.{
  Time, Store, desired, attempted, applied, conflicted, N7ProjectionState, ProjectionRow,
  find_record,
}
use hermes_nodescale.State.Attempt.{begin_attempt, replace_attempt}
use hermes_nodescale.State.Recover.{Verdict, agrees, disagrees, settle}
use hermes_nodescale.State.History.{Command, run, run-keeps}
use hermes_nodescale.State.History.Moves.{
  Moves, stays, appears, begins, retries, settles, exec-Moves,
}

-- What was desired, for which device, and by which binding.
abbrev pub SameContent : ProjectionRow → ProjectionRow → Type 0
SameContent a b =
    (b.projection_id ≡ a.projection_id)
    × (b.network_id ≡ a.network_id)
    × (b.device_id ≡ a.device_id)
    × (b.generation ≡ a.generation)
    × (b.desired_body ≡ a.desired_body)
    × (b.desired_hash ≡ a.desired_hash)
    × (b.binding ≡ a.binding)
    × (b.persisted_at ≡ a.persisted_at)

abbrev pub stage : N7ProjectionState → ℕ
stage desired = 0
stage attempted = 1
stage applied = 2
stage conflicted = 2

-- The projection is still there, with the same content and no earlier stage.
abbrev pub IsSuccessor : ProjectionRow → Option ProjectionRow → Type 0
IsSuccessor a p =
    (b : ProjectionRow) × (p ≡ some b) × SameContent a b × (stage a.state ≤ stage b.state)

some_same : {A : Type 0} (a b : A) → ◌≡◌ {A = Option A} (some a) (some b) → a ≡ b
some_same a b h = cc

settle-content :
    (a b : ProjectionRow) (v : Verdict) (now : Time)
    → SameContent a b
    → SameContent a (settle v now b) × (stage (settle v now b).state ≡ 2)
settle-content a b agrees now h = (h, refl)
settle-content a b disagrees now h = (h, refl)

-- Each move carries a successor on.
module _ (a b : ProjectionRow) (o p : Option ProjectionRow) (here : o ≡ some b)
    (content : SameContent a b) (later : stage a.state ≤ stage b.state) where
  stood :
      (r : ProjectionRow) (from : N7ProjectionState)
      → o ≡ some r
      → r.state ≡ from
      → stage b.state ≡ stage from
  stood r from e d =
      ap stage (ap (λ (x : ProjectionRow). x.state) (some_same b r (sym here ∙ e)) ∙ d)

  moved :
      (r : ProjectionRow) (f : ProjectionRow → ProjectionRow)
      → o ≡ some r
      → p ≡ some (f r)
      → SameContent a (f b)
      → stage a.state ≤ stage (f b).state
      → IsSuccessor a p
  moved r f e e' c l = (f b, e' ∙ cc, c, l)

  Moves-IsSuccessor : Moves o p → IsSuccessor a p
  Moves-IsSuccessor (stays e) = (b, e ∙ here, content, later)
  Moves-IsSuccessor (appears pid q now e _) = absurd (cc (sym e ∙ here))
  Moves-IsSuccessor (begins r aid now e d e') =
      moved r (begin_attempt aid now) e e' content (omega (arith, later, stood r desired e d))
  Moves-IsSuccessor (retries r aid e d e') = moved r (replace_attempt aid) e e' content later
  Moves-IsSuccessor (settles r v now e d e') =
      let (c, l) = settle-content a b v now content in
      moved r (settle v now) e e' c (omega (arith, later, stood r attempted e d, l))

module _ (sha256 : List ℕ → List ℕ) where
  -- Over every sequence of operations, a projection stays in the store with the identity, the
  -- body and the binding that it was reserved with, and it never returns to an earlier stage.
  pub projection_lives_on :
      (cs : List Command) (s : Store) (j : Uuid) (r : ProjectionRow)
      → find_record j s ≡ some r
      → IsSuccessor r (find_record j (run sha256 cs s))
  projection_lives_on cs s j r found =
      run-keeps sha256 (λ t. IsSuccessor r (find_record j t))
        (λ c t (b, here, content, later).
          Moves-IsSuccessor r b _ _ here content later (exec-Moves sha256 c t j))
        cs s (r, found, (refl, refl, refl, refl, refl, refl, refl, refl), omega arith)

  stood_itself :
      (o p : Option ProjectionRow) (r x : ProjectionRow) (from : N7ProjectionState)
      → o ≡ some r
      → o ≡ some x
      → x.state ≡ from
      → stage r.state ≡ stage from
  stood_itself o p r x from h =
      stood r r o p h (refl, refl, refl, refl, refl, refl, refl, refl) (omega arith) x from

  final_stays :
      (o p : Option ProjectionRow) (r : ProjectionRow)
      → stage r.state ≡ 2
      → Moves o p
      → o ≡ some r
      → p ≡ some r
  final_stays o p r final (stays e) h = e ∙ h
  final_stays o p r final (appears pid q now e _) h = absurd (cc (sym e ∙ h))
  final_stays o p r final (begins x aid now e d _) h =
      absurd (omega (arith, final, stood_itself o p r x desired h e d))
  final_stays o p r final (retries x aid e d _) h =
      absurd (omega (arith, final, stood_itself o p r x attempted h e d))
  final_stays o p r final (settles x v now e d _) h =
      absurd (omega (arith, final, stood_itself o p r x attempted h e d))

  -- A projection that is applied or in conflict is the same row after every sequence of
  -- operations.
  pub settled_projection_stays :
      (cs : List Command) (s : Store) (j : Uuid) (r : ProjectionRow)
      → find_record j s ≡ some r
      → stage r.state ≡ 2
      → find_record j (run sha256 cs s) ≡ some r
  settled_projection_stays cs s j r found final =
      run-keeps sha256 (λ t. find_record j t ≡ some r)
        (λ c t here. final_stays _ _ r final (exec-Moves sha256 c t j) here) cs s found
