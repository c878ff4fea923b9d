-- ===== src/State/History/Evidence.antt =====
-- crates/nodescale-state/src/n7.rs: what a projection was settled by.
use mathlib.Core.Path.{subst}
use hermes_nodescale.Prelude.{
  ℕ, ◌≡◌, refl, sym, ap, ◌∙◌, ◌⊎◌, inl, inr, Bool, true, false, ◌&&◌, not, Option, none, some, List,
  [], ◌∷◌, ok, arith, any, ◌==◌, Bool-cases, ltb, if◌then◌else◌,
}
use hermes_nodescale.Text.{text_eq}
use hermes_nodescale.Domain.Identifier.{Uuid}
use hermes_nodescale.State.Tables.{latest, newer}
use hermes_nodescale.State.Tables.Laws.{find-passes}
use hermes_nodescale.State.Submission.{
  sha256_fingerprint, observed, missing, unavailable, N7AuthoritativeInspection,
}
use hermes_nodescale.State.Rows.{
  Time, Store, N7ProjectionView, ProjectionRow, InspectionRow, find_record, has_id,
}
use hermes_nodescale.State.Recover.{
  RecoverRequest, Verdict, agrees, disagrees, settled_state, settle, judge, of_attempt, latest_body,
  body_of,
}
use hermes_nodescale.State.Effects.{Shows}
use hermes_nodescale.State.Effects.Recover.{Inspected, Settled, inspected}

is_current : Option Uuid → Uuid → Bool
is_current none aid = false
is_current (some current) aid = aid == current

-- The observed body and its digest are those that the projection desires.
abbrev pub is_desired : (List ℕ → List ℕ) → ProjectionRow → List ℕ → Bool
is_desired sha256 r body =
    text_eq (sha256_fingerprint sha256 body) r.desired_hash && text_eq body r.desired_body

abbrev pub supports : (List ℕ → List ℕ) → Verdict → ProjectionRow → List ℕ → Bool
supports sha256 agrees r body = is_desired sha256 r body
supports sha256 disagrees r body = not (is_desired sha256 r body)

abbrev pub shows_body : (List ℕ → Bool) → N7AuthoritativeInspection → Bool
shows_body p (observed body _) = p body
shows_body p missing = false
shows_body p unavailable = false

-- An inspection of the projection's current attempt that observed a body which supports the
-- verdict.
unfoldable pub is_evidence : (List ℕ → List ℕ) → Verdict → ProjectionRow → InspectionRow → Bool
unfolding is_current
is_evidence sha256 v r i =
    i.projection_id == r.projection_id
    && is_current r.current_attempt_id i.attempt_id
    && shows_body (supports sha256 v r) i.inspection

-- Every settled projection has evidence for the state it was settled in.
abbrev pub IsEvidenced : (List ℕ → List ℕ) → Store → Type 0
IsEvidenced sha256 s =
    (j : Uuid) (r : ProjectionRow) (v : Verdict)
    → find_record j s ≡ some r
    → r.state ≡ settled_state v
    → any (is_evidence sha256 v r) s.inspections ≡ true

newer-either :
    (column : InspectionRow → ℕ) (x : InspectionRow) (o : Option InspectionRow)
    → (newer column x o ≡ x) ⊎ (o ≡ some (newer column x o))
newer-either column x none = inl refl
newer-either column x (some y) = elim (Bool-cases (ltb (column x) (column y))) [
  | inl later ↦ inr (rw later refl)
  | inr sooner ↦ inl (rw sooner refl)
]

earlier_row :
    (p test : InspectionRow → Bool) (x y : InspectionRow) (rows : List InspectionRow)
    → (p x ≡ true) × (any test rows ≡ true)
    → (p x ≡ true) × (any test (y ∷ rows) ≡ true)
earlier_row p test x y rows (passes, found) = (passes, ground (arith, found))

pub same_projection_row :
    (x y : ProjectionRow) → ◌≡◌ {A = Option ProjectionRow} (some x) (some y) → x ≡ y
same_projection_row x y h = cc

same_row : (x y : InspectionRow) → ◌≡◌ {A = Option InspectionRow} (some y) (some x) → y ≡ x
same_row x y h = cc

-- The inspection that is read back is one of the rows.
latest-any :
    (p : InspectionRow → Bool) (column : InspectionRow → ℕ) (test : InspectionRow → Bool)
    (rows : List InspectionRow) (x : InspectionRow)
    → latest p column rows ≡ some x
    → test x ≡ true
    → (p x ≡ true) × (any test rows ≡ true)
latest-any p column test [] x h t = absurd (cc h)
latest-any p column test (y ∷ rows) x h t =
    let ih = latest-any p column test rows x in
    let known = λ (b : Bool) (e : p y ≡ b).
      subst
        (λ c.
          (if c then some (newer column y (latest p column rows)) else latest p column rows)
          ≡ some x)
        e h in
    elim (Bool-cases (p y)) [
      | inr other ↦ earlier_row p test x y rows (ih (known false other) t)
      | inl mine ↦ elim (newer-either column y (latest p column rows)) [
        | inr that ↦ earlier_row p test x y rows (ih (that ∙ known true mine) t)
        | inl this ↦
            let e = same_row x y (ap some (sym this) ∙ known true mine) in
            (subst (λ z. p z ≡ true) e mine, rw (subst (λ z. test z ≡ true) (sym e) t) refl)
      ]
    ]

body_of-observed :
    (o : Option InspectionRow) (body : List ℕ)
    → body_of o ≡ ok body
    → (i : InspectionRow) × (o ≡ some i)
      × ((p : List ℕ → Bool) → p body ≡ true → shows_body p i.inspection ≡ true)
body_of-observed none body h = absurd (cc h)
body_of-observed (some i) body h = (i, refl, λ p passes. ground (arith, h))

all_three : (a b c : Bool) → a ≡ true → b ≡ true → c ≡ true → a && b && c ≡ true
all_three a b c h k l = rw (h, k, l) refl

module _ (sha256 : List ℕ → List ℕ) where
  judge-supports :
      (pid : Uuid) (s : Store) (view : N7ProjectionView) (body : List ℕ) (shown : Shows pid s view)
      → supports sha256 (judge sha256 view body) shown.row body ≡ true
  unfolding judge
  judge-supports pid s view body shown =
      rw (shown.desired_hash, shown.desired_body)
        (elim (Bool-cases (is_desired sha256 shown.row body)) [
          | inl same_body ↦ rw same_body same_body
          | inr other ↦ rw other (ap not other)
        ])

  evidence-holds :
      (v : Verdict) (pid aid : Uuid) (r : ProjectionRow) (x : InspectionRow)
      → has_id pid r ≡ true
      → r.current_attempt_id ≡ some aid
      → of_attempt pid aid x ≡ true
      → shows_body (supports sha256 v r) x.inspection ≡ true
      → is_evidence sha256 v r x ≡ true
  unfolding is_evidence is_current
  evidence-holds v pid aid r x id current mine seen =
      all_three (x.projection_id == r.projection_id) _ _ (ground arith)
        (subst (λ o. is_current o x.attempt_id ≡ true) (sym current) (ground arith)) seen

  -- What was read back for an attempt is evidence for the verdict on it.
  pub Settled-evidence :
      (pid aid : Uuid) (q : RecoverRequest) (s t : Store)
      → (i : Inspected pid aid q s t) → (d : Settled sha256 pid aid q s t)
      → any (is_evidence sha256 (judge sha256 d.view d.body) i.row) t.inspections ≡ true
  unfolding latest_body is_evidence is_current
  Settled-evidence pid aid q s t i d =
      let (x, found, seen) = body_of-observed _ d.body d.read in
      let v = judge sha256 d.view d.body in
      let column = λ (r : InspectionRow). r.inspected_at in
      let rows = inspected q pid aid ∷ s.inspections in
      let mine = (latest-any (of_attempt pid aid) column (λ _. true) rows x found refl).0 in
      let same_projection = same_projection_row i.row d.shown.row (sym i.found ∙ d.shown.found) in
      let supported =
        subst (λ r. supports sha256 v r d.body ≡ true) (sym same_projection)
          (judge-supports pid s d.view d.body d.shown) in
      rw i.inspections
        (latest-any (of_attempt pid aid) column (is_evidence sha256 v i.row) rows x found (
          evidence-holds v pid aid i.row x (find-passes (has_id pid) s.records _ i.found) i.current
            mine (seen _ supported))).1

  -- A settled row is settled by the verdict alone, and the rest of the row is as it was.
  pub settled_evidence_same :
      (v w : Verdict) (now : Time) (r : ProjectionRow) (rows : List InspectionRow)
      → any (is_evidence sha256 v r) rows ≡ true
      → any (is_evidence sha256 v (settle w now r)) rows ≡ true
  unfolding is_evidence
  settled_evidence_same agrees agrees now r rows h = h
  settled_evidence_same agrees disagrees now r rows h = h
  settled_evidence_same disagrees agrees now r rows h = h
  settled_evidence_same disagrees disagrees now r rows h = h
