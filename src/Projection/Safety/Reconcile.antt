-- ===== src/Projection/Safety/Reconcile.antt =====
-- crates/nodescale-projection/src/lib.rs: `reconcile_one` as a whole.
use mathlib.Core.Path.{subst}
use hermes_nodescale.Prelude.{ℕ, ◌≡◌, refl, sym, ◌∙◌, true, not, List, [], ok, err}
use hermes_nodescale.Text.{Text, text_eq}
use hermes_nodescale.Json.{SerdeJson}
use hermes_nodescale.FleetClient.{ProjectionDocument}
use hermes_nodescale.Domain.Identifier.{Uuid, UuidCrate}
use hermes_nodescale.Domain.Generation.{Generation}
use hermes_nodescale.Domain.Fleet.Content.{N7FleetDesiredProjection}
use hermes_nodescale.Projection.Document.{
  Produced, projection_document, state_error, expected_generated_body,
}
use hermes_nodescale.State.Submission.{
  Stored, N7ProjectionSubmission, from_canonical, canonical_json_bytes, new_binding,
}
use hermes_nodescale.State.Yields.{Yields, Yields-ok, Yields-bind, Yields-fail_if}
use hermes_nodescale.State.History.{Command, run, empty_store}
use hermes_nodescale.State.History.Links.{IsLinked, run-IsLinked}
use hermes_nodescale.Projection.Run.{World, Surroundings}
use hermes_nodescale.Projection.Run.Hoare.{Ends, Ensures, Ensures-lift, Ensures-bind, Ensures-known}
use hermes_nodescale.Projection.Reconcile.{
  N7ProjectionOutcome, Task, submission_of, reconcile_document, reconcile_one,
}
use hermes_nodescale.Projection.Safety.{AllBacked, HasApplied, is_success, Fits, Reports}
use hermes_nodescale.Projection.Safety.Steps.{Start, reserve-Reserves}
use hermes_nodescale.Projection.Safety.Branches.{after_reservation-Reports}

same_document :
    (a b : ProjectionDocument) → ◌≡◌ {A = Produced ProjectionDocument} (ok a) (ok b) → a ≡ b
same_document a b h = cc

from_canonical-fields :
    (json : SerdeJson) (sha256 : List ℕ → List ℕ) (op : Text) (network device : Uuid)
    (g : Generation) (body : List ℕ) (binding peer : Text) (b : Generation)
    → Yields
        (λ q.
          (q.operation_id ≡ op)
          × (q.network_id ≡ network)
          × (q.device_id ≡ device)
          × (q.generation ≡ g)
          × (q.desired_body ≡ body))
        (from_canonical json sha256 op network device g body binding peer b)
unfolding from_canonical
from_canonical-fields json sha256 op network device g body binding peer b =
    Yields-bind (canonical_json_bytes json body) _ λ canonical _.
      Yields-fail_if (not (text_eq canonical body)) _ _ λ _.
        Yields-bind (new_binding binding peer b) _ λ _ _. Yields-ok _ (refl, refl, refl, refl, refl)

stored : {A : Type 0} (r : Stored A) {a : A} → state_error r ≡ ok a → r ≡ ok a
stored (ok b) h = cc
stored (err e) h = cc

module _ (crate : UuidCrate) (json : SerdeJson) (sha256 : List ℕ → List ℕ) (env : Surroundings)
    (operation_id : Text) (p : N7FleetDesiredProjection) (document : ProjectionDocument)
    (Linked : Type 0) (made : projection_document crate sha256 p ≡ ok document) where
  abbrev task : Task
  task = record { operation_id = operation_id; desired = p; document = document }

  submission_of-Fits :
      (q : N7ProjectionSubmission)
      → submission_of crate json sha256 env operation_id p
          (expected_generated_body json document p.enrollment_state)
        ≡ ok q
      → Fits json task q
  unfolding submission_of
  submission_of-Fits q h =
      (from_canonical-fields json sha256 operation_id p.network_id p.device_id
          p.projection_generation (expected_generated_body json document p.enrollment_state)
          (crate.to_string p.binding_provenance.binding_id)
          p.binding_provenance.authenticated_peer_id p.binding_provenance.binding_generation).at
        q (stored _ h)

  abbrev Begins : World → Type 0
  Begins = Start crate json sha256 env task Linked

  abbrev Ending : World → Type 0
  Ending w = AllBacked task w.trace

  document-Reports :
      Ensures Begins
        (reconcile_document crate json sha256 env operation_id p document)
        (Reports json task Linked)
        Ending
  unfolding reconcile_document
  document-Reports =
      Ensures-bind {Q = λ q w. Fits json task q × Begins w} _ _
        (Ensures-lift _ (λ q w e start. (submission_of-Fits q e, start)) λ w start. start.0)
        λ q. Ensures-known _ λ fits.
          Ensures-bind _ _ (reserve-Reserves crate json sha256 env task Linked q fits)
            λ outcome. after_reservation-Reports crate json sha256 env task Linked outcome

  reconcile-Reports :
      Ensures Begins
        (reconcile_one crate json sha256 env operation_id p)
        (Reports json task Linked)
        Ending
  unfolding reconcile_one
  reconcile-Reports =
      Ensures-bind {Q = λ d w. (d ≡ document) × Begins w} _ _
        (Ensures-lift _ (λ d w e start. (same_document d document (sym e ∙ made), start))
          λ w start. start.0)
        λ d. Ensures-known _ λ e.
          subst
            (λ x.
              Ensures Begins (reconcile_document crate json sha256 env operation_id p x)
                (Reports json task Linked) Ending)
            (sym e) document-Reports

-- However a reconciliation ends, its requests are backed.
either-way :
    (json : SerdeJson) (k : Task) (Linked : Type 0) (w : World) (r : Produced N7ProjectionOutcome)
    → Ends (Reports json k Linked) (λ v. AllBacked k v.trace) r w
    → AllBacked k w.trace
either-way json k Linked w (ok o) h = h.0
either-way json k Linked w (err e) h = h

-- Whatever Fleet answers, every apply request of a reconciliation carries the document of the
-- desired projection, and when it is sent the store durably holds the projection of this operation,
-- device and generation as attempted.
pub applies_are_backed :
    (crate : UuidCrate) (json : SerdeJson) (sha256 : List ℕ → List ℕ) (env : Surroundings)
    (operation_id : Text) (p : N7FleetDesiredProjection) (document : ProjectionDocument) (w : World)
    → projection_document crate sha256 p ≡ ok document
    → w.trace ≡ []
    → AllBacked
        (record { operation_id = operation_id; desired = p; document = document })
        (reconcile_one crate json sha256 env operation_id p w).1.trace
applies_are_backed crate json sha256 env operation_id p document w made e =
    either-way json (record { operation_id = operation_id; desired = p; document = document })
      (IsLinked w.store) _ (reconcile_one crate json sha256 env operation_id p w).0
      ((reconcile-Reports crate json sha256 env operation_id p document (IsLinked w.store) made).at
        w (rw e tt, λ linked. linked))

-- If a reconciliation that starts on a store that any sequence of operations has made of an empty
-- one reports success, then the operation, for this device and generation, names a projection that
-- the store durably holds as applied, and whose network, device, generation and body are those of
-- the desired projection: the body is the one that Fleet is expected to show for its document.
pub success_is_recorded :
    (crate : UuidCrate) (json : SerdeJson) (sha256 : List ℕ → List ℕ) (env : Surroundings)
    (operation_id : Text) (p : N7FleetDesiredProjection) (document : ProjectionDocument) (w : World)
    (outcome : N7ProjectionOutcome) (cs : List Command)
    → projection_document crate sha256 p ≡ ok document
    → w.store ≡ run sha256 cs empty_store
    → w.trace ≡ []
    → (reconcile_one crate json sha256 env operation_id p w).0 ≡ ok outcome
    → is_success outcome ≡ true
    → HasApplied json
        (record { operation_id = operation_id; desired = p; document = document })
        (reconcile_one crate json sha256 env operation_id p w).1.store
success_is_recorded crate json sha256 env operation_id p document w outcome cs made past e h
      success =
    let k : Task = record { operation_id = operation_id; desired = p; document = document } in
    let whole = reconcile_one crate json sha256 env operation_id p w in
    let linked = subst IsLinked (sym past) (run-IsLinked sha256 cs) in
    let end =
      (reconcile-Reports crate json sha256 env operation_id p document (IsLinked w.store) made).at w
        (rw e tt, λ l. l) in
    (subst (λ r. Ends (Reports json k (IsLinked w.store)) (λ v. AllBacked k v.trace) r whole.1) h
        end).1
      success linked
