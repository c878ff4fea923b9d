-- ===== src/State/Submission.antt =====
-- crates/nodescale-state/src/n7.rs: `N7BindingProvenance`, `N7ProjectionSubmission` and
-- `N7AuthoritativeInspection`, and the errors of crates/nodescale-state/src/lib.rs that they share
-- with the operations. SHA-256 and serde_json are parameters.
use hermes_nodescale.Prelude.{
  ℕ, ◌^◌, String, Bool, ◌&&◌, ◌||◌, not, List, ◌++◌, Result, ok, err, ◌>>=◌, ◌>>◌, fail_if, ok_or,
  leb, is_empty, all,
}
use hermes_nodescale.Text.{Text, text, text_eq, bytes, len, is_safe_byte}
use hermes_nodescale.Json.{SerdeJson, is_object}
use hermes_nodescale.Domain.Error.{Checked}
use hermes_nodescale.Domain.Identifier.{Uuid}
use hermes_nodescale.Domain.Generation.{Generation, new_generation}
use hermes_nodescale.Domain.Fleet.Content.{hex}

-- `StateError`, with the variants that the Fleet projections meet.
pub data StateError : Type 0 where
  sqlite : String → StateError
  serialization : StateError
  conflict : String → StateError
  stale_generation : ℕ → ℕ → StateError
  not_found : String → StateError

abbrev pub Stored : Type 0 → Type 0
Stored A = Result StateError A

-- `.map_err(|error| StateError::Conflict(error.to_string()))`
abbrev pub or_conflict : {A : Type 0} → Checked A → Stored A
or_conflict (ok a) = ok a
or_conflict (err e) = err (conflict "refused by the domain")

-- A u64 is bound as a SQLite integer if it is less than 2^63.
unfoldable pub sql_integer : ℕ → Stored (Unit {0})
sql_integer n = fail_if (leb (2 ^ 63) n) (sqlite "ToSqlConversionFailure")

-- `generation`
unfoldable pub generation : ℕ → Stored Generation
unfolding new_generation
generation value = or_conflict (new_generation value)

-- `safe_identifier`
unfoldable pub safe_identifier : Text → Bool
safe_identifier value =
    not (is_empty value) && leb (len value) 255 && all is_safe_byte (bytes value)

pub record N7BindingProvenance : Type 0 where
  pub binding_id : Text
  pub authenticated_peer_id : Text
  pub binding_generation : Generation

-- `N7BindingProvenance::new`
unfoldable pub new_binding : Text → Text → Generation → Stored N7BindingProvenance
unfolding safe_identifier
new_binding binding_id authenticated_peer_id binding_generation = do
  fail_if (not (safe_identifier binding_id) || not (safe_identifier authenticated_peer_id))
      (conflict "N7 binding provenance identifiers are invalid")
  ok (record {
    binding_id = binding_id;
    authenticated_peer_id = authenticated_peer_id;
    binding_generation = binding_generation;
  })

pub record N7ProjectionSubmission : Type 0 where
  pub operation_id : Text
  pub network_id : Uuid
  pub device_id : Uuid
  pub generation : Generation
  pub desired_body : List ℕ
  pub desired_hash : Text
  pub binding : N7BindingProvenance

pub data N7AuthoritativeInspection : Type 0 where
  observed : List ℕ → Text → N7AuthoritativeInspection
  missing : N7AuthoritativeInspection
  unavailable : N7AuthoritativeInspection

module _ (json : SerdeJson) where
  unfoldable pub canonical_json_bytes : List ℕ → Stored (List ℕ)
  canonical_json_bytes body = do
    value ← ok_or (json.from_slice body) serialization
    fail_if (not (is_object value)) (conflict "N7 desired projection body must be a JSON object")
    ok (json.to_vec value)

-- `sha256_fingerprint`
unfoldable pub sha256_fingerprint : (List ℕ → List ℕ) → List ℕ → Text
sha256_fingerprint sha256 body = text "sha256:" ++ hex (sha256 body)

module _ (json : SerdeJson) (sha256 : List ℕ → List ℕ) where
  -- `N7ProjectionSubmission::from_canonical`
  unfoldable pub from_canonical :
      Text
      → Uuid
      → Uuid
      → Generation
      → List ℕ
      → Text
      → Text
      → Generation
      → Stored N7ProjectionSubmission
  unfolding canonical_json_bytes new_binding sha256_fingerprint
  from_canonical operation_id network_id device_id g body binding_id peer binding_generation = do
    canonical ← canonical_json_bytes json body
    fail_if (not (text_eq canonical body))
        (conflict "N7 desired projection body must be canonical JSON bytes")
    binding ← new_binding binding_id peer binding_generation
    ok (record {
      operation_id = operation_id;
      network_id = network_id;
      device_id = device_id;
      generation = g;
      desired_body = body;
      desired_hash = sha256_fingerprint sha256 body;
      binding = binding;
    })

  -- `N7AuthoritativeInspection::observed`
  unfoldable pub new_observed : List ℕ → Stored N7AuthoritativeInspection
  unfolding canonical_json_bytes sha256_fingerprint
  new_observed body = do
    canonical ← canonical_json_bytes json body
    fail_if (not (text_eq canonical body))
        (conflict "N7 authoritative inspection body must be canonical JSON bytes")
    ok (observed body (sha256_fingerprint sha256 body))
