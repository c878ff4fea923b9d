-- ===== src/Domain/Verifier.antt =====
-- crates/nodescale-domain/src/lib.rs: the profiles of stored secret verifiers. PHC strings are
-- parsed by the password-hash crate, which is a parameter.
use hermes_nodescale.Prelude.{
  ℕ, Bool, false, ◌&&◌, ◌||◌, Option, none, some, ok, err, ◌>>=◌, ok_or, ◌==◌, in_range,
  if◌then◌else◌, all, is_ok,
}
use hermes_nodescale.Text.{Text, text, text_eq, bytes, len}
use hermes_nodescale.Domain.Error.{DomainError, Checked, invalid_value}

-- `PasswordHash`: what the source reads of it.
pub record PasswordHash : Type 0 where
  pub algorithm : Text
  pub version : Option ℕ
  pub memory_kib : Option ℕ
  pub time_cost : Option ℕ
  pub parallelism : Option ℕ
  pub hash_bytes : Option ℕ

-- `PasswordHash::new`
abbrev pub PhcParser : Type 0
PhcParser = Text → Option PasswordHash

abbrev option_is : Option ℕ → ℕ → Bool
option_is none n = false
option_is (some m) n = m == n

invalid_verifier : DomainError
invalid_verifier = invalid_value "secret verifier" "must be the fixed Argon2id PHC N4 profile"

-- The test that both profiles make, at their own time cost.
abbrev correct_profile : ℕ → PasswordHash → Bool
correct_profile time_cost h =
    text_eq h.algorithm (text "argon2id")
    && option_is h.version 0x13
    && option_is h.memory_kib 19_456
    && option_is h.time_cost time_cost
    && option_is h.parallelism 1
    && option_is h.hash_bytes 32

validate_legacy_invitation_verifier : PhcParser → Text → Checked PasswordHash
unfolding invalid_verifier
validate_legacy_invitation_verifier phc value = do
  parsed ← ok_or (phc value) invalid_verifier
  if correct_profile 3 parsed then ok parsed else err invalid_verifier

unfoldable pub validate_n4_verifier : PhcParser → Text → Checked PasswordHash
unfolding invalid_verifier
validate_n4_verifier phc value = do
  parsed ← ok_or (phc value) invalid_verifier
  if correct_profile 2 parsed then ok parsed else err invalid_verifier

is_legacy_sha256_verifier : Text → Bool
is_legacy_sha256_verifier value =
    len value == 64 && all (λ b. in_range b'0' b'9' b || in_range b'a' b'f' b) (bytes value)

-- `SecretVerifier::is_n4`
unfoldable pub is_n4_verifier : PhcParser → Text → Bool
unfolding validate_n4_verifier
is_n4_verifier phc value = is_ok (validate_n4_verifier phc value)
