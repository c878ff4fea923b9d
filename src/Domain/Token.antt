-- ===== src/Domain/Token.antt =====
-- crates/nodescale-domain/src/lib.rs: `InvitationToken`, `OwnerTrustRootToken` and
-- `AdoptionChallengeToken`, their text and its parsing. The base64 and the uuid crate are
-- parameters; the wiping of secrets has no effect on the results.
pub mod Laws
mod Examples
use hermes_nodescale.Prelude.{
  ℕ, ◌+◌, String, Bool, not, ◌||◌, List, [], ◌∷◌, ◌++◌, Option, none, some, ok, err, ◌>>=◌, ◌>>◌,
  fail_if, ok_or, ◌==◌, if◌then◌else◌, length, take, drop,
}
use hermes_nodescale.Text.{Text, text, text_eq, len}
use hermes_nodescale.Domain.Error.{DomainError, Checked, invalid_value}
use hermes_nodescale.Domain.Identifier.{Uuid, UuidCrate, parse_id}

-- `URL_SAFE_NO_PAD` of the base64 crate: `encode`, and the bytes that `decode` or `decode_slice`
-- writes.
pub record Base64 : Type 0 where
  pub encode : List ℕ → Text
  pub decode : Text → Option (List ℕ)

-- `Uuid::from_bytes` and `Uuid::as_bytes`
pub record UuidBytes : Type 0 where
  pub from_bytes : List ℕ → Uuid
  pub as_bytes : Uuid → List ℕ

-- The two structs of an ID, which is only looked up, and a secret of 32 bytes.
pub record SecretToken : Type 0 where
  pub id : Uuid
  pub secret : List ℕ

-- What the two kinds of such tokens differ in.
pub record TokenKind : Type 0 where
  pub prefix : Text
  pub kind : String
  pub wrong_prefix : String
  pub id_kind : String

abbrev pub invitation_token : TokenKind
invitation_token = record {
  prefix = text "nsjoin_";
  kind = "invitation token";
  wrong_prefix = "must use the exact nsjoin_ prefix";
  id_kind = "invitation ID";
}

abbrev pub owner_trust_root_token : TokenKind
owner_trust_root_token = record {
  prefix = text "nstrust_";
  kind = "owner trust root token";
  wrong_prefix = "must use the exact nstrust_ prefix";
  id_kind = "trust root ID";
}

-- `str::strip_prefix`
unfoldable pub strip_prefix : Text → Text → Option Text
strip_prefix [] value = some value
strip_prefix (a ∷ prefix) [] = none
strip_prefix (a ∷ prefix) (b ∷ value) =
    let rest = strip_prefix prefix value in if a == b then rest else none

-- `str::split_once`
abbrev pub split_once : ℕ → Text → Option (Text × Text)
split_once separator [] = none
split_once separator (c ∷ rest) =
    let later = split_once separator rest in
    if c == separator
    then some ([], rest)
    else elim later [ none ↦ none | some (before, after) ↦ some (c ∷ before, after) ]

module _ (crate : UuidCrate) (layout : UuidBytes) (base64 : Base64) where
  -- `expose_for_delivery`: the text that is handed out.
  pub expose : TokenKind → SecretToken → Text
  expose k t = k.prefix ++ base64.encode (layout.as_bytes t.id ++ t.secret)

  -- `from_str`, after the decoding
  pub token_of_bytes : TokenKind → Text → List ℕ → Checked SecretToken
  token_of_bytes k encoded decoded = do
    fail_if (not (length decoded == 48) || not (text_eq (base64.encode decoded) encoded))
        (invalid_value k.kind "must be canonical base64url without padding")
    id ← parse_id crate k.id_kind (crate.to_string (layout.from_bytes (take 16 decoded)))
    ok (record { id = id; secret = drop 16 decoded })

  -- `from_str`
  pub token_from_str : TokenKind → Text → Checked SecretToken
  token_from_str k value = do
    encoded ← ok_or (strip_prefix k.prefix value) (invalid_value k.kind k.wrong_prefix)
    fail_if (not (len encoded == 64) || not (len value == len k.prefix + 64))
        (invalid_value k.kind "must be an exact 48-byte base64url token without padding")
    decoded ←
        ok_or (base64.decode encoded)
          (invalid_value k.kind "must be canonical base64url without padding")
    token_of_bytes k encoded decoded

  malformed : DomainError
  malformed = invalid_value "adoption challenge" "malformed encoded secret"

  -- `AdoptionChallengeToken::with_encoded`
  pub adoption_encoded : SecretToken → Text
  adoption_encoded t =
      text "nsadopt1_" ++ crate.to_string t.id ++ text "_" ++ base64.encode t.secret

  -- `AdoptionChallengeToken::from_str`
  pub adoption_from_str : Text → Checked SecretToken
  unfolding malformed
  adoption_from_str value = do
    rest ← ok_or (strip_prefix (text "nsadopt1_") value) malformed
    parts ← ok_or (split_once b'_' rest) malformed
    challenge_id ← ok_or (crate.parse_str parts.0) malformed
    decoded ← ok_or (base64.decode parts.1) malformed
    fail_if (not (length decoded == 32)) malformed
    ok (record { id = challenge_id; secret = decoded })
