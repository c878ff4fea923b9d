-- ===== src/Domain/Token/Examples.antt =====
-- The properties of tokens at concrete ones.
use hermes_nodescale.Prelude.{
  ℕ, zero, suc, ◌+◌, ◌*◌, ◌/◌, ◌%◌, ◌≡◌, ◌≢◌, refl, ap, sym, ◌∙◌, Option, none, Bool, true, List,
  [], ◌∷◌, ◌++◌, some, ok, arith, all, length,
}
use hermes_nodescale.Text.{Text, text, bytes, len}
use hermes_nodescale.Domain.Token.{
  Base64, UuidBytes, SecretToken, invitation_token, expose, token_from_str,
}
use hermes_nodescale.Domain.Token.Laws.{is_byte, token_text_is_unique, token_round_trip}
use hermes_nodescale.Domain.Samples.{sample_crate}

-- The number of given bytes, the lowest first, and the bytes of a number.
abbrev number : List ℕ → ℕ
number [] = 0
number (b ∷ bs) = b + 256 * number bs

abbrev digits : ℕ → ℕ → List ℕ
digits zero u = []
digits (suc n) u = u % 256 ∷ digits n (u / 256)

abbrev layout : UuidBytes
layout = record { from_bytes = number; as_bytes = digits 16 }

abbrev zeros : ℕ → List ℕ
zeros zero = []
zeros (suc n) = 0 ∷ zeros n

-- The token of ID 7 and 32 bytes 0 is the only one that this base64 knows.
abbrev seven : SecretToken
seven = record { id = 7; secret = zeros 32 }

abbrev sixty_four : Text
sixty_four = text "BwAAAAAAAAAAAAAAAAAAAAAAAAAAAAAAAAAAAAAAAAAAAAAAAAAAAAAAAAAAAAAA"

abbrev base64 : Base64
base64 = record { encode = λ _. sixty_four; decode = λ _. some (7 ∷ zeros 47) }

digits-number : (b : List ℕ) → all is_byte b ≡ true → digits (length b) (number b) ≡ b
digits-number [] h = refl
digits-number (x ∷ b) h =
    let low : (x + 256 * number b) % 256 ≡ x = ground arith in
    let high : (x + 256 * number b) / 256 ≡ number b = ground arith in
    let rest : all is_byte b ≡ true = ground arith in
    rw (low, high) (ap (λ t. x ∷ t) (digits-number b rest))

keeps_bytes : (b : List ℕ) → length b ≡ 16 → all is_byte b ≡ true → digits 16 (number b) ≡ b
keeps_bytes b n h = ap (λ m. digits m (number b)) (sym n) ∙ digits-number b h

decodes_bytes : (e : Text) (b : List ℕ) → some (7 ∷ zeros 47) ≡ some b → all is_byte b ≡ true
decodes_bytes e b h = sym (ap bytes_only h)
  where
    bytes_only : Option (List ℕ) → Bool
    bytes_only none = true
    bytes_only (some c) = all is_byte c

token_round_trip_example :
    token_from_str sample_crate layout base64 invitation_token
      (expose sample_crate layout base64 invitation_token seven)
    ≡ ok seven
unfolding len bytes
token_round_trip_example =
    token_round_trip sample_crate layout base64 invitation_token seven (λ h. ground arith) refl refl
      refl refl refl

seven-parsed :
    token_from_str sample_crate layout base64 invitation_token (text "nsjoin_" ++ sixty_four)
    ≡ ok seven
unfolding expose len bytes
seven-parsed =
    token_round_trip sample_crate layout base64 invitation_token seven (λ h. ground arith) refl refl
      refl refl refl

token_text_is_unique_example :
    (expose sample_crate layout base64 invitation_token seven ≡ text "nsjoin_" ++ sixty_four)
    × (seven.id ≢ 0)
    × (length seven.secret ≡ 32)
token_text_is_unique_example =
    token_text_is_unique sample_crate layout base64 invitation_token (text "nsjoin_" ++ sixty_four)
      seven decodes_bytes keeps_bytes seven-parsed
