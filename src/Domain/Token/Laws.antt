-- ===== src/Domain/Token/Laws.antt =====
-- crates/nodescale-domain/src/lib.rs: the text of a token against the token that is parsed from it.
use hermes_nodescale.Prelude.{
  ℕ, ◌+◌, ◌≤◌, ◌≡◌, ◌≢◌, refl, ap, sym, ◌∙◌, Bool, true, false, List, [], ◌∷◌, ◌++◌, Option, some,
  none, ok, arith, all, ltb, ◌==◌, length, length-append, take, drop, take-drop, length-take,
  all-take, take-append, drop-append, Result, >>=-eq-ok, fail_if, ok_or, not, ◌||◌,
}
use hermes_nodescale.Text.{Text, text_eq, len}
use hermes_nodescale.Text.Laws.{text_eq_iff, len-append}
use hermes_nodescale.Domain.Error.{invalid_value}
use hermes_nodescale.Domain.Identifier.{Uuid, UuidCrate, parse_id}
use hermes_nodescale.Domain.Identifier.Laws.{reparse_id}
use hermes_nodescale.Domain.Token.{
  Base64, UuidBytes, SecretToken, TokenKind, strip_prefix, expose, token_of_bytes, token_from_str,
}

abbrev pub is_byte : ℕ → Bool
is_byte b = ltb b 256

strip_prefix-append : (prefix rest : Text) → strip_prefix prefix (prefix ++ rest) ≡ some rest
unfolding strip_prefix
strip_prefix-append [] rest = refl
strip_prefix-append (a ∷ prefix) rest = ground (arith, strip_prefix-append prefix rest)

strip_prefix-some :
    (prefix value rest : Text) → strip_prefix prefix value ≡ some rest → prefix ++ rest ≡ value
unfolding strip_prefix
strip_prefix-some [] value rest h = cc
strip_prefix-some (a ∷ prefix) [] rest h = cc
strip_prefix-some (a ∷ prefix) (b ∷ value) rest h =
    ground (arith, strip_prefix-some prefix value rest)

ok_or-ok : {E A : Type 0} (m : Option A) (e : E) {a : A} → ok_or m e ≡ ok a → m ≡ some a
ok_or-ok none e h = cc
ok_or-ok (some a) e h = cc

passed : {E : Type 0} (b : Bool) (e : E) {u : Unit {0}} → fail_if b e ≡ ok u → b ≡ false
passed true e h = cc
passed false e h = refl

value_of : {E A : Type 0} {a b : A} → ◌≡◌ {A = Result E A} (ok a) (ok b) → a ≡ b
value_of h = cc

module _ (crate : UuidCrate) (layout : UuidBytes) (base64 : Base64) (k : TokenKind) where
  reparsed :
      (u : Uuid) {i : Uuid}
      → parse_id crate k.id_kind (crate.to_string u) ≡ ok i
      → (i ≡ u) × (i ≢ 0)
  reparsed u {i} h =
      let e = sym (reparse_id crate k.id_kind u) ∙ h in
      (ground (arith, e), λ nil. ground (arith, e))

  -- What the decoding accepts is a UUID's 16 bytes and 32 more, in their only spelling.
  of_bytes_exact :
      (encoded : Text) (decoded : List ℕ) {t : SecretToken}
      → token_of_bytes crate layout base64 k encoded decoded ≡ ok t
      → (length decoded ≡ 48)
        × (base64.encode decoded ≡ encoded)
        × (t.id ≡ layout.from_bytes (take 16 decoded))
        × (t.id ≢ 0)
        × (t.secret ≡ drop 16 decoded)
  unfolding token_of_bytes
  of_bytes_exact encoded decoded h =
      let other_spelling : Bool =
        not (length decoded == 48) || not (text_eq (base64.encode decoded) encoded) in
      let refused = invalid_value k.kind "must be canonical base64url without padding" in
      let u = layout.from_bytes (take 16 decoded) in
      let (_, checks, h1) = >>=-eq-ok (fail_if other_spelling refused) _ h in
      let both = passed other_spelling refused checks in
      let (i, parsed, h2) = >>=-eq-ok (parse_id crate k.id_kind (crate.to_string u)) _ h1 in
      let (same_id, not_nil) = reparsed u parsed in
      (
        ground arith,
        (text_eq_iff (base64.encode decoded) encoded).0 (ground arith),
        sym (ap (λ r. r.id) (value_of h2)) ∙ same_id,
        λ nil. not_nil (ap (λ r. r.id) (value_of h2) ∙ nil),
        sym (ap (λ r. r.secret) (value_of h2)),
      )

  -- If base64 decodes to bytes, and 16 bytes make a UUID that has just these bytes, then a token
  -- has one text: what is accepted is the text that is handed out for the token that is made of it.
  -- The token's ID is not the nil UUID, and its secret has 32 bytes.
  pub token_text_is_unique :
      (value : Text) (t : SecretToken)
      → ((e : Text) (b : List ℕ) → base64.decode e ≡ some b → all is_byte b ≡ true)
      → ((b : List ℕ)
          → length b ≡ 16
          → all is_byte b ≡ true
          → layout.as_bytes (layout.from_bytes b) ≡ b)
      → token_from_str crate layout base64 k value ≡ ok t
      → (expose crate layout base64 k t ≡ value) × (t.id ≢ 0) × (length t.secret ≡ 32)
  unfolding token_from_str expose
  token_text_is_unique value t decodes_bytes keeps_bytes h =
      let malformed =
        invalid_value k.kind "must be an exact 48-byte base64url token without padding" in
      let undecoded = invalid_value k.kind "must be canonical base64url without padding" in
      let (encoded, e1, h1) =
        >>=-eq-ok (ok_or (strip_prefix k.prefix value) (invalid_value k.kind k.wrong_prefix)) _ h in
      let wrong_length : Bool = not (len encoded == 64) || not (len value == len k.prefix + 64) in
      let (_, _, h2) = >>=-eq-ok (fail_if wrong_length malformed) _ h1 in
      let (decoded, e3, h3) = >>=-eq-ok (ok_or (base64.decode encoded) undecoded) _ h2 in
      let (n, canonical, id, not_nil, secret) = of_bytes_exact encoded decoded h3 in
      let full : 16 ≤ length decoded = omega (arith, n) in
      let kept =
        keeps_bytes (take 16 decoded) (length-take 16 decoded full)
          (all-take is_byte 16 decoded (decodes_bytes encoded decoded (ok_or-ok _ _ e3))) in
      let joined : layout.as_bytes t.id ++ t.secret ≡ decoded =
        rw (id, secret, kept) (take-drop 16 decoded) in
      let parts : length (take 16 decoded) + length (drop 16 decoded) ≡ 48 =
        sym (length-append (take 16 decoded) (drop 16 decoded))
        ∙ ap length (take-drop 16 decoded)
        ∙ n in
      (
        rw (joined, canonical) (strip_prefix-some k.prefix value encoded (ok_or-ok _ _ e1)),
        not_nil,
        ap length secret ∙ omega (arith, parts, length-take 16 decoded full),
      )

  -- The 48 bytes of a token are accepted in their spelling.
  of_bytes_back :
      (t : SecretToken)
      → t.id ≢ 0
      → length t.secret ≡ 32
      → length (layout.as_bytes t.id) ≡ 16
      → layout.from_bytes (layout.as_bytes t.id) ≡ t.id
      → token_of_bytes crate layout base64 k
          (base64.encode (layout.as_bytes t.id ++ t.secret))
          (layout.as_bytes t.id ++ t.secret)
        ≡ ok t
  unfolding token_of_bytes
  of_bytes_back t not_nil n32 n16 made =
      let b = layout.as_bytes t.id ++ t.secret in
      let n48 : length b ≡ 48 =
        length-append (layout.as_bytes t.id) t.secret ∙ omega (arith, n32, n16) in
      let same : text_eq (base64.encode b) (base64.encode b) ≡ true =
        (text_eq_iff (base64.encode b) (base64.encode b)).1 refl in
      let first : take 16 b ≡ layout.as_bytes t.id =
        ap (λ n. take n b) (sym n16) ∙ take-append (layout.as_bytes t.id) t.secret in
      let last : drop 16 b ≡ t.secret =
        ap (λ n. drop n b) (sym n16) ∙ drop-append (layout.as_bytes t.id) t.secret in
      let parsed : parse_id crate k.id_kind (crate.to_string t.id) ≡ ok t.id =
        reparse_id crate k.id_kind t.id ∙ ground (arith, not_nil) in
      rw (n48, same, first, last, made, parsed) refl

  -- A token with an ID that is not nil and a secret of 32 bytes is parsed from the text that is
  -- handed out for it, if its ID has 16 bytes that make it again, and base64 writes the 48 bytes
  -- as 64 and decodes them again.
  pub token_round_trip :
      (t : SecretToken)
      → t.id ≢ 0
      → length t.secret ≡ 32
      → length (layout.as_bytes t.id) ≡ 16
      → layout.from_bytes (layout.as_bytes t.id) ≡ t.id
      → len (base64.encode (layout.as_bytes t.id ++ t.secret)) ≡ 64
      → base64.decode (base64.encode (layout.as_bytes t.id ++ t.secret))
        ≡ some (layout.as_bytes t.id ++ t.secret)
      → token_from_str crate layout base64 k (expose crate layout base64 k t) ≡ ok t
  unfolding token_from_str expose
  token_round_trip t not_nil n32 n16 made n64 decodes =
      let b = layout.as_bytes t.id ++ t.secret in
      let n : len (k.prefix ++ base64.encode b) ≡ len k.prefix + 64 =
        len-append k.prefix (base64.encode b) ∙ ap (λ m. len k.prefix + m) n64 in
      let exact : (len k.prefix + 64 == len k.prefix + 64) ≡ true = ground arith in
      rw (strip_prefix-append k.prefix (base64.encode b), n64, n, exact, decodes)
        (of_bytes_back t not_nil n32 n16 made)
