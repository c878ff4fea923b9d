-- ===== src/Json.antt =====
-- JSON values as serde_json has them, what the crates take from it, and the canonical text of
-- crates/nodescale-fleet-client/src/lib.rs.
use hermes_nodescale.Prelude.{
  ℕ, ◌+◌, ◌-◌, ◌/◌, ◌%◌, Bool, true, false, List, [], ◌∷◌, ◌++◌, Option, ltb, ◌==◌, in_range,
  if◌then◌else◌,
}
use hermes_nodescale.Text.{Text, text}

-- A number is its text. The members of an object are in the order of their keys, as in a BTreeMap.
mutual
  pub data Value : Type 0 where
    null : Value
    boolean : Bool → Value
    number : Text → Value
    string : Text → Value
    array : Values → Value
    object : Members → Value

  pub data Values : Type 0 where
    no_values : Values
    value : Value → Values → Values

  pub data Members : Type 0 where
    no_members : Members
    member : Text → Value → Members → Members

abbrev pub is_object : Value → Bool
is_object (object _) = true
is_object _ = false

-- `serde_json::from_slice` and `serde_json::to_vec`
pub record SerdeJson : Type 0 where
  pub from_slice : List ℕ → Option Value
  pub to_vec : Value → List ℕ

abbrev hex_digit : ℕ → ℕ
hex_digit d = if ltb d 10 then 48 + d else 87 + d

-- A code unit of UTF-16 as four hexadecimal digits behind `\u`.
abbrev escaped : ℕ → Text
escaped u =
    92
    ∷ 117
    ∷ hex_digit (u / 4096)
    ∷ hex_digit (u / 256 % 16)
    ∷ hex_digit (u / 16 % 16)
    ∷ hex_digit (u % 16)
    ∷ []

-- `char::encode_utf16`, each unit escaped
escaped_char : ℕ → Text
escaped_char c =
    if ltb c 0x10000
    then escaped c
    else escaped (0xd800 + (c - 0x10000) / 1024) ++ escaped (0xdc00 + (c - 0x10000) % 1024)

ascii_json_char : ℕ → Text
unfolding escaped_char
ascii_json_char c =
    if c == 34
    then text "\\\""
    else if c == 92
    then text "\\\\"
    else if c == 8
    then text "\\b"
    else if c == 12
    then text "\\f"
    else if c == 10
    then text "\\n"
    else if c == 13
    then text "\\r"
    else if c == 9
    then text "\\t"
    else if in_range 32 126 c
    then c ∷ []
    else escaped_char c

ascii_json_chars : Text → Text
unfolding ascii_json_char
ascii_json_chars [] = []
ascii_json_chars (c ∷ s) = ascii_json_char c ++ ascii_json_chars s

unfoldable pub write_ascii_json_string : Text → Text
unfolding ascii_json_chars
write_ascii_json_string s = 34 ∷ (ascii_json_chars s ++ (34 ∷ []))

unfoldable mutual
  unfolding write_ascii_json_string

  pub write_canonical_json : Value → Text
  write_canonical_json null = text "null"
  write_canonical_json (boolean true) = text "true"
  write_canonical_json (boolean false) = text "false"
  write_canonical_json (number n) = n
  write_canonical_json (string s) = write_ascii_json_string s
  write_canonical_json (array vs) = text "[" ++ (write_values vs ++ text "]")
  write_canonical_json (object ms) = text "{" ++ (write_members ms ++ text "}")

  pub write_values : Values → Text
  write_values no_values = []
  write_values (value v no_values) = write_canonical_json v
  write_values (value v vs) = write_canonical_json v ++ (text "," ++ write_values vs)

  pub write_members : Members → Text
  write_members no_members = []
  write_members (member k v no_members) =
      write_ascii_json_string k ++ (text ":" ++ write_canonical_json v)
  write_members (member k v ms) =
      write_ascii_json_string k
      ++ (text ":" ++ (write_canonical_json v ++ (text "," ++ write_members ms)))
