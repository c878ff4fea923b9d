-- ===== src/Text.antt =====
-- Rust's `String` and `str` as lists of Unicode scalar values, with what the crates use of them:
-- the UTF-8 bytes, their number (`len`), `char::is_control`, `char::is_whitespace` and `trim`.
pub mod Laws
use Prim.Native.Char.{code}
use hermes_nodescale.Prelude.{
  ℕ, ◌+◌, ◌/◌, ◌%◌, String, Bool, true, false, ◌&&◌, ◌||◌, List, [], ◌∷◌, ◌++◌, ltb, ◌==◌, in_range,
  if◌then◌else◌, length, reverse,
}

abbrev pub Text : Type 0
Text = List ℕ

-- A literal of the source.
abbrev pub text : String → Text
text String.[] = []
text (String.◌∷◌ c s) = code c ∷ text s

abbrev pub text_eq : Text → Text → Bool
text_eq [] [] = true
text_eq (a ∷ s) (b ∷ t) = a == b && text_eq s t
text_eq _ _ = false

-- The UTF-8 encoding of one scalar value.
utf8_char : ℕ → List ℕ
utf8_char c =
    if ltb c 0x80
    then c ∷ []
    else if ltb c 0x800
    then (0xc0 + c / 64) ∷ (0x80 + c % 64) ∷ []
    else if ltb c 0x10000
    then (0xe0 + c / 4096) ∷ (0x80 + c / 64 % 64) ∷ (0x80 + c % 64) ∷ []
    else (0xf0 + c / 262144) ∷ (0x80 + c / 4096 % 64) ∷ (0x80 + c / 64 % 64) ∷ (0x80 + c % 64) ∷ []

unfoldable pub bytes : Text → List ℕ
unfolding utf8_char
bytes [] = []
bytes (c ∷ s) = utf8_char c ++ bytes s

-- `str::len`, in bytes
unfoldable pub len : Text → ℕ
unfolding bytes
len s = length (bytes s)

-- `char::is_control`: the general category Cc
abbrev pub is_control : ℕ → Bool
is_control c = ltb c 0x20 || in_range 0x7f 0x9f c

-- `char::is_whitespace`: the property White_Space
abbrev pub is_whitespace : ℕ → Bool
is_whitespace c =
    in_range 0x09 0x0d c
    || c == 0x20
    || c == 0x85
    || c == 0xa0
    || c == 0x1680
    || in_range 0x2000 0x200a c
    || c == 0x2028
    || c == 0x2029
    || c == 0x202f
    || c == 0x205f
    || c == 0x3000

trim_start : Text → Text
trim_start [] = []
trim_start (c ∷ s) = let rest = trim_start s in if is_whitespace c then rest else c ∷ s

-- `str::trim`
pub trim : Text → Text
unfolding trim_start
trim s = reverse (trim_start (reverse (trim_start s)))

-- `u8::is_ascii_alphanumeric`, or one of `-`, `_`, `:` and `.`
unfoldable pub is_safe_byte : ℕ → Bool
is_safe_byte b =
    in_range b'0' b'9' b
    || in_range b'A' b'Z' b
    || in_range b'a' b'z' b
    || b == b'-'
    || b == b'_'
    || b == b':'
    || b == b'.'
