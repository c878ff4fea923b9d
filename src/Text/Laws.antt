-- ===== src/Text/Laws.antt =====
-- Facts about UTF-8 text that the checks of identifiers and names rest on.
use mathlib.Core.List.{reverse-cons, append_assoc}
use hermes_nodescale.Prelude.{
  ℕ, ◌≡◌, ◌↔◌, inl, inr, refl, ap, sym, ◌+◌, ◌∙◌, Bool, true, false, ◌&&◌, List, [], ◌∷◌, ◌++◌,
  arith, all, length, length-append, Bool-cases, is_empty, reverse,
}
use hermes_nodescale.Text.{
  Text, text_eq, utf8_char, bytes, len, is_safe_byte, trim, trim_start, is_whitespace,
}

all-append : (p : ℕ → Bool) (xs ys : List ℕ) → all p (xs ++ ys) ≡ all p xs && all p ys
all-append p [] ys = refl
all-append p (x ∷ xs) ys = ground (arith, all-append p xs ys)

safe_utf8_char :
    (c : ℕ)
    → (all is_safe_byte (utf8_char c) ≡ is_safe_byte c)
      × (is_safe_byte c ≡ true → length (utf8_char c) ≡ 1)
unfolding utf8_char is_safe_byte
safe_utf8_char c = ground arith

-- The bytes of a text are all safe exactly if its characters are.
pub all-safe-bytes : (s : Text) → all is_safe_byte (bytes s) ≡ all is_safe_byte s
unfolding bytes
all-safe-bytes [] = refl
all-safe-bytes (c ∷ s) =
    all-append is_safe_byte (utf8_char c) (bytes s)
    ∙ ground (arith, safe_utf8_char c, all-safe-bytes s)

-- A text of safe characters has one byte for each.
pub len-safe : (s : Text) → all is_safe_byte s ≡ true → len s ≡ length s
unfolding len bytes
len-safe [] h = refl
len-safe (c ∷ s) h =
    ground (arith, length-append (utf8_char c) (bytes s), safe_utf8_char c, len-safe s)

pub text_eq_iff : (s t : Text) → (text_eq s t ≡ true) ↔ (s ≡ t)
text_eq_iff [] [] = (λ _. refl, λ _. refl)
text_eq_iff [] (b ∷ t) = (λ h. cc, λ h. cc)
text_eq_iff (a ∷ s) [] = (λ h. cc, λ h. cc)
text_eq_iff (a ∷ s) (b ∷ t) =
    (λ h. ground (arith, text_eq_iff s t), λ h. ground (arith, text_eq_iff s t))

pub len-nil : len [] ≡ 0
unfolding len bytes
len-nil = refl

all-reverse : (p : ℕ → Bool) (s : List ℕ) → all p (reverse s) ≡ all p s
all-reverse p [] = refl
all-reverse p (c ∷ s) =
    rw (reverse-cons c s) (all-append p (reverse s) (c ∷ []) ∙ ground (arith, all-reverse p s))

is_empty-reverse : (s : List ℕ) → is_empty (reverse s) ≡ is_empty s
is_empty-reverse [] = refl
is_empty-reverse (c ∷ s) = rw (reverse-cons c s) (snoc_not_empty (reverse s))
  where
    snoc_not_empty : (t : List ℕ) → is_empty (t ++ c ∷ []) ≡ false
    snoc_not_empty [] = refl
    snoc_not_empty (_ ∷ _) = refl

trim_start_blank :
    (s : Text)
    → (is_empty (trim_start s) ≡ all is_whitespace s)
      × (all is_whitespace (trim_start s) ≡ all is_whitespace s)
unfolding trim_start
trim_start_blank [] = (refl, refl)
trim_start_blank (c ∷ s) = elim (Bool-cases (is_whitespace c)) [
  | inl blank ↦ rw blank (trim_start_blank s)
  | inr ink ↦ rw ink (refl, rw ink)
]

-- Trimming leaves nothing exactly of a text of white space.
pub is_empty-trim : (s : Text) → is_empty (trim s) ≡ all is_whitespace s
unfolding trim
is_empty-trim s =
    is_empty-reverse (trim_start (reverse (trim_start s)))
    ∙ (trim_start_blank (reverse (trim_start s))).0
    ∙ all-reverse is_whitespace (trim_start s)
    ∙ (trim_start_blank s).1

pub len-length : (s : Text) → len s ≡ length (bytes s)
unfolding len
len-length s = refl

bytes-append : (s t : Text) → bytes (s ++ t) ≡ bytes s ++ bytes t
unfolding bytes
bytes-append [] t = refl
bytes-append (c ∷ s) t =
    ap (λ r. utf8_char c ++ r) (bytes-append s t)
    ∙ sym (append_assoc (utf8_char c) (bytes s) (bytes t))

pub len-append : (s t : Text) → len (s ++ t) ≡ len s + len t
unfolding len
len-append s t = ap length (bytes-append s t) ∙ length-append (bytes s) (bytes t)
