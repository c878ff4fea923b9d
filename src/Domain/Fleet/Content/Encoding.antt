-- ===== src/Domain/Fleet/Content/Encoding.antt =====
-- crates/nodescale-domain/src/n7.rs: `canonical_part`, the encoding that the digest is taken of.
use hermes_nodescale.Prelude.{
  ℕ, ◌+◌, ◌*◌, ◌/◌, ◌%◌, ◌^◌, ◌<◌, ◌≡◌, refl, arith, List, [], ◌∷◌, ◌++◌, map, length, sym, ◌∙◌,
}
use hermes_nodescale.Text.{Text, bytes, len}
use hermes_nodescale.Text.Laws.{len-length}
use hermes_nodescale.Domain.Fleet.Content.{to_be_bytes, canonical_part, canonical_parts}

base_256 :
    (n : ℕ)
    → n < 2 ^ 64
    → n
      ≡ n / 2 ^ 56 % 256 * 2 ^ 56
        + n / 2 ^ 48 % 256 * 2 ^ 48
        + n / 2 ^ 40 % 256 * 2 ^ 40
        + n / 2 ^ 32 % 256 * 2 ^ 32
        + n / 2 ^ 24 % 256 * 2 ^ 24
        + n / 2 ^ 16 % 256 * 2 ^ 16
        + n / 2 ^ 8 % 256 * 2 ^ 8
        + n % 256
base_256 n h = omega arith

tail_of : (a b : ℕ) (xs ys : List ℕ) → a ∷ xs ≡ b ∷ ys → (a ≡ b) × (xs ≡ ys)
tail_of a b xs ys h = (cc, cc)

-- The eight bytes of a length and what follows them.
length_prefix :
    (m n : ℕ) (r s : List ℕ)
    → m < 2 ^ 64
    → n < 2 ^ 64
    → to_be_bytes m ++ r ≡ to_be_bytes n ++ s
    → (m ≡ n) × (r ≡ s)
length_prefix m n r s hm hn h =
    let (a, h1) = tail_of _ _ _ _ h in
    let (b, h2) = tail_of _ _ _ _ h1 in
    let (c, h3) = tail_of _ _ _ _ h2 in
    let (d, h4) = tail_of _ _ _ _ h3 in
    let (e, h5) = tail_of _ _ _ _ h4 in
    let (f, h6) = tail_of _ _ _ _ h5 in
    let (g, h7) = tail_of _ _ _ _ h6 in
    let (i, rest) = tail_of _ _ _ _ h7 in
    (omega (arith, a, b, c, d, e, f, g, i, base_256 m hm, base_256 n hn), rest)

same_split : (xs ys r s : List ℕ) → length xs ≡ length ys → xs ++ r ≡ ys ++ s → (xs ≡ ys) × (r ≡ s)
same_split [] [] r s l h = (refl, h)
same_split [] (y ∷ ys) r s l h = absurd (omega (arith, l))
same_split (x ∷ xs) [] r s l h = absurd (omega (arith, l))
same_split (x ∷ xs) (y ∷ ys) r s l h =
    let (head, rest) = tail_of x y _ _ h in
    let (tail, after) = same_split xs ys r s (omega (arith, l)) rest in (cc (head, tail), after)

-- Every text has fewer than 2 ^ 64 bytes, as a `usize` counts.
abbrev pub AllCounted : List Text → Type 0
AllCounted [] = Unit
AllCounted (p ∷ ps) = (len p < 2 ^ 64) × AllCounted ps

-- The bytes that are hashed determine the parts: two lists of texts, each of fewer than 2 ^ 64
-- bytes, that are encoded to the same bytes have the same number of parts, with the same bytes
-- each.
pub canonical_parts-injective :
    (ps qs : List Text)
    → AllCounted ps
    → AllCounted qs
    → canonical_parts ps ≡ canonical_parts qs
    → map bytes ps ≡ map bytes qs
unfolding canonical_parts canonical_part
canonical_parts-injective [] [] _ _ h = refl
canonical_parts-injective [] (q ∷ qs) _ _ h = cc
canonical_parts-injective (p ∷ ps) [] _ _ h = cc
canonical_parts-injective (p ∷ ps) (q ∷ qs) (hp, hps) (hq, hqs) h =
    let (same_len, rest) =
      length_prefix (len p) (len q) (bytes p ++ canonical_parts ps) (bytes q ++ canonical_parts qs)
        hp hq h in
    let same_count : length (bytes p) ≡ length (bytes q) =
      sym (len-length p) ∙ same_len ∙ len-length q in
    let (same, after) = same_split (bytes p) (bytes q) _ _ same_count rest in
    let others = canonical_parts-injective ps qs hps hqs after in cc (same, others)
