-- ===== src/OrderedSet.antt =====
-- Rust's `BTreeSet` over an enum: the members in the order of the enum's declaration, which is its
-- derived `Ord`, each once.
pub mod Laws
use hermes_nodescale.Prelude.{
  ℕ, ◌≡◌, ◌<◌, Bool, true, false, ◌||◌, List, [], ◌∷◌, ltb, ◌==◌, if◌then◌else◌, any,
}

-- The derived `Ord`: the position of a variant.
pub record Ranked (A : Type 0) : Type 0 where
  pub rank : A → ℕ
  pub rank_injective : (a b : A) → rank a ≡ rank b → a ≡ b

module _ {A : Type 0} ⦃o : Ranked A⦄ where
  unfoldable pub insert : A → List A → List A
  insert a [] = a ∷ []
  insert a (x ∷ xs) =
      let rest = insert a xs in
      if ltb (o.rank a) (o.rank x)
      then a ∷ x ∷ xs
      else if o.rank a == o.rank x
      then x ∷ xs
      else x ∷ rest

  -- `collect`, from the left
  insert_all : List A → List A → List A
  insert_all s [] = s
  insert_all s (a ∷ as') = insert_all (insert a s) as'

  unfoldable pub from_list : List A → List A
  unfolding insert_all insert
  from_list = insert_all []

  unfoldable pub contains : List A → A → Bool
  contains s a = any (λ x. o.rank a == o.rank x) s

  -- The order of the members.
  abbrev pub Above : ℕ → List A → Type 0
  Above n [] = Unit
  Above n (x ∷ xs) = (n < o.rank x) × Above (o.rank x) xs

  abbrev pub IsCanonical : List A → Type 0
  IsCanonical [] = Unit
  IsCanonical (x ∷ xs) = Above (o.rank x) xs
