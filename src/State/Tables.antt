-- ===== src/State/Tables.antt =====
-- What the store uses of a table: the first row that passes a test, an update of the rows that
-- pass one, the number of them, and the greatest value of a column. A new row comes first.
pub mod Laws
use hermes_nodescale.Prelude.{
  ℕ, ◌+◌, Bool, true, false, Option, none, some, List, [], ◌∷◌, if◌then◌else◌, max, ltb,
}

module _ {ℓ} {A : Type ℓ} where
  abbrev pub find : (A → Bool) → List A → Option A
  find p [] = none
  find p (x ∷ xs) = if p x then some x else find p xs

  abbrev pub set_if : (A → Bool) → (A → A) → A → A
  set_if p f x = if p x then f x else x

  abbrev pub update_where : (A → Bool) → (A → A) → List A → List A
  update_where p f [] = []
  update_where p f (x ∷ xs) = set_if p f x ∷ update_where p f xs

  abbrev pub count : (A → Bool) → List A → ℕ
  count p [] = 0
  count p (x ∷ xs) = if p x then count p xs + 1 else count p xs

  -- `SELECT COALESCE(MAX(column),0) ... WHERE p`
  abbrev pub greatest : (A → Bool) → (A → ℕ) → List A → ℕ
  greatest p column [] = 0
  greatest p column (x ∷ xs) =
      if p x then max (column x) (greatest p column xs) else greatest p column xs

  abbrev pub newer : (A → ℕ) → A → Option A → A
  newer column x none = x
  newer column x (some y) = if ltb (column x) (column y) then y else x

  -- The row with the greatest value of the column, and of several the one inserted last.
  abbrev pub latest : (A → Bool) → (A → ℕ) → List A → Option A
  latest p column [] = none
  latest p column (x ∷ xs) =
      let rest = latest p column xs in if p x then some (newer column x rest) else rest
