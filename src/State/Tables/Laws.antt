-- ===== src/State/Tables/Laws.antt =====
-- How the queries on a table see its changes.
use hermes_nodescale.Prelude.{◌≤◌, ◌≡◌, refl, Bool, true, Option, none, some, List, [], ◌∷◌, arith}
use hermes_nodescale.State.Tables.{find, set_if, update_where, count}

module _ {ℓ} {A : Type ℓ} where
  abbrev pub changed : (A → A) → Option A → Option A
  changed f none = none
  changed f (some x) = some (f x)

  -- A search by a key sees each row that an update changed, if the update leaves the key alone.
  pub find-update_where :
      (q p : A → Bool) (f : A → A) (xs : List A)
      → ((x : A) → q (f x) ≡ q x)
      → find q (update_where p f xs) ≡ changed (set_if p f) (find q xs)
  find-update_where q p f [] keep = refl
  find-update_where q p f (x ∷ xs) keep =
      let rest = find-update_where q p f xs keep in ground (arith, keep x, rest)

  pub find-passes : (p : A → Bool) (xs : List A) (x : A) → find p xs ≡ some x → p x ≡ true
  find-passes p [] x h = cc
  find-passes p (y ∷ xs) x h = ground (arith, find-passes p xs x)

  pub count-update_where :
      (q p : A → Bool) (f : A → A) (xs : List A)
      → ((x : A) → q (f x) ≡ q x)
      → count q (update_where p f xs) ≡ count q xs
  count-update_where q p f [] keep = refl
  count-update_where q p f (x ∷ xs) keep = ground (arith, keep x, count-update_where q p f xs keep)

  pub count-absent : (p : A → Bool) (xs : List A) → find p xs ≡ none → count p xs ≡ 0
  count-absent p [] h = refl
  count-absent p (x ∷ xs) h = ground (arith, count-absent p xs)

  pub count-present :
      (p q : A → Bool) (xs : List A) (x : A) → find q xs ≡ some x → p x ≡ true → 1 ≤ count p xs
  count-present p q [] x h e = cc
  count-present p q (y ∷ xs) x h e = ground (arith, count-present p q xs x)

  -- A row that is found in any way is found by a key of its own, if no two rows share one.
  pub find_unique :
      (p q : A → Bool) (xs : List A) (x : A)
      → find q xs ≡ some x
      → p x ≡ true
      → count p xs ≤ 1
      → find p xs ≡ some x
  find_unique p q [] x h e n = cc
  find_unique p q (y ∷ xs) x h e n = ground (arith, find_unique p q xs x, count-present p q xs x)
