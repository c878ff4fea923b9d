-- ===== src/OrderedSet/Laws.antt =====
-- What a collected `BTreeSet` contains, and its canonical form.
use hermes_nodescale.Prelude.{
  ℕ, ◌≡◌, ◌<◌, refl, ◌∙◌, sym, false, ◌||◌, List, [], ◌∷◌, ◌++◌, ◌==◌, arith, is_empty,
}
use mathlib.Core.Path.{subst}
use mathlib.Core.List.{append-nil, append_assoc}
use hermes_nodescale.OrderedSet.{
  Ranked, insert, insert_all, from_list, contains, Above, IsCanonical,
}

module _ {A : Type 0} ⦃o : Ranked A⦄ where
  insert-Above : (n : ℕ) (a : A) (s : List A) → n < o.rank a → Above n s → Above n (insert a s)
  unfolding insert
  insert-Above n a [] h c = (h, tt)
  insert-Above n a (x ∷ xs) h c = ground (arith, insert-Above (o.rank x) a xs)

  insert-IsCanonical : (a : A) (s : List A) → IsCanonical s → IsCanonical (insert a s)
  unfolding insert
  insert-IsCanonical a [] c = tt
  insert-IsCanonical a (x ∷ xs) c = ground (arith, insert-Above (o.rank x) a xs)

  insert_all-IsCanonical : (s as' : List A) → IsCanonical s → IsCanonical (insert_all s as')
  unfolding insert_all
  insert_all-IsCanonical s [] c = c
  insert_all-IsCanonical s (a ∷ as') c =
      insert_all-IsCanonical (insert a s) as' (insert-IsCanonical a s c)

  contains-insert :
      (a b : A) (s : List A) → contains (insert a s) b ≡ (o.rank b == o.rank a) || contains s b
  unfolding insert contains
  contains-insert a b [] = refl
  contains-insert a b (x ∷ xs) = ground (arith, contains-insert a b xs)

  contains-insert_all :
      (s as' : List A) (b : A) → contains (insert_all s as') b ≡ contains s b || contains as' b
  unfolding insert_all
  contains-insert_all s [] b = ground (arith, contains_nil b)
    where
      contains_nil : (c : A) → contains [] c ≡ false
      contains_nil c = unfold contains in refl
  contains-insert_all s (a ∷ as') b =
      contains-insert_all (insert a s) as' b ∙ ground (arith, contains-insert a b s, contains_cons)
    where
      contains_cons : contains (a ∷ as') b ≡ (o.rank b == o.rank a) || contains as' b
      contains_cons = unfold contains in refl

  pub from_list-IsCanonical : (as' : List A) → IsCanonical (from_list as')
  unfolding from_list
  from_list-IsCanonical as' = insert_all-IsCanonical [] as' tt

  pub contains-from_list : (as' : List A) (b : A) → contains (from_list as') b ≡ contains as' b
  unfolding from_list contains
  contains-from_list as' b = contains-insert_all [] as' b

  Above-later : (n : ℕ) (s : List A) (a : A) (r : List A) → Above n (s ++ a ∷ r) → n < o.rank a
  Above-later n [] a r c = c.0
  Above-later n (x ∷ s) a r c = omega (arith, Above-later (o.rank x) s a r c.1, c.0)

  insert-last : (n : ℕ) (a : A) (s r : List A) → Above n (s ++ a ∷ r) → insert a s ≡ s ++ a ∷ []
  unfolding insert
  insert-last n a [] r c = refl
  insert-last n a (x ∷ s) r c =
      ground (arith, Above-later (o.rank x) s a r c.1, insert-last (o.rank x) a s r c.1)

  insert-canonical : (a : A) (s r : List A) → IsCanonical (s ++ a ∷ r) → insert a s ≡ s ++ a ∷ []
  unfolding insert
  insert-canonical a [] r c = refl
  insert-canonical a (x ∷ s) r c =
      ground (arith, Above-later (o.rank x) s a r c, insert-last (o.rank x) a s r c)

  insert_all-append : (s r : List A) → IsCanonical (s ++ r) → insert_all s r ≡ s ++ r
  unfolding insert_all
  insert_all-append s [] c = sym (append-nil s)
  insert_all-append s (a ∷ r) c =
      let e = sym (append_assoc s (a ∷ []) r) in
      rw (insert-canonical a s r c)
        (insert_all-append (s ++ a ∷ []) r (subst IsCanonical e c) ∙ append_assoc s (a ∷ []) r)

  -- A canonical set is collected to itself.
  pub from_list-canonical : (s : List A) → IsCanonical s → from_list s ≡ s
  unfolding from_list
  from_list-canonical s c = insert_all-append [] s c

  insert_not_empty : (a : A) (s : List A) → is_empty (insert a s) ≡ false
  unfolding insert
  insert_not_empty a [] = refl
  insert_not_empty a (x ∷ s) = ground arith

  insert_all_not_empty : (s as' : List A) → is_empty s ≡ false → is_empty (insert_all s as') ≡ false
  unfolding insert_all
  insert_all_not_empty s [] h = h
  insert_all_not_empty s (a ∷ as') h = insert_all_not_empty (insert a s) as' (insert_not_empty a s)

  pub is_empty-from_list : (as' : List A) → is_empty (from_list as') ≡ is_empty as'
  unfolding from_list insert_all
  is_empty-from_list [] = refl
  is_empty-from_list (a ∷ as') = insert_all_not_empty (insert a []) as' (insert_not_empty a [])
