-- ===== src/Domain/Lifecycle/Routes.antt =====
-- Lifecycles with one route to their goal, and the runs that follow it.
use hermes_nodescale.Prelude.{◌≡◌, ◌⊎◌, inl, inr, Bool, true, false, List, [], ◌∷◌, sym}
use mathlib.Core.Path.{subst}
use hermes_nodescale.Domain.Lifecycle.{Lifecycle, transition}
use hermes_nodescale.Domain.Lifecycle.Runs.{settle, attempts, settle-transition, attempts_keep}

-- The first list is a subsequence of the second.
pub data InOrder {S : Type 0} : List S → List S → Type 0 where
  done : {ns : List S} → InOrder [] ns
  skip : {n : S} {rs ns : List S} → InOrder rs ns → InOrder rs (n ∷ ns)
  take : {n : S} {rs ns : List S} → InOrder rs ns → InOrder (n ∷ rs) (n ∷ ns)

-- `remaining s` is what is left of the route at `s`; `strayed s` says that `s` has left it for good.
pub record Route {S : Type 0} (m : Lifecycle S) (goal : S) : Type 0 where
  pub remaining : S → List S
  pub strayed : S → Bool
  pub arrived : remaining goal ≡ []
  pub goal_not_strayed : strayed goal ≡ false
  pub stray : (a b : S) → m.allowed a b ≡ true → strayed a ≡ true → strayed b ≡ true
  pub follow :
      (a b : S) → m.allowed a b ≡ true → (strayed b ≡ true) ⊎ (remaining a ≡ b ∷ remaining b)

module _ {S : Type 0} ⦃m : Lifecycle S⦄ {goal : S} (r : Route m goal) where
  strayed_never_arrives :
      (s : S) (ns : List S) → r.strayed s ≡ true → attempts s ns ≡ goal → r.strayed goal ≡ true
  strayed_never_arrives s ns h e =
      subst (λ t. r.strayed t ≡ true) e (attempts_keep (λ t. r.strayed t ≡ true) r.stray s ns h)

  pub arrival-InOrder : (s : S) (ns : List S) → attempts s ns ≡ goal → InOrder (r.remaining s) ns
  unfolding attempts
  arrival-InOrder s [] e = subst (λ t. InOrder (r.remaining t) []) (sym e) (rw r.arrived done)
  arrival-InOrder s (n ∷ ns) e = elim (settle-transition s n) [
    | inl stay ↦
        subst (λ t. InOrder (r.remaining t) (n ∷ ns)) stay
          (skip (arrival-InOrder (settle s (transition s n)) ns e))
    | inr (ok_move, move) ↦ elim (r.follow s n ok_move) [
      | inl off ↦
          let bad : r.strayed goal ≡ true =
            strayed_never_arrives n ns off (subst (λ t. attempts t ns ≡ goal) move e) in
          absurd (cc (bad, r.goal_not_strayed))
      | inr on ↦
          subst (λ l. InOrder l (n ∷ ns)) (sym on)
            (take (
              subst (λ t. InOrder (r.remaining t) ns) move
                (arrival-InOrder (settle s (transition s n)) ns e)))
    ]
  ]
