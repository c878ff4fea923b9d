-- ===== src/Domain/Lifecycle/Runs.antt =====
-- Sequences of attempted transitions: a refused attempt leaves the state as it was.
use hermes_nodescale.Prelude.{◌≡◌, ◌⊎◌, inl, inr, true, List, [], ◌∷◌, ok, err, arith, sym}
use mathlib.Core.Path.{subst}
use hermes_nodescale.Domain.Error.{Checked}
use hermes_nodescale.Domain.Lifecycle.{Lifecycle, transition}

-- The state after an attempt.
abbrev pub settle : {S : Type 0} → S → Checked S → S
settle s (ok next) = next
settle s (err _) = s

module _ {S : Type 0} ⦃m : Lifecycle S⦄ where
  unfoldable pub attempts : S → List S → S
  attempts s [] = s
  attempts s (n ∷ ns) = attempts (settle s (transition s n)) ns

  -- An attempt stays, or it makes an allowed move to the state that was asked for.
  pub settle-transition :
      (s n : S)
      → (settle s (transition s n) ≡ s) ⊎ ((m.allowed s n ≡ true) × (settle s (transition s n) ≡ n))
  unfolding transition
  settle-transition s n = ground arith

  pub attempts_keep :
      (P : S → Type 0)
      → ((a b : S) → m.allowed a b ≡ true → P a → P b)
      → (s : S) (ns : List S) → P s
      → P (attempts s ns)
  unfolding attempts
  attempts_keep P keep s [] h = h
  attempts_keep P keep s (n ∷ ns) h =
      attempts_keep P keep (settle s (transition s n)) ns (elim (settle-transition s n) [
        | inl stay ↦ subst P (sym stay) h
        | inr (ok_move, move) ↦ subst P (sym move) (keep s n ok_move h)
      ])
