-- ===== src/Runtime/Exec/Yields.antt =====
-- What holds of the value of an action, if it gives one.
use easyhooks.Prelude.{◌≡◌, subst}
use easyhooks.Runtime.Errors.{Error, Result, ok, err, ok-injective}
use easyhooks.Runtime.Exec.{State, Exec, pure, continue, ◌>>=◌}

pub record Yields {W A : Type 0} (P : A → Type 0) (m : Exec W A) : Type 0 where
  pub at : (s : State W) (a : A) → (m s).0 ≡ ok a → P a

module _ {W A : Type 0} {P : A → Type 0} where
  pub Yields-pure : (a : A) → P a → Yields P (pure {W = W} a)
  unfolding pure
  Yields-pure a p = record { at = λ s b h. subst P (ok-injective h) p }

module _ {W A B : Type 0} {P : B → Type 0} where
  continue-yields :
      (r : Result A) (f : A → Exec W B) (s : State W) (b : B)
      → ((a : A) → Yields P (f a))
      → (continue r f s).0 ≡ ok b
      → P b
  unfolding continue
  continue-yields (ok a) f s b y h = (y a).at s b h
  continue-yields (err e) f s b y h = absurd (no_value h)
    where
      no_value : {e : Error} → err e ≡ ok b → ⊥
      no_value h = cc

  pub Yields-bind :
      (m : Exec W A) {f : A → Exec W B} → ((a : A) → Yields P (f a)) → Yields P (m >>= f)
  unfolding ◌>>=◌
  Yields-bind m {f} y = record { at = λ s b h. let (r, s') = m s in continue-yields r f s' b y h }
