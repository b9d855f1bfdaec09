-- ===== src/Runtime/Exec/Succeeds.antt =====
-- Actions that give a value, whatever the state: a rule for each way to build one.
use easyhooks.Prelude.{◌≡◌, refl, sym, subst}
use easyhooks.Runtime.Errors.{Result, ok}
use easyhooks.Runtime.Events.{Metric}
use easyhooks.Runtime.Exec.{State, Exec, pure, attempt, count, continue, ◌>>=◌}

-- An action that gives a value.
pub record Succeeds {W A : Type 0} (m : Exec W A) : Type 0 where
  pub value : (s : State W) → (a : A) × ((m s).0 ≡ ok a)

module _ {W A B : Type 0} where
  continue-ok :
      (r : Result A) (a : A) (f : A → Exec W B) (s : State W)
      → r ≡ ok a
      → ((a : A) → Succeeds (f a))
      → (b : B) × ((continue r f s).0 ≡ ok b)
  unfolding continue
  continue-ok r a f s e k =
      subst (λ (x : Result A). (b : B) × ((continue x f s).0 ≡ ok b)) (sym e) ((k a).value s)

  pub Succeeds-bind :
      {m : Exec W A} {f : A → Exec W B}
      → Succeeds m
      → ((a : A) → Succeeds (f a))
      → Succeeds (m >>= f)
  unfolding ◌>>=◌
  Succeeds-bind {m} {f} sm sf = record {
    value = λ s. let (r, s') = m s in continue-ok (m s).0 (sm.value s).0 f s' (sm.value s).1 sf;
  }

module _ {W A : Type 0} where
  pub Succeeds-pure : (a : A) → Succeeds (pure {W = W} a)
  unfolding pure
  Succeeds-pure a = record { value = λ s. (a, refl) }

  pub Succeeds-attempt : (m : Exec W A) → Succeeds (attempt m)
  unfolding attempt
  Succeeds-attempt m = record { value = λ s. ((m s).0, refl) }

pub Succeeds-count : {W : Type 0} (m : Metric) → Succeeds (count {W = W} m)
unfolding count
Succeeds-count m = record { value = λ s. (tt, refl) }
