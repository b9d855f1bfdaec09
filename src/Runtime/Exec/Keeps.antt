-- ===== src/Runtime/Exec/Keeps.antt =====
-- Predicates of the state that actions keep, whatever their result: a rule for each way to build an
-- action.
use easyhooks.Prelude.{ℤ, Bytes, Bool, true, false, ◌∷◌, ◌≡◌, refl, if◌then◌else◌}
use easyhooks.Runtime.Errors.{Error, Result, ok, err}
use easyhooks.Runtime.Events.{Metric, Command, counted, sent, waited}
use easyhooks.Runtime.Env.{Env}
use easyhooks.Runtime.Exec.{
  State, Exec, pure, fail, lift, attempt, wrap, command, count, pause, continue, ◌>>=◌,
}

pub record Keeps {W A : Type 0} (P : State W → Type 0) (m : Exec W A) : Type 0 where
  pub at : (s : State W) → P s → P (m s).1

module _ {W A : Type 0} {P : State W → Type 0} where
  pub Keeps-pure : (a : A) → Keeps P (pure a)
  unfolding pure
  Keeps-pure a = record { at = λ s h. h }

  pub Keeps-fail : (e : Error) → Keeps P (fail {A = A} e)
  unfolding fail
  Keeps-fail e = record { at = λ s h. h }

  pub Keeps-lift : (r : Result A) → Keeps P (lift r)
  unfolding lift
  Keeps-lift r = record { at = λ s h. h }

  pub Keeps-attempt : {m : Exec W A} → Keeps P m → Keeps P (attempt m)
  unfolding attempt
  Keeps-attempt k = record { at = k.at }

  pub Keeps-wrap : (text : Bytes) {m : Exec W A} → Keeps P m → Keeps P (wrap text m)
  unfolding wrap
  Keeps-wrap text k = record { at = k.at }

  pub Keeps-if :
      (b : Bool) {m n : Exec W A}
      → (b ≡ true → Keeps P m)
      → (b ≡ false → Keeps P n)
      → Keeps P (if b then m else n)
  Keeps-if true km kn = km refl
  Keeps-if false km kn = kn refl

  pub Keeps-command :
      (c : Command) (op : W → Result A × W)
      → ((s : State W) → P s → P (record { world = (op s.world).1; events = sent c ∷ s.events }))
      → Keeps P (command c op)
  unfolding command
  Keeps-command c op k = record { at = k }

module _ {W A B : Type 0} {P : State W → Type 0} where
  continue-keeps :
      (r : Result A) (f : A → Exec W B) (s : State W)
      → ((a : A) → Keeps P (f a))
      → P s
      → P (continue r f s).1
  unfolding continue
  continue-keeps (ok a) f s kf h = (kf a).at s h
  continue-keeps (err e) f s kf h = h

  pub Keeps-bind :
      {m : Exec W A} {f : A → Exec W B} → Keeps P m → ((a : A) → Keeps P (f a)) → Keeps P (m >>= f)
  unfolding ◌>>=◌
  Keeps-bind {m} {f} km kf = record {
    at = λ s h. let (r, s') = m s in continue-keeps r f s' kf (km.at s h);
  }

module _ {W : Type 0} {P : State W → Type 0} where
  pub Keeps-count :
      (c : Metric)
      → ((s : State W) → P s → P (record s { events = counted c ∷ s.events }))
      → Keeps P (count c)
  unfolding count
  Keeps-count c k = record { at = k }

  pub Keeps-pause :
      (env : Env W) (n : ℤ)
      → ((s : State W)
          → P s
          → P (record { world = (env.wait n s.world).1; events = waited n ∷ s.events }))
      → Keeps P (pause env n)
  unfolding pause
  Keeps-pause env n k = record { at = k }
