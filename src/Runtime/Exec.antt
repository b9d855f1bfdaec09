-- ===== src/Runtime/Exec.antt =====
-- Code that may fail and that has effects: an action reads and changes the state, which is the
-- world outside and the events so far, the newest first.
pub mod Keeps
pub mod Yields
pub mod Succeeds
use easyhooks.Prelude.{ℤ, Bytes, Option, List, ◌∷◌}
use easyhooks.Runtime.Errors.{Error, wrapped, Result, ok, err}
use easyhooks.Runtime.Events.{Metric, Command, Event, counted, sent, waited}
use easyhooks.Runtime.Env.{Env}

pub record State (W : Type 0) : Type 0 where
  pub world : W
  pub events : List Event

abbrev pub Exec : Type 0 → Type 0 → Type 0
Exec W A = State W → Result A × State W

unfoldable pub rewrap : {A : Type 0} → Bytes → Result A → Result A
rewrap text (ok a) = ok a
rewrap text (err e) = err (wrapped text e)

module _ {W A : Type 0} where
  unfoldable pub pure : A → Exec W A
  pure a s = (ok a, s)

  unfoldable pub fail : Error → Exec W A
  fail e s = (err e, s)

  unfoldable pub lift : Result A → Exec W A
  lift r s = (r, s)

  -- The error as a value, `v, err := m`.
  unfoldable pub attempt : Exec W A → Exec W (Result A)
  attempt m s = let (r, s') = m s in (ok r, s')

  -- `if err != nil { return fmt.Errorf("<text>: %w", err) }`
  unfoldable pub wrap : Bytes → Exec W A → Exec W A
  unfolding rewrap
  wrap text m s = let (r, s') = m s in (rewrap text r, s')

  -- A command to Redis, with its record among the events.
  unfoldable pub command : Command → (W → Result A × W) → Exec W A
  command c op s = let (r, w) = op s.world in (r, record { world = w; events = sent c ∷ s.events })

module _ {W : Type 0} where
  unfoldable pub count : Metric → Exec W (Unit {0})
  count m s = (ok tt, record s { events = counted m ∷ s.events })

  -- A pause that the end of the context cuts short.
  unfoldable pub pause : Env W → ℤ → Exec W (Option Error)
  pause env n s =
      let (r, w) = env.wait n s.world in (ok r, record { world = w; events = waited n ∷ s.events })

module _ {W A B : Type 0} where
  unfoldable pub continue : Result A → (A → Exec W B) → Exec W B
  continue (ok a) f s = f a s
  continue (err e) f s = (err e, s)

  infixl 10 ◌>>=◌ ◌>>◌
  -- To open this is to open all the actions above.
  unfoldable pub ◌>>=◌ : Exec W A → (A → Exec W B) → Exec W B
  unfolding continue pure fail lift attempt wrap command count pause
  ◌>>=◌ m f s = let (r, s') = m s in continue r f s'

  abbrev pub ◌>>◌ : Exec W A → Exec W B → Exec W B
  m >> k = m >>= λ _. k
