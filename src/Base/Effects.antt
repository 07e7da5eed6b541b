-- ===== src/Base/Effects.antt =====
-- Code that reads and changes an outside world and that may raise. The changes made before a raise
-- stay.
use sth_boring.Base.Raising.{Result, ok, raise, Exception}

abbrev pub Action : Type 0 → Type 0 → Type 0
Action W A = W → Result A × W

module _ {W A : Type 0} where
  abbrev pub pure : A → Action W A
  pure a w = (ok a, w)

  abbrev pub throw : Exception → Action W A
  throw e w = (raise e, w)

  -- Code that runs after a check that may raise.
  abbrev pub after : Result (Unit {0}) → Action W A → Action W A
  after (ok tt) m = m
  after (raise e) m = throw e

  -- The result of code that leaves the world alone.
  abbrev pub lift : Result A → Action W A
  lift r w = (r, w)

module _ {W A B : Type 0} where
  abbrev pub and_then : Result A → (A → Action W B) → Action W B
  and_then (ok a) f = f a
  and_then (raise e) f = throw e

  infixl 5 ◌>>=◌ ◌>>◌
  abbrev pub ◌>>=◌ : Action W A → (A → Action W B) → Action W B
  m >>= f = λ w. let (r, w') = m w in and_then r f w'

  abbrev pub ◌>>◌ : Action W A → Action W B → Action W B
  m >> n = m >>= λ _. n
