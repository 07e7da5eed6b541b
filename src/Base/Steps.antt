-- ===== src/Base/Steps.antt =====
-- The operators of Effects as definitions that do not compute by themselves, for code whose proofs go
-- by the lemmas of Ensures.
use sth_boring.Base.Raising.{ok, raise, Exception}
use sth_boring.Base.Effects.{Action}
pub use sth_boring.Base.Effects.{Action, pure, throw, and_then, lift}

module _ {W A B : Type 0} where
  infixl 5 ◌>>=◌ ◌>>◌
  unfoldable pub ◌>>=◌ : Action W A → (A → Action W B) → Action W B
  m >>= f = λ w. let (r, w') = m w in and_then r f w'

  abbrev pub ◌>>◌ : Action W A → Action W B → Action W B
  m >> n = m >>= λ _. n

module _ {W A : Type 0} where
  -- `try: m` / `except Exception as exc: handler(exc)`
  unfoldable pub catch : Action W A → (Exception → Action W A) → Action W A
  catch m handler w = let (r, w') = m w in elim r [ ok a ↦ (ok a, w') | raise e ↦ handler e w' ]
