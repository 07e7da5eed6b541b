-- ===== src/Base/Ensures.antt =====
-- What code leaves behind: from a state with `P` it returns `a` in a state with `Q a`, or it raises
-- and leaves a state with `E`.
use sth_boring.Base.Raising.{Result, ok, raise, Exception}
use sth_boring.Base.Steps.{Action, pure, throw, catch, and_then, lift, ◌>>=◌}
use mathlib.Core.Bool.{Bool, true, false}
use mathlib.Core.Path.{◌≡◌, refl}
use sth_boring.Base.Tests.{if◌then◌else◌}

module _ {S A : Type 0} where
  abbrev pub Post : (S → Type 0) → (A → S → Type 0) → Result A → S → Type 0
  Post E Q (ok a) s = Q a s
  Post E Q (raise e) s = E s

  pub record Ensures (P : S → Type 0) (E : S → Type 0) (m : Action S A) (Q : A → S → Type 0)
      : Type 0 where
    pub at : (s : S) → P s → Post E Q (m s).0 (m s).1

  -- The code keeps `I`, and an exception leaves `E`.
  abbrev pub Keeps : (S → Type 0) → (S → Type 0) → Action S A → Type 0
  Keeps I E m = Ensures I E m (λ _. I)

module _ {S A : Type 0} {P E : S → Type 0} {Q : A → S → Type 0} where
  pub Ensures-pure : (a : A) → ((s : S) → P s → Q a s) → Ensures P E (pure a) Q
  Ensures-pure a h = record { at = h }

  pub Ensures-if :
      (b : Bool) (m n : Action S A)
      → (b ≡ true → Ensures P E m Q)
      → (b ≡ false → Ensures P E n Q)
      → Ensures P E (if b then m else n) Q
  Ensures-if true m n hm hn = hm refl
  Ensures-if false m n hm hn = hn refl

  -- The handler goes on from what the exception leaves.
  pub Ensures-catch :
      (M : S → Type 0) (m : Action S A) (handler : Exception → Action S A)
      → Ensures P M m Q
      → ((e : Exception) → Ensures M E (handler e) Q)
      → Ensures P E (catch m handler) Q
  unfolding catch
  Ensures-catch M m handler hm hh = record { at = λ s p. caught (m s).0 (m s).1 (hm.at s p) }
    where
      caught :
          (r : Result A) (s : S)
          → Post M Q r s
          → Post E Q
              (elim r as (λ _. Result A × S) [ ok a ↦ (ok a, s) | raise e ↦ handler e s ]).0
              (elim r as (λ _. Result A × S) [ ok a ↦ (ok a, s) | raise e ↦ handler e s ]).1
      caught (ok a) s h = h
      caught (raise e) s h = (hh e).at s h

  pub Ensures-weaken :
      (F : S → Type 0) (m : Action S A) → ((s : S) → F s → E s) → Ensures P F m Q → Ensures P E m Q
  Ensures-weaken F m h hm = record { at = λ s p. weaker (m s).0 (m s).1 (hm.at s p) }
    where
      weaker : (r : Result A) (s : S) → Post F Q r s → Post E Q r s
      weaker (ok a) s q = q
      weaker (raise e) s q = h s q

module _ {S A B : Type 0} {P E : S → Type 0} {Q : A → S → Type 0} {R : B → S → Type 0} where
  pub Ensures-bind :
      (m : Action S A) (f : A → Action S B)
      → Ensures P E m Q
      → ((a : A) → Ensures (Q a) E (f a) R)
      → Ensures P E (m >>= f) R
  unfolding ◌>>=◌
  Ensures-bind m f hm hf = record { at = λ s p. next (m s).0 (m s).1 (hm.at s p) }
    where
      next : (r : Result A) (s : S) → Post E Q r s → Post E R (and_then r f s).0 (and_then r f s).1
      next (ok a) s q = (hf a).at s q
      next (raise e) s q = q

module _ {S A B : Type 0} {I E : S → Type 0} {R : B → S → Type 0} where
  pub Keeps-bind :
      (m : Action S A) (f : A → Action S B)
      → Keeps I E m
      → ((a : A) → Ensures I E (f a) R)
      → Ensures I E (m >>= f) R
  Keeps-bind m f hm hf = Ensures-bind m f hm hf

module _ {S A : Type 0} {I E : S → Type 0} where
  pub Keeps-pure : (a : A) → Keeps I E (pure a)
  Keeps-pure a = record { at = λ s p. p }

  -- A result computed without the state.
  pub lift-Keeps : (r : Result A) → ((s : S) → I s → E s) → Keeps I E (lift r)
  lift-Keeps (ok a) h = record { at = λ s p. p }
  lift-Keeps (raise e) h = record { at = h }

  pub lift-Keeps_ok : (r : Result A) (a : A) → r ≡ ok a → Keeps I E (lift r)
  lift-Keeps_ok (ok b) a h = record { at = λ s p. p }
  lift-Keeps_ok (raise e) a h = absurd cc

module _ {S A : Type 0} {I : S → Type 0} {Q : A → S → Type 0} where
  pub Ensures-throw : (e : Exception) → Ensures I I (throw e) Q
  Ensures-throw e = record { at = λ s p. p }

module _ {S : Type 0} {I E : S → Type 0} where
  pub Keeps-get : Keeps I E (λ s. (ok s, s))
  Keeps-get = record { at = λ s p. p }
