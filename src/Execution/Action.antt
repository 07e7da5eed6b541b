-- ===== src/Execution/Action.antt =====
-- Methods that read and change the world and the execution context, and that may raise. The changes
-- made before a raise stay.
use sth_boring.Base.{
  ℕ, String, List, Result, ok, raise, Exception, Option, Bool, true, false, if◌then◌else◌, ◌≡◌,
  refl, ap, ◌⊎◌, inl, inr,
}
use sth_boring.Base.Dict.{Dict}
use sth_boring.Execution.Models.{ExecutionContext, ExecutionRun, StepExecutionResult}

-- `W` is what lies outside: the clock, the source of ids, the artifact store, containers.
pub record State (W : Type 0) : Type 0 where
  pub world : W
  pub context : ExecutionContext

abbrev pub Action : Type 0 → Type 0 → Type 0
Action W A = State W → Result A × State W

module _ {W A : Type 0} where
  abbrev pub pure : A → Action W A
  pure a s = (ok a, s)

  abbrev pub throw : Exception → Action W A
  throw e s = (raise e, s)

  -- `try: m` / `except Exception as exc: handler(exc)`
  abbrev pub catch : Action W A → (Exception → Action W A) → Action W A
  catch m handler s = let (r, s') = m s in elim r [ ok a ↦ (ok a, s') | raise e ↦ handler e s' ]

module _ {W A B : Type 0} where
  abbrev pub and_then : Result A → (A → Action W B) → Action W B
  and_then (ok a) f = f a
  and_then (raise e) f = throw e

  infixl 5 ◌>>=◌ ◌>>◌
  unfoldable pub ◌>>=◌ : Action W A → (A → Action W B) → Action W B
  m >>= f = λ s. let (r, s') = m s in and_then r f s'

  abbrev pub ◌>>◌ : Action W A → Action W B → Action W B
  m >> n = m >>= λ _. n

  pub and_then-eq-ok :
      (r : Result A) (f : A → Action W B) (s : State W) {b : B}
      → (and_then r f s).0 ≡ ok b
      → (a : A) × (r ≡ ok a) × ((f a s).0 ≡ ok b)
  and_then-eq-ok (ok a) f s e = (a, refl, e)
  and_then-eq-ok (raise _) f s e = cc

-- The result is a value, or an exception with `E`.
abbrev pub EndsIn : {A : Type 0} → (Exception → Type 0) → Result A → Type 0
EndsIn {A} E r = ((a : A) × (r ≡ ok a)) ⊎ ((e : Exception) × (r ≡ raise e) × E e)

-- From every state the action returns or raises an exception with `E`.
pub record Ends {W A : Type 0} (E : Exception → Type 0) (m : Action W A) : Type 0 where
  pub at : (s : State W) → EndsIn E (m s).0

module _ {W A : Type 0} {E : Exception → Type 0} where
  pub Ends-pure : (a : A) → Ends {W = W} E (pure a)
  Ends-pure a = record { at = λ s. inl (a, refl) }

  pub Ends-if : (b : Bool) (m n : Action W A) → Ends E m → Ends E n → Ends E (if b then m else n)
  Ends-if true m n hm hn = hm
  Ends-if false m n hm hn = hn

  -- A handler catches every exception.
  pub Ends-catch :
      (m : Action W A) (handler : Exception → Action W A)
      → ((e : Exception) → Ends E (handler e))
      → Ends E (catch m handler)
  Ends-catch m handler h = record { at = λ s. caught (m s).0 (m s).1 }
    where
      caught :
          (r : Result A) (s : State W)
          → EndsIn E
              (elim r as (λ _. Result A × State W) [ ok b ↦ (ok b, s) | raise e ↦ handler e s ]).0
      caught (ok a) s = inl (a, refl)
      caught (raise e) s = (h e).at s

module _ {W A B : Type 0} {E : Exception → Type 0} where
  pub Ends-bind :
      (m : Action W A) (f : A → Action W B) → Ends E m → ((a : A) → Ends E (f a)) → Ends E (m >>= f)
  unfolding ◌>>=◌
  Ends-bind m f hm hf = record { at = λ s. next (m s).0 (m s).1 (hm.at s) }
    where
      next : (r : Result A) (s : State W) → EndsIn E r → EndsIn E (and_then r f s).0
      next (ok a) s h = (hf a).at s
      next (raise x) s (inl (a, e)) = absurd cc
      next (raise x) s (inr (y, e, h)) = inr (y, ap from_raise e, h)
        where
          from_raise : Result A → Result B
          from_raise (ok a) = raise y
          from_raise (raise z) = raise z

-- The arguments of `persist_artifact_bytes`. Those that the second, positional call leaves out are
-- optional.
pub record PersistRequest : Type 0 where
  pub task_id : String
  pub stage_id : Option String
  pub kind : String
  pub name : String
  pub content : List ℕ
  pub subdir : String
  pub mime_type : Option String
  pub created_by_action : Option String

-- What the engine is given: the clock, the source of ids and, if there is one, the artifact manager,
-- whose reply is the reference of the stored record. `encode` is `text.encode("utf-8")`, and `dumps`
-- the JSON text of the summary of a run: `json.dumps(..., sort_keys=True, default=str)` of `asdict`.
-- Both can raise.
pub record Services (W : Type 0) : Type 0 where
  pub time_func : W → ℕ × W
  pub new_id : String → W → String × W
  pub encode : String → Result (List ℕ)
  pub dumps : ExecutionRun → Dict StepExecutionResult → Result String
  pub artifact_manager : Option (PersistRequest → W → Result String × W)
