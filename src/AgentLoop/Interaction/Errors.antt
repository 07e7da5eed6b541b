-- ===== src/AgentLoop/Interaction/Errors.antt =====
-- src/sdk_test_agent/agent_loop/interaction_decision.py: what `decide` raises.
use sth_boring.Base.{
  String, Option, none, some, Bool, true, false, Result, ok, raise, Exception, if◌then◌else◌, ◌≡◌,
  refl, ◌⊎◌, inl, inr, ap, sym, ◌∙◌, subst,
}
use sth_boring.Base.Effects.{Action, lift, and_then}
use sth_boring.Json.{Value, Fields, Number}
use sth_boring.AgentLoop.Interaction.{
  InteractionDecisionRequest, InteractionDecision, LlmResponse, refuse_if, ◌then_check◌, check_mode,
  plain_number, check_confidence, validate, interpret, interpreted, validated, checked, field_of,
  as_parse_error, decide, from_payload, parse_json_object,
}

-- A value that cannot be hashed.
abbrev IsContainer : Value → Type 0
IsContainer (Value.arr vs) = Unit {0}
IsContainer (Value.obj fs) = Unit {0}
IsContainer _ = ⊥

-- An exception of a decision with this mode.
abbrev IsMishap : Value → Exception → Type 0
IsMishap mode e =
    (e.class_name ≡ "InteractionDecisionParseError")
    ⊎ (e.class_name ≡ "InteractionDecisionValidationError")
    ⊎ (IsContainer mode × (e.class_name ≡ "TypeError"))

-- An exception of `decide`, by what the parser makes of the response.
abbrev pub IsExpected : Result Fields → Exception → Type 0
IsExpected parsed e =
    (e.class_name ≡ "InteractionDecisionParseError")
    ⊎ (e.class_name ≡ "InteractionDecisionValidationError")
    ⊎ ((payload : Fields) × (parsed ≡ ok payload)
        × IsContainer (field_of "mode" payload)
        × (e.class_name ≡ "TypeError"))

-- What the result raises, if anything, is a mishap of the mode.
abbrev Expects : {A : Type 0} → Value → Result A → Type 0
Expects mode r = (e : Exception) → r ≡ raise e → IsMishap mode e

module _ (v : Value) where
  Expects-raise : {A : Type 0} (x : Exception) → IsMishap v x → Expects {A = A} v (raise x)
  Expects-raise x k e h = let same : x ≡ e = cc in subst (IsMishap v) same k

  Expects-ok : {A : Type 0} (a : A) → Expects v (ok a)
  Expects-ok a e h = absurd cc

  Expects-if :
      {A : Type 0} (b : Bool) (r s : Result A)
      → Expects v r
      → Expects v s
      → Expects v (if b then r else s)
  Expects-if true r s hr hs = hr
  Expects-if false r s hr hs = hs

  Expects-then_check :
      (a b : Result (Unit {0})) → Expects v a → Expects v b → Expects v (a then_check b)
  Expects-then_check (ok tt) b ha hb = hb
  Expects-then_check (raise x) b ha hb = ha

  Expects-refuse_if : (b : Bool) (message : String) → Expects v (refuse_if b message)
  Expects-refuse_if true message = Expects-raise _ (inr (inl refl))
  Expects-refuse_if false message = Expects-ok tt

  Expects-check_confidence : (o : Option Number) → Expects v (check_confidence o)
  Expects-check_confidence none = Expects-raise _ (inr (inl refl))
  Expects-check_confidence (some n) = Expects-refuse_if _ _

  Expects-checked :
      (r : Result (Unit {0})) (d : InteractionDecision) → Expects v r → Expects v (checked r d)
  Expects-checked (ok tt) d h = Expects-ok d
  Expects-checked (raise x) d h = Expects-raise x (h x refl)

  Expects-validated :
      (repr : Value → String) (b : Bool) (x : Exception) (d : InteractionDecision)
      → IsMishap v x
      → Expects v (validate repr d)
      → Expects v (validated repr (if b then raise x else ok d))
  Expects-validated repr true x d hx hd = Expects-raise x hx
  Expects-validated repr false x d hx hd = Expects-checked (validate repr d) d hd

Expects-check_mode : (repr : Value → String) (v : Value) → Expects v (check_mode repr v)
Expects-check_mode repr (Value.str m) = Expects-refuse_if (Value.str m) _ _
Expects-check_mode repr (Value.obj fs) = Expects-raise (Value.obj fs) _ (inr (inr (tt, refl)))
Expects-check_mode repr (Value.arr vs) = Expects-raise (Value.arr vs) _ (inr (inr (tt, refl)))
Expects-check_mode repr (Value.bool b) = Expects-raise (Value.bool b) _ (inr (inl refl))
Expects-check_mode repr (Value.int n) = Expects-raise (Value.int n) _ (inr (inl refl))
Expects-check_mode repr (Value.float m k) = Expects-raise (Value.float m k) _ (inr (inl refl))
Expects-check_mode repr Value.null = Expects-raise Value.null _ (inr (inl refl))

Expects-validate :
    (repr : Value → String) (d : InteractionDecision) → Expects d.mode (validate repr d)
unfolding validate
Expects-validate repr d =
    Expects-then_check d.mode _ _
      (Expects-then_check d.mode _ _
        (Expects-then_check d.mode _ _
          (Expects-then_check d.mode _ _
            (Expects-then_check d.mode _ _
              (Expects-then_check d.mode _ _
                (Expects-then_check d.mode _ _ (Expects-check_mode repr d.mode)
                  (Expects-refuse_if d.mode _ _))
                (Expects-refuse_if d.mode _ _))
              (Expects-check_confidence d.mode (plain_number d.confidence)))
            (Expects-refuse_if d.mode _ _))
          (Expects-refuse_if d.mode _ _))
        (Expects-refuse_if d.mode _ _))
      (Expects-refuse_if d.mode _ _)

Expects-payload :
    (repr : Value → String) (payload : Fields)
    → Expects (field_of "mode" payload) (validated repr (from_payload payload))
unfolding from_payload
Expects-payload repr payload =
    Expects-validated (field_of "mode" payload) repr _ _ _ (inr (inl refl))
      (Expects-validate repr _)

interpreted-IsExpected :
    (repr : Value → String) (parsed : Result Fields) (e : Exception)
    → interpreted repr (as_parse_error parsed) ≡ raise e
    → IsExpected parsed e
interpreted-IsExpected repr (ok payload) e h = elim (Expects-payload repr payload e h) [
  | inl parse ↦ inl parse
  | inr (inl invalid) ↦ inr (inl invalid)
  | inr (inr (container, type_error)) ↦ inr (inr (payload, refl, container, type_error))
]
interpreted-IsExpected repr (raise x) e h = inl (ap class_of (sym h))
  where
    class_of : Result InteractionDecision → String
    class_of (ok d) = "InteractionDecisionParseError"
    class_of (raise y) = y.class_name

-- If the client answers, then what `decide` raises is one of the two errors of the module, or, if the
-- response is an object whose mode is a list or an object, a TypeError.
pub decide-IsExpected :
    {W : Type 0} (complete : InteractionDecisionRequest → Action W LlmResponse)
    (loads : String → Result Value) (repr : Value → String) (request : InteractionDecisionRequest)
    (w : W) (response : LlmResponse) (e : Exception)
    → (complete request w).0 ≡ ok response
    → (decide complete loads repr request w).0 ≡ raise e
    → IsExpected (parse_json_object loads response) e
unfolding decide interpret
decide-IsExpected {W = W} complete loads repr request w response e answered h =
    interpreted-IsExpected repr (parse_json_object loads response) e (
      sym (
        ap (λ r. (and_then r (λ x. lift {W = W} (interpret loads repr x)) (complete request w).1).0)
          answered)
      ∙ h)
