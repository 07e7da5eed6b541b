-- ===== src/AgentLoop/Interaction/Contract.antt =====
-- src/sdk_test_agent/agent_loop/interaction_decision.py: what holds of a decision that is returned,
-- and what is raised instead.
use sth_boring.Base.{
  String, [], ◌∷◌, Option, none, some, Bool, true, false, not, ◌&&◌, ◌||◌, Result, ok, raise, ◌==◌,
  strip, contains, ◌≡◌, refl, arith, eq_iff, Bool-cases, inl, inr, ◌⊎◌, Ex, ap, ap₂, ◌∙◌, sym,
  subst,
}
use sth_boring.Base.Effects.{Action, lift, and_then}
use sth_boring.Json.{Value, Fields, Number}
use sth_boring.AgentLoop.Interaction.{
  InteractionDecisionRequest, InteractionDecision, LlmResponse, refuse_if, ◌then_check◌,
  allowed_modes, check_mode, is_text, is_filled, plain_number, in_unit, check_confidence, is_object,
  is_null, is_mode, validate, interpret, interpreted, validated, checked, decide, from_payload,
}

-- What the mode asks of the content and of the goal.
pub data Suits : String → String → Value → Type 0 where
  planned : (c g : String) → (strip g == "") ≡ false → Suits "PLAN" c (Value.str g)
  replied :
      (m c : String) (goal : Value)
      → Ex (λ t. m ≡ t) ("RETURN" ∷ "REFUSE" ∷ "HUMAN" ∷ [])
      → (strip c == "") ≡ false
      → (goal ≡ Value.null) ⊎ ((g : String) × (goal ≡ Value.str g))
      → Suits m c goal

-- The contract of a decision: the content and the reason are texts, the reason is not blank, the
-- confidence is a number between 0 and 1 and no bool, and the metadata are an object.
pub record Contract (d : InteractionDecision) : Type 0 where
  pub mode : String
  pub content : String
  pub reason : String
  pub confidence : Number
  pub metadata : Fields
  pub mode-eq : d.mode ≡ Value.str mode
  pub content-eq : d.content ≡ Value.str content
  pub reason-eq : d.reason ≡ Value.str reason
  pub reason_filled : (strip reason == "") ≡ false
  pub confidence-eq : plain_number d.confidence ≡ some confidence
  pub confidence_bounded : in_unit confidence ≡ true
  pub metadata-eq : d.metadata ≡ Value.obj metadata
  pub suits : Suits mode content d.normalized_goal

then_check-ok : (a b : Result (Unit {0})) → (a then_check b) ≡ ok tt → (a ≡ ok tt) × (b ≡ ok tt)
then_check-ok (ok tt) b e = (refl, e)
then_check-ok (raise x) b e = absurd cc

refuse_if-ok : (b : Bool) (message : String) → refuse_if b message ≡ ok tt → b ≡ false
refuse_if-ok true message e = absurd cc
refuse_if-ok false message e = refl

check_mode-ok :
    (repr : Value → String) (v : Value)
    → check_mode repr v ≡ ok tt
    → (m : String) × (v ≡ Value.str m) × (contains m allowed_modes ≡ true)
check_mode-ok repr (Value.str m) e =
    (m, refl, let h = refuse_if-ok (not (contains m allowed_modes)) _ e in ground arith)
check_mode-ok repr (Value.obj fs) e = absurd cc
check_mode-ok repr (Value.arr vs) e = absurd cc
check_mode-ok repr (Value.bool b) e = absurd cc
check_mode-ok repr (Value.int n) e = absurd cc
check_mode-ok repr (Value.float m k) e = absurd cc
check_mode-ok repr Value.null e = absurd cc

is_text-str : (v : Value) → is_text v ≡ true → (s : String) × (v ≡ Value.str s)
is_text-str (Value.str s) h = (s, refl)
is_text-str (Value.obj fs) h = absurd cc
is_text-str (Value.arr vs) h = absurd cc
is_text-str (Value.bool b) h = absurd cc
is_text-str (Value.int n) h = absurd cc
is_text-str (Value.float m k) h = absurd cc
is_text-str Value.null h = absurd cc

is_filled-str :
    (v : Value) → is_filled v ≡ true → (s : String) × (v ≡ Value.str s) × ((strip s == "") ≡ false)
is_filled-str (Value.str s) h = (s, refl, ground arith)
is_filled-str (Value.obj fs) h = absurd cc
is_filled-str (Value.arr vs) h = absurd cc
is_filled-str (Value.bool b) h = absurd cc
is_filled-str (Value.int n) h = absurd cc
is_filled-str (Value.float m k) h = absurd cc
is_filled-str Value.null h = absurd cc

is_object-obj : (v : Value) → is_object v ≡ true → (fs : Fields) × (v ≡ Value.obj fs)
is_object-obj (Value.obj fs) h = (fs, refl)
is_object-obj (Value.str s) h = absurd cc
is_object-obj (Value.arr vs) h = absurd cc
is_object-obj (Value.bool b) h = absurd cc
is_object-obj (Value.int n) h = absurd cc
is_object-obj (Value.float m k) h = absurd cc
is_object-obj Value.null h = absurd cc

null_or_text :
    (v : Value)
    → (is_null v || is_text v) ≡ true
    → (v ≡ Value.null) ⊎ ((s : String) × (v ≡ Value.str s))
null_or_text (Value.str s) h = inr (s, refl)
null_or_text Value.null h = inl refl
null_or_text (Value.obj fs) h = absurd cc
null_or_text (Value.arr vs) h = absurd cc
null_or_text (Value.bool b) h = absurd cc
null_or_text (Value.int n) h = absurd cc
null_or_text (Value.float m k) h = absurd cc

check_confidence-ok :
    (o : Option Number)
    → check_confidence o ≡ ok tt
    → (n : Number) × (o ≡ some n) × (in_unit n ≡ true)
check_confidence-ok none e = absurd cc
check_confidence-ok (some n) e =
    (n, refl, let h = refuse_if-ok (not (in_unit n)) _ e in ground arith)

-- An allowed mode that is not PLAN.
reply_mode :
    (m : String)
    → contains m allowed_modes ≡ true
    → (m == "PLAN") ≡ false
    → Ex (λ t. m ≡ t) ("RETURN" ∷ "REFUSE" ∷ "HUMAN" ∷ [])
unfolding contains
reply_mode m h p = ground (
  arith,
  eq_iff m "PLAN",
  eq_iff "PLAN" m,
  eq_iff "RETURN" m,
  eq_iff "REFUSE" m,
  eq_iff "HUMAN" m,
)

suits_mode :
    (m c : String) (goal : Value)
    → contains m allowed_modes ≡ true
    → ((goal ≡ Value.null) ⊎ ((g : String) × (goal ≡ Value.str g)))
    → ((m == "PLAN") && not (is_filled goal)) ≡ false
    → (((m == "RETURN") || (m == "REFUSE") || (m == "HUMAN")) && not (is_filled (Value.str c)))
      ≡ false
    → Suits m c goal
suits_mode m c goal allowed shape plan_filled reply_filled = elim (Bool-cases (m == "PLAN")) [
  | inl p ↦
      let same : m ≡ "PLAN" = ground (arith, eq_iff m "PLAN") in
      let (g, eq, filled) = is_filled-str goal (ground arith) in
      subst (λ m. Suits m c goal) (sym same) (subst (Suits "PLAN" c) (sym eq) (planned c g filled))
  | inr p ↦ let other = reply_mode m allowed p in replied m c goal other (filled other) shape
]
  where
    filled : Ex (λ t. m ≡ t) ("RETURN" ∷ "REFUSE" ∷ "HUMAN" ∷ []) → (strip c == "") ≡ false
    filled other = ground (arith, eq_iff m "RETURN", eq_iff m "REFUSE", eq_iff m "HUMAN")

-- The validator accepts nothing but what keeps the contract.
validate-Contract :
    (repr : Value → String) (d : InteractionDecision) → validate repr d ≡ ok tt → Contract d
unfolding validate
validate-Contract repr d e =
    let (h7, e8) = then_check-ok _ _ e in
    let (h6, e7) = then_check-ok _ _ h7 in
    let (h5, e6) = then_check-ok _ _ h6 in
    let (h4, e5) = then_check-ok _ _ h5 in
    let (h3, e4) = then_check-ok _ _ h4 in
    let (h2, e3) = then_check-ok _ _ h3 in
    let (e1, e2) = then_check-ok _ _ h2 in
    let (m, mode-eq, allowed) = check_mode-ok repr d.mode e1 in
    let (c, content-eq) = is_text-str d.content (accepted (refuse_if-ok _ _ e2)) in
    let (r, reason-eq, filled) = is_filled-str d.reason (accepted (refuse_if-ok _ _ e3)) in
    let (n, confidence-eq, bounded) = check_confidence-ok (plain_number d.confidence) e4 in
    let (fs, metadata-eq) = is_object-obj d.metadata (accepted (refuse_if-ok _ _ e5)) in
    let shape = null_or_text d.normalized_goal (accepted (refuse_if-ok _ _ e6)) in
    record {
      mode = m;
      content = c;
      reason = r;
      confidence = n;
      metadata = fs;
      mode-eq = mode-eq;
      content-eq = content-eq;
      reason-eq = reason-eq;
      reason_filled = filled;
      confidence-eq = confidence-eq;
      confidence_bounded = bounded;
      metadata-eq = metadata-eq;
      suits =
          suits_mode m c d.normalized_goal allowed shape
            (ap (λ v. is_mode v "PLAN" && not (is_filled d.normalized_goal)) (sym mode-eq)
              ∙ refuse_if-ok _ _ e7)
            (ap₂
                (λ v u.
                  (is_mode v "RETURN" || is_mode v "REFUSE" || is_mode v "HUMAN")
                  && not (is_filled u))
                (sym mode-eq) (sym content-eq)
              ∙ refuse_if-ok _ _ e8);
    }
  where
    accepted : {b : Bool} → not b ≡ false → b ≡ true
    accepted {b = true} h = refl
    accepted {b = false} h = absurd cc

-- A decision that `decide` returns keeps the contract, whatever the client answers.
pub decide-Contract :
    {W : Type 0} (complete : InteractionDecisionRequest → Action W LlmResponse)
    (loads : String → Result Value) (repr : Value → String) (request : InteractionDecisionRequest)
    (w : W) (d : InteractionDecision)
    → (decide complete loads repr request w).0 ≡ ok d
    → Contract d
unfolding decide interpret
decide-Contract {W = W} complete loads repr request w d e = answered (complete request w).0 e
  where
    from_checked :
        (r : Result (Unit {0})) (x : InteractionDecision)
        → validate repr x ≡ r
        → checked r x ≡ ok d
        → Contract d
    from_checked (ok tt) x v e =
        let same : x ≡ d = cc in subst Contract same (validate-Contract repr x v)
    from_checked (raise y) x v e = absurd cc

    from_validated : (r : Result InteractionDecision) → validated repr r ≡ ok d → Contract d
    from_validated (ok x) e = from_checked (validate repr x) x refl e
    from_validated (raise y) e = absurd cc

    from_interpreted : (r : Result Fields) → interpreted repr r ≡ ok d → Contract d
    from_interpreted (ok payload) e = from_validated (from_payload payload) e
    from_interpreted (raise y) e = absurd cc

    answered :
        (r : Result LlmResponse)
        → (and_then r
            (λ response. lift {W = W} (interpret loads repr response))
            (complete request w).1).0
          ≡ ok d
        → Contract d
    answered (ok response) e = from_interpreted _ e
    answered (raise y) e = absurd cc
