-- ===== src/Crawler/Runner/Counting.antt =====
-- src/AgentCrawler/src/agent_crawler/loop/runner.py: how often a run falls back.
use sth_boring.Base.Int.{at_least_one}
use sth_boring.Base.{
  ℕ, zero, suc, String, List, [], ◌∷◌, Bool, true, false, Result, ok, raise, if◌then◌else◌, ◌==◌,
  ◌+◌,
}
use sth_boring.Base.Steps.{Action, ◌>>=◌, ◌>>◌, lift}
use sth_boring.Json
use sth_boring.Json.{Fields, Value, Number, no_fields}
use sth_boring.Crawler.Enums.{ErrorType, EventStatus, EventStep, step_value}
use sth_boring.Crawler.Models.{CrawlPlan, CrawlRequest, TraceStep, TraceInfo, CrawlResultBundle}
use sth_boring.Crawler.ResultCache.{ResultCache}
use sth_boring.Crawler.Runner.{
  Crawler, Services, Outcome, retry, got, Ending, returned, crawl_failed, no_details, outside,
  reading, put_cache,
}
use sth_boring.Crawler.Policy.{build_plan}
use sth_boring.Crawler.Runner.Stages.{record_step}
use sth_boring.Crawler.Runner.Loop.{put_result}
use sth_boring.Base.{◌≡◌, refl, arith, subst}
use sth_boring.Base.Ensures.{
  Ensures, Keeps, Post, Ensures-bind, Ensures-pure, Ensures-weaken, lift-Keeps,
}
use sth_boring.Crawler.Runner.Loop.{count_fallback, proceed, attempts, run, cache_mode_of}
use sth_boring.Crawler.Runner.Invariant.{Upholds, is_fallback}
use sth_boring.Crawler.Runner.Visit.{visit-Gives, GoodOutcome}
use sth_boring.Crawler.Runner.Recording.{noted, record_step-leaves, fallback-leaves}
use sth_boring.Base.{◌≤◌, ap, ◌∙◌, ◌++◌}

-- How many entries of a trace are fallbacks.
unfoldable pub falls : List TraceStep → ℕ
falls [] = 0
falls (step ∷ steps) =
    let rest = falls steps in if step.step_name == "fallback" then suc rest else rest

falls-other :
    (steps : List TraceStep) (entry : TraceStep)
    → (entry.step_name == "fallback") ≡ false
    → falls (steps ++ entry ∷ []) ≡ falls steps
unfolding falls
falls-other [] entry h = ground arith
falls-other (step ∷ steps) entry h = ground (arith, falls-other steps entry h)

falls-one :
    (steps : List TraceStep) (entry : TraceStep)
    → (entry.step_name == "fallback") ≡ true
    → falls (steps ++ entry ∷ []) ≡ suc (falls steps)
unfolding falls
falls-one [] entry h = ground arith
falls-one (step ∷ steps) entry h = ground (arith, falls-one steps entry h)

step_value-other :
    (step : EventStep) → is_fallback step ≡ false → (step_value step == "fallback") ≡ false
step_value-other EventStep.policy h = refl
step_value-other EventStep.cache h = refl
step_value-other EventStep.session h = refl
step_value-other EventStep.fetch h = refl
step_value-other EventStep.extract h = refl
step_value-other EventStep.clean h = refl
step_value-other EventStep.assess h = refl
step_value-other EventStep.render h = refl
step_value-other EventStep.emit h = refl
step_value-other EventStep.fallback h = absurd cc

-- The trace has `k` fallbacks, and the counter is not above that.
abbrev Counts : {W : Type 0} → ℕ → Crawler W → Type 0
Counts k s = (falls s.trace.steps ≡ k) × (s.trace.fallback_count ≤ k)

-- The counter is not above the fallbacks of the trace, nor these above `m`.
abbrev pub Within : {W : Type 0} → ℕ → Crawler W → Type 0
Within m s = (s.trace.fallback_count ≤ falls s.trace.steps) × (falls s.trace.steps ≤ m)

abbrev Counted : {W : Type 0} → ℕ → Ending → Crawler W → Type 0
Counted m (returned b) s = Within m s
Counted m (crawl_failed error_type trace) s = Within m s × (falls trace.steps ≡ m)

noted-Counts :
    {W : Type 0} (k : ℕ) (s : Crawler W) (entry : TraceStep) (w : W) (step : EventStep)
    → is_fallback step ≡ false
    → entry.step_name ≡ step_value step
    → Counts k s
    → Counts k (noted entry w s)
noted-Counts k s entry w step h e (c, le) = (
  falls-other s.trace.steps entry (ap (λ x. x == "fallback") e ∙ step_value-other step h) ∙ c,
  le,
)

fallback-Counts :
    {W : Type 0} (k : ℕ) (s : Crawler W) (entry : TraceStep) (w : W) (same : Bool)
    → entry.step_name ≡ "fallback"
    → Counts k s
    → Counts (suc k) (noted entry w (record s { trace = count_fallback same s.trace }))
fallback-Counts k s entry w true e (c, le) =
    (falls-one s.trace.steps entry (ap (λ x. x == "fallback") e) ∙ ap suc c, omega arith)
fallback-Counts k s entry w false e (c, le) =
    (falls-one s.trace.steps entry (ap (λ x. x == "fallback") e) ∙ ap suc c, omega arith)

module _ {W : Type 0} (services : Services W) (request : CrawlRequest) where
  outside-Counts : {A : Type 0} (k : ℕ) (m : Action W A) → Keeps (Counts k) (Counts k) (outside m)
  unfolding outside
  outside-Counts k m = record { at = λ s h. kept s (m s.outside).0 (m s.outside).1 h }
    where
      kept :
          {A : Type 0} (s : Crawler W) (r : Result A) (w : W)
          → Counts k s
          → Post (Counts k) (λ _. Counts k) r (record s { outside = w })
      kept s (ok a) w h = h
      kept s (raise e) w h = h

  put_result-Counts :
      (k : ℕ) (plan : CrawlPlan) (key : String) (b : CrawlResultBundle)
      → Keeps (Counts k) (Counts k) (put_result services request plan key b)
  unfolding put_result ◌>>=◌ reading
  put_result-Counts k plan key b = record { at = λ s h. stored s h _ }
    where
      stored :
          (s : Crawler W) (h : Counts k s) (r : Result ResultCache)
          → Post
              (Counts k)
              (λ _. Counts k)
              ((lift r >>= put_cache) (record s { outside = (services.time s.outside).1 })).0
              ((lift r >>= put_cache) (record s { outside = (services.time s.outside).1 })).1
      stored s h (raise x) = h
      stored s h (ok cache) = h

  laws : (k : ℕ) → Upholds services request (Counts k) (Counts k) (λ _. Unit)
  laws k = record {
    weaker = λ s h. h;
    apart = λ s w sessions h. h;
    recording = λ plan attempt step status message details h.
        record_step-leaves services request (Counts k) (Counts k) plan attempt step status message
          details (λ s entry w e c. noted-Counts k s entry w step h e c);
    parsing = lift-Keeps _ (λ s h. h);
    scoring = λ doc. outside-Counts k (services.score doc);
    checking = λ doc query. outside-Counts k (services.check doc query);
    rendering = λ doc mode. outside-Counts k (services.render doc mode);
    persisting = λ b. outside-Counts k (services.persist b);
    looking = λ s now key h. (h, λ b e. tt);
    writing = λ key b g. record { at = λ s h. h };
    storing = λ plan key b g. put_result-Counts k plan key b;
    good = λ b h1 h2. tt;
    same = λ b trace rendered artifacts g. tt;
  }

  proceed-Counted :
      (rest : CrawlPlan → ErrorType → Action (Crawler W) Ending) (k m : ℕ) (plan : CrawlPlan)
      (attempt : ℕ) (outcome : Outcome CrawlResultBundle)
      → suc k ≤ m
      → ((plan : CrawlPlan) (last : ErrorType)
          → Ensures (Counts (suc k)) (Within m) (rest plan last) (Counted m))
      → Ensures
          (λ s. Counts k s × GoodOutcome (laws k) outcome)
          (Within m)
          (proceed services request rest plan attempt outcome)
          (Counted m)
  unfolding proceed
  proceed-Counted rest k m plan attempt (got b) le h =
      Ensures-pure _ (λ s (c, _). (omega arith, omega arith))
  proceed-Counted rest k m plan attempt (retry error_type reason) le h =
      Ensures-bind _ _
        (Ensures-weaken (Counts (suc k)) _ (λ s (e, c). (omega arith, omega arith))
          (fallback-leaves services request _ (Counts (suc k)) plan attempt reason
            (λ s entry w same e p. fallback-Counts k s entry w same e p.0)))
        (λ plan'. h plan' error_type)

  attempts-Counted :
      (left attempt k m : ℕ) (mode : String) (plan : CrawlPlan) (last : ErrorType)
      → k + left ≡ m
      → Ensures
          (Counts k)
          (Within m)
          (attempts services request left attempt mode plan last)
          (Counted m)
  unfolding attempts ◌>>=◌
  attempts-Counted zero attempt k m mode plan last e = record {
    at = λ s (c, le). ((omega arith, omega arith), c ∙ omega arith);
  }
  attempts-Counted (suc left) attempt k m mode plan last e =
      Ensures-bind _ _
        (Ensures-weaken (Counts k) _ (λ s (c, le). (omega arith, omega arith))
          (visit-Gives (laws k) plan attempt mode))
        (λ outcome. proceed-Counted _ k m plan attempt outcome (omega arith) (λ plan' last'.
          attempts-Counted left (attempt + 1) (suc k) m mode plan' last' (omega arith)))

  run-Counted :
      Ensures
        (λ s. Unit {0})
        (Within (at_least_one request.max_attempts))
        (run services request)
        (Counted (at_least_one request.max_attempts))
  unfolding run ◌>>=◌ reading falls
  run-Counted = record { at = λ s _. started.at _ (refl, omega arith) }
    where
      m : ℕ
      m = at_least_one request.max_attempts

      plan_for : String → CrawlPlan
      plan_for host = build_plan services.domain_registry request (services.lower host)

      planned :
          (plan : CrawlPlan)
          → Ensures
              (Counts 0)
              (Within m)
              (do
                record_step services request plan 0 EventStep.policy EventStatus.ok "plan built"
                    no_details
                attempts services request m 1
                    (cache_mode_of services request (Json.get "cache_mode" request.options))
                    plan
                    ErrorType.max_attempts_exceeded)
              (Counted m)
      planned plan =
          Ensures-bind _ _
            (Ensures-weaken (Counts 0) _ (λ s (c, le). (omega arith, omega arith))
              ((laws 0).recording plan 0 _ _ _ _ refl))
            (λ _. attempts-Counted m 1 0 m _ plan _ (omega arith))

      started :
          Ensures
            (Counts 0)
            (Within m)
            (do
              host ← lift (services.netloc request.url)
              record_step services request
                  (plan_for host)
                  0
                  EventStep.policy
                  EventStatus.ok
                  "plan built"
                  no_details
              attempts services request m 1
                  (cache_mode_of services request (Json.get "cache_mode" request.options))
                  (plan_for host)
                  ErrorType.max_attempts_exceeded)
            (Counted m)
      started =
          Ensures-bind _ _
            (Ensures-weaken (Counts 0) _ (λ s (c, le). (omega arith, omega arith)) (laws 0).parsing)
            (λ host. planned (plan_for host))

module _ {W : Type 0} (services : Services W) (request : CrawlRequest) (s : Crawler W) where
  -- However a run ends, its counter of fallbacks is not above the fallbacks in its trace, and these
  -- are not above the number of attempts.
  pub run-Within : Within (at_least_one request.max_attempts) (run services request s).1
  run-Within = kept _ _ ((run-Counted services request).at s tt)
    where
      m : ℕ
      m = at_least_one request.max_attempts

      kept : (r : Result Ending) (s' : Crawler W) → Post (Within m) (Counted m) r s' → Within m s'
      kept (ok (returned b)) s' p = p
      kept (ok (crawl_failed error_type trace)) s' p = p.0
      kept (raise e) s' p = p

  -- A run ends with CrawlFailedError only after it has made all its attempts, and then the trace of
  -- the error has one fallback for each of them.
  pub run-tries_all :
      (error_type : ErrorType) (trace : TraceInfo)
      → (run services request s).0 ≡ ok (crawl_failed error_type trace)
      → falls trace.steps ≡ at_least_one request.max_attempts
  run-tries_all error_type trace e =
      let (_, all) =
        subst
          (λ r.
            Post (Within (at_least_one request.max_attempts))
              (Counted (at_least_one request.max_attempts)) r (run services request s).1)
          e ((run-Counted services request).at s tt) in
      all
