-- ===== src/Crawler/Runner/Recording.antt =====
-- src/AgentCrawler/src/agent_crawler/loop/runner.py: what `_record` and `_fallback` leave behind,
-- whether the logger raises or not.
use sth_boring.Base.{ℕ, String, some, Bool, Result, ok, raise}
use sth_boring.Base.Steps.{pure, lift, ◌>>=◌, ◌>>◌}
use sth_boring.Crawler.Enums.{EventStatus, EventStep, step_value}
use sth_boring.Crawler.Models.{CrawlPlan, CrawlRequest, TraceStep, CrawlEvent, add_step}
use sth_boring.Crawler.Runner.{Crawler, Services, Details, no_details, outside, reading}
use sth_boring.Crawler.Runner.Stages.{record_step, trace_step, crawl_event}
use sth_boring.Base.{◌≡◌, refl, subst, sym}
use sth_boring.Base.Ensures.{Ensures, Post, Ensures-bind, Ensures-pure}
use sth_boring.Crawler.Runner.Loop.{next_plan, fallback, count_fallback, same_plan}

-- The state after an entry of the trace, and after anything outside.
abbrev pub noted : {W : Type 0} → TraceStep → W → Crawler W → Crawler W
noted step w s = record s { outside = w; trace = add_step step s.trace }

module _ {W : Type 0} (services : Services W) (request : CrawlRequest) where
  pub record_step-leaves :
      (P Q : Crawler W → Type 0) (plan : CrawlPlan) (attempt : ℕ) (step : EventStep)
      (status : EventStatus) (message : String) (details : Details)
      → ((s : Crawler W) (entry : TraceStep) (w : W)
          → entry.step_name ≡ step_value step
          → P s
          → Q (noted entry w s))
      → Ensures P Q (record_step services request plan attempt step status message details) (λ _. Q)
  unfolding record_step ◌>>=◌ outside reading
  record_step-leaves P Q plan attempt step status message details h = record {
    at = λ s p.
        emitting (record s { trace = add_step (entry details) s.trace })
          (λ w. h s (entry details) w refl p) (services.netloc request.url)
          (crawl_event services request plan attempt step status message details s.trace.run_id);
  }
    where
      entry : Details → TraceStep
      entry = trace_step services request plan attempt step status message

      emitted : (r : Result (Unit {0})) {s : Crawler W} → Q s → Post Q (λ _. Q) r s
      emitted (ok tt) q = q
      emitted (raise e) q = q

      emitting :
          (s : Crawler W)
          → ((w : W) → Q (record s { outside = w }))
          → (r : Result String) (event : String → String → CrawlEvent)
          → Post Q
              (λ _. Q)
              ((do
                host ← lift r
                t ← reading services.utcnow
                outside (services.emit (event host t)))
                s).0
              ((do
                host ← lift r
                t ← reading services.utcnow
                outside (services.emit (event host t)))
                s).1
      emitting s h (raise e) event = h s.outside
      emitting s h (ok host) event = emitted _ (h _)

  pub fallback-leaves :
      (P Q : Crawler W → Type 0) (plan : CrawlPlan) (attempt : ℕ) (reason : String)
      → ((s : Crawler W) (entry : TraceStep) (w : W) (same : Bool)
          → entry.step_name ≡ "fallback"
          → P s
          → Q (noted entry w (record s { trace = count_fallback same s.trace })))
      → Ensures P Q (fallback services request plan attempt reason) (λ _. Q)
  unfolding fallback ◌>>=◌
  fallback-leaves P Q plan attempt reason h = record { at = λ s p. (recorded s p).at _ refl }
    where
      counted : Crawler W → Crawler W
      counted s = record s { trace = count_fallback (same_plan (next_plan plan) plan) s.trace }

      recorded :
          (s : Crawler W)
          → P s
          → Ensures
              (λ s'. s' ≡ counted s)
              Q
              (do
                record_step services request
                    (next_plan plan)
                    attempt
                    EventStep.fallback
                    EventStatus.warning
                    reason
                    (record no_details { fallback_reason = some reason })
                pure (next_plan plan))
              (λ _. Q)
      recorded s p =
          Ensures-bind _ _
            (record_step-leaves _ Q (next_plan plan) attempt EventStep.fallback _ reason _
              (λ s' entry w e eq. subst (λ x. Q (noted entry w x)) (sym eq) (h s entry w _ e p)))
            (λ _. Ensures-pure _ (λ s q. q))
