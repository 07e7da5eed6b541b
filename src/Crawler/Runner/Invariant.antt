-- ===== src/Crawler/Runner/Invariant.antt =====
-- src/AgentCrawler/src/agent_crawler/loop/runner.py: what the operations must keep, so that an
-- attempt keeps it.
use sth_boring.Base.{ℕ, String, Option, none, some, Bool, true, false, Result, ok, raise, ◌==◌}
use sth_boring.Base.Steps.{Action, lift}
use sth_boring.Base.Int.{pos, int_lt}
use sth_boring.Crawler.Enums.{ExtractKind, RenderMode, ErrorType, EventStatus, EventStep}
use sth_boring.Crawler.Models.{
  Document, CrawlPlan, CrawlRequest, FetchedPayload, ArtifactRefs, CrawlResultBundle,
}
use sth_boring.Crawler.ResultCache
use sth_boring.Crawler.ResultCache.{ResultCache, make_key}
use sth_boring.Crawler.SessionStore.{SessionStore, CrawlSession}
use sth_boring.Crawler.Adapters.{SiteAdapter}
use sth_boring.Crawler.Runner.{Crawler, Services, Details, outside, reading, put_sessions}
use sth_boring.Crawler.Runner.Stages.{
  record_step, open_session, failed, fetch_page, extract_page, assess, gate, render_page,
}
use sth_boring.Crawler.Runner.Loop.{write_bundle, put_result, persist_bundle}
use sth_boring.Crawler.Runner.Stages.{call_fetcher, try_fetch, extract_by, extract, try_extract}
use sth_boring.Base.{◌≡◌, refl}
use sth_boring.Base.Ensures.{
  Ensures, Keeps, Post, Keeps-bind, Keeps-pure, Keeps-get, Ensures-pure, Ensures-if, Ensures-catch,
  Ensures-throw, Ensures-weaken,
}

abbrev pub is_fallback : EventStep → Bool
is_fallback EventStep.fallback = true
is_fallback _ = false

-- `I` holds between the operations, `E` after an exception that leaves the attempt, and `G` of the
-- bundles in the cache.
pub record Upholds {W : Type 0} (services : Services W) (request : CrawlRequest)
    (I E : Crawler W → Type 0) (G : CrawlResultBundle → Type 0) : Type 0 where
  pub weaker : (s : Crawler W) → E s → I s
  pub apart :
      (s : Crawler W) (w : W) (sessions : SessionStore)
      → I s
      → I (record s { outside = w; sessions = sessions })
  pub recording :
      (plan : CrawlPlan) (attempt : ℕ) (step : EventStep) (status : EventStatus) (message : String)
      (details : Details)
      → is_fallback step ≡ false
      → Keeps I E (record_step services request plan attempt step status message details)
  pub parsing : Keeps I E (lift {W = Crawler W} (services.netloc request.url))
  pub scoring : (doc : Document) → Keeps I E (outside (services.score doc))
  pub checking :
      (doc : Document) (query : Option String) → Keeps I E (outside (services.check doc query))
  pub rendering :
      (doc : Document) (mode : RenderMode) → Keeps I E (outside (services.render doc mode))
  pub persisting : (bundle : CrawlResultBundle) → Keeps I E (outside (services.persist bundle))
  pub looking :
      (s : Crawler W) (now : ℕ) (key : String)
      → I s
      → I (record s { cache = (ResultCache.get now key s.cache).1 })
        × ((b : CrawlResultBundle) → (ResultCache.get now key s.cache).0 ≡ some b → G b)
  pub writing :
      (key : String) (bundle : CrawlResultBundle) → G bundle → Keeps I E (write_bundle key bundle)
  pub storing :
      (plan : CrawlPlan) (key : String) (bundle : CrawlResultBundle)
      → G bundle
      → Keeps I E (put_result services request plan key bundle)
  pub good :
      (b : CrawlResultBundle)
      → b.quality.is_ok ≡ true
      → int_lt b.fetched.status_code (pos 400) ≡ true
      → G b
  pub same :
      (b : CrawlResultBundle) (trace rendered : Option String) (artifacts : Option ArtifactRefs)
      → G b
      → G (record b { trace = trace; rendered = rendered; artifacts = artifacts })

module _ {W : Type 0} {services : Services W} {request : CrawlRequest} {I E : Crawler W → Type 0}
    {G : CrawlResultBundle → Type 0} (laws : Upholds services request I E G) where
  pub outside-Keeps : {A : Type 0} (m : Action W A) → Keeps I I (outside m)
  unfolding outside
  outside-Keeps m = record { at = λ s p. kept s (m s.outside).0 (m s.outside).1 p }
    where
      kept :
          {A : Type 0} (s : Crawler W) (r : Result A) (w : W)
          → I s
          → Post I (λ _. I) r (record s { outside = w })
      kept s (ok a) w p = laws.apart s w s.sessions p
      kept s (raise e) w p = laws.apart s w s.sessions p

  pub reading-Keeps : {A : Type 0} (r : W → A × W) → Keeps I E (reading r)
  unfolding reading
  reading-Keeps r = record { at = λ s p. laws.apart s (r s.outside).1 s.sessions p }

  pub put_sessions-Keeps : (sessions : SessionStore) → Keeps I E (put_sessions sessions)
  put_sessions-Keeps sessions = record { at = λ s p. laws.apart s s.outside sessions p }

  pub inner : {A : Type 0} (m : Action (Crawler W) A) → Keeps I E m → Keeps I I m
  inner m h = Ensures-weaken E m laws.weaker h

  ruleset stage_rules = (Keeps-bind, Keeps-pure, Keeps-get, reading-Keeps, put_sessions-Keeps)

  pub open_session-Keeps : (plan : CrawlPlan) → Keeps I E (open_session services request plan)
  unfolding open_session
  open_session-Keeps plan = Keeps-bind _ _ laws.parsing (λ host. search stage_rules depth 14)

  pub failed-Keeps :
      {A : Type 0} (plan : CrawlPlan) (attempt : ℕ) (step : EventStep) (error_type : ErrorType)
      (reason : String)
      → is_fallback step ≡ false
      → Keeps I E (failed services request {A = A} plan attempt step error_type reason)
  unfolding failed
  failed-Keeps plan attempt step error_type reason h =
      Keeps-bind _ _ (laws.recording plan attempt step _ reason _ h) (λ _. Keeps-pure _)

  pub call_fetcher-Keeps :
      (plan : CrawlPlan) (session : CrawlSession)
      → Keeps I I (call_fetcher services request plan session)
  unfolding call_fetcher
  call_fetcher-Keeps plan session = Ensures-catch I _ _ (outside-Keeps _) (λ exc.
      Ensures-if (exc.class_name == "TypeError") _ _ (λ _. outside-Keeps _)
        (λ _. Ensures-throw exc))

  pub try_fetch-Keeps :
      (plan : CrawlPlan) (attempt : ℕ) (session : CrawlSession)
      → Keeps I I (try_fetch services request plan attempt session)
  unfolding try_fetch
  try_fetch-Keeps plan attempt session =
      Keeps-bind _ _ (call_fetcher-Keeps plan session) (λ fetched.
        Keeps-bind _ _ (inner _ (laws.recording plan attempt _ _ _ _ refl)) (λ _. Keeps-pure _))

  pub fetch_page-Keeps :
      (plan : CrawlPlan) (attempt : ℕ) (session : CrawlSession)
      → Keeps I E (fetch_page services request plan attempt session)
  unfolding fetch_page
  fetch_page-Keeps plan attempt session =
      Ensures-catch I _ _ (try_fetch-Keeps plan attempt session)
        (λ exc. failed-Keeps plan attempt _ _ exc.message refl)

  pub extract_by-Keeps :
      (adapter : Option (SiteAdapter W)) (html : String)
      → Keeps I I (extract_by services request adapter html)
  unfolding extract_by
  extract_by-Keeps none html = outside-Keeps _
  extract_by-Keeps (some adapter) html = outside-Keeps _

  pub extract-Keeps :
      (kind : ExtractKind) (adapter_name : Option String) (html : String)
      → Keeps I I (extract services request kind adapter_name html)
  unfolding extract
  extract-Keeps ExtractKind.universal adapter_name html = outside-Keeps _
  extract-Keeps ExtractKind.adapter adapter_name html = extract_by-Keeps _ html
  extract-Keeps ExtractKind.intelligent adapter_name html = outside-Keeps _

  pub try_extract-Keeps :
      (plan : CrawlPlan) (attempt : ℕ) (fetched : FetchedPayload)
      → Keeps I I (try_extract services request plan attempt fetched)
  unfolding try_extract
  try_extract-Keeps plan attempt fetched =
      Keeps-bind _ _ (extract-Keeps plan.extract_kind plan.adapter_name _) (λ doc.
        Keeps-bind _ _ (inner _ (laws.recording plan attempt _ _ _ _ refl)) (λ _.
          Keeps-bind _ _ (outside-Keeps _) (λ chunked. Keeps-bind _ _ (outside-Keeps _) (λ chunks.
            Keeps-bind _ _ (inner _ (laws.recording plan attempt _ _ _ _ refl))
              (λ _. Keeps-pure _)))))

  pub extract_page-Keeps :
      (plan : CrawlPlan) (attempt : ℕ) (fetched : FetchedPayload)
      → Keeps I E (extract_page services request plan attempt fetched)
  unfolding extract_page
  extract_page-Keeps plan attempt fetched =
      Ensures-catch I _ _ (try_extract-Keeps plan attempt fetched)
        (λ exc. failed-Keeps plan attempt _ _ exc.message refl)

  pub assess-Keeps :
      (plan : CrawlPlan) (attempt : ℕ) (fetched : FetchedPayload) (doc : Document)
      → Keeps I E (assess services request plan attempt fetched doc)
  unfolding assess
  assess-Keeps plan attempt fetched doc = Keeps-bind _ _ (laws.scoring doc) (λ quality.
      Keeps-bind _ _ (laws.recording plan attempt _ _ _ _ refl) (λ _. Keeps-pure quality))

  pub gate-Keeps : (plan : CrawlPlan) (doc : Document) → Keeps I E (gate services request plan doc)
  unfolding gate
  gate-Keeps plan doc =
      Ensures-if _ _ _ (λ _. laws.checking doc request.query) (λ _. Keeps-pure none)

  pub render_page-Keeps :
      (plan : CrawlPlan) (attempt : ℕ) (fetched : FetchedPayload) (doc : Document)
      → Keeps I E (render_page services request plan attempt fetched doc)
  unfolding render_page
  render_page-Keeps plan attempt fetched doc =
      Ensures-if request.render _ _
        (λ _. Keeps-bind _ _ (laws.rendering doc request.render_mode) (λ rendered.
          Keeps-bind _ _ (laws.recording plan attempt _ _ _ _ refl) (λ _. Keeps-pure _)))
        (λ _. Keeps-pure none)

  -- After the code `I` holds, and the value has `Q`.
  abbrev pub Gives : {A : Type 0} → (A → Type 0) → Action (Crawler W) A → Type 0
  Gives Q m = Ensures I E m (λ a s. I s × Q a)

  pub persist_bundle-Gives :
      (b : CrawlResultBundle) → G b → Gives G (persist_bundle services request b)
  unfolding persist_bundle
  persist_bundle-Gives b g =
      Ensures-if request.persist_artifacts _ _
        (λ _. Keeps-bind _ _ (laws.persisting b) (λ artifacts.
          Ensures-pure _ (λ s p. (p, laws.same b b.trace b.rendered (some artifacts) g))))
        (λ _. Ensures-pure b (λ s p. (p, g)))
