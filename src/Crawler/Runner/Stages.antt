-- ===== src/Crawler/Runner/Stages.antt =====
-- src/AgentCrawler/src/agent_crawler/loop/runner.py: what one attempt does, stage by stage.
use sth_boring.Base.{
  ℕ, String, [], ◌∷◌, Option, none, some, ◌&&◌, if◌then◌else◌, ◌==◌, or_text, or_default, length,
  join,
}
use sth_boring.Base.Steps.{Action, pure, catch, ◌>>=◌, ◌>>◌, lift}
use sth_boring.Json.{no_fields}
use sth_boring.Crawler.Enums.{
  ExtractKind, ErrorType, EventStatus, EventStep, transport_value, extract_value, step_value,
  status_value,
}
use sth_boring.Crawler.Models.{
  Document, CrawlPlan, CrawlRequest, FetchedPayload, QualityScore, RelevanceResult, TraceStep,
  CrawlEvent, add_step, is_given,
}
use sth_boring.Crawler.SessionStore
use sth_boring.Crawler.SessionStore.{SessionStore, CrawlSession}
use sth_boring.Crawler.Adapters
use sth_boring.Crawler.Adapters.{SiteAdapter, SiteAdapterRegistry}
use sth_boring.Crawler.Runner.{
  Crawler, Services, Outcome, retry, got, Details, no_details, outside, reading, get_state,
  put_trace, put_sessions, handle,
}

module _ {W : Type 0} (services : Services W) (request : CrawlRequest) where
  -- The entry of the trace and the event that `_record` makes.
  abbrev pub trace_step : CrawlPlan → ℕ → EventStep → EventStatus → String → Details → TraceStep
  trace_step plan attempt step status message details = record {
    attempt = attempt;
    step_name = step_value step;
    status = status_value status;
    reason = message;
    error_type = details.error_type;
    meta =
        ("plan_transport", transport_value plan.transport)
        ∷ ("plan_extract_kind", extract_value plan.extract_kind)
        ∷ [];
  }

  abbrev pub crawl_event :
      CrawlPlan
      → ℕ
      → EventStep
      → EventStatus
      → String
      → Details
      → String
      → String
      → String
      → CrawlEvent
  crawl_event plan attempt step status message details run_id host created_at = record {
    run_id = run_id;
    attempt = attempt;
    step_name = step;
    status = status;
    url = request.url;
    final_url = details.final_url;
    domain = some (services.lower host);
    transport = plan.transport;
    extractor = plan.extract_kind;
    adapter = plan.adapter_name;
    status_code = details.status_code;
    elapsed_ms = details.elapsed_ms;
    retries = 0;
    quality_score = details.quality_score;
    chunk_count = details.chunk_count;
    fallback_reason = details.fallback_reason;
    error_type = details.error_type;
    message = message;
    meta = no_fields;
    created_at = created_at;
  }

  -- `_record`
  unfoldable pub record_step :
      CrawlPlan → ℕ → EventStep → EventStatus → String → Details → Action (Crawler W) (Unit {0})
  record_step plan attempt step status message details = do
    s ← get_state
    put_trace (add_step (trace_step plan attempt step status message details) s.trace)
    host ← lift (services.netloc request.url)
    t ← reading services.utcnow
    outside
        (services.emit (crawl_event plan attempt step status message details s.trace.run_id host t))

  -- `self.session_store.get(...)`
  unfoldable pub open_session : CrawlPlan → Action (Crawler W) CrawlSession
  open_session plan = do
    host ← lift (services.netloc request.url)
    now ← reading services.time
    created ← reading services.time
    touched ← reading services.time
    s ← get_state
    let (session, sessions) =
        SessionStore.get now created touched
          (record {
            domain = or_text (some (services.lower host)) (services.lower request.url);
            auth_profile_id = request.auth_profile_id;
            transport = plan.transport;
          })
          s.sessions
    put_sessions sessions
    pure session

  -- An attempt that an exception ends: it is recorded, and its text is the reason.
  unfoldable pub failed :
      {A : Type 0} → CrawlPlan → ℕ → EventStep → ErrorType → String → Action (Crawler W) (Outcome A)
  failed plan attempt step error_type reason = do
    record_step plan attempt step EventStatus.error reason
        (record no_details { error_type = some error_type })
    pure (retry error_type reason)

  -- The call of the fetcher: once more without the options after a TypeError.
  unfoldable pub call_fetcher : CrawlPlan → CrawlSession → Action (Crawler W) FetchedPayload
  call_fetcher plan session =
      catch (outside (services.fetch request.url plan session (some request.options)))
        (handle "TypeError" (outside (services.fetch request.url plan session none)))

  -- The statements of the first `try`.
  unfoldable pub try_fetch :
      CrawlPlan → ℕ → CrawlSession → Action (Crawler W) (Outcome FetchedPayload)
  try_fetch plan attempt session = do
    fetched ← call_fetcher plan session
    record_step plan attempt EventStep.fetch EventStatus.ok "fetch complete" (record no_details {
      final_url = some fetched.meta.final_url;
      status_code = some fetched.meta.status_code;
      elapsed_ms = some fetched.meta.elapsed_ms;
    })
    pure (got fetched)

  unfoldable pub fetch_page :
      CrawlPlan → ℕ → CrawlSession → Action (Crawler W) (Outcome FetchedPayload)
  fetch_page plan attempt session = catch (try_fetch plan attempt session) (λ exc.
      failed plan attempt EventStep.fetch
        (if exc.class_name == "NotImplementedError"
          then ErrorType.unsupported_transport
          else ErrorType.fetch_error)
        exc.message)

  -- `self.universal_extractor` if there is no adapter
  unfoldable pub extract_by : Option (SiteAdapter W) → String → Action (Crawler W) Document
  extract_by none html = outside (services.universal_extract html request.url)
  extract_by (some adapter) html = outside (adapter.extract html request.url)

  -- `_extract`, by the kind of the plan
  unfoldable pub extract : ExtractKind → Option String → String → Action (Crawler W) Document
  extract ExtractKind.universal adapter_name html =
      outside (services.universal_extract html request.url)
  extract ExtractKind.adapter adapter_name html =
      extract_by (Adapters.resolve request.url adapter_name services.adapter_registry) html
  extract ExtractKind.intelligent adapter_name html =
      outside (services.intelligent_extract html request.url request.query)

  -- The statements of the second `try`.
  unfoldable pub try_extract :
      CrawlPlan → ℕ → FetchedPayload → Action (Crawler W) (Outcome Document)
  try_extract plan attempt fetched = do
    doc ← extract plan.extract_kind plan.adapter_name (or_default "" fetched.html)
    record_step plan attempt EventStep.extract EventStatus.ok "extract complete"
        (record no_details { final_url = some fetched.meta.final_url })
    chunked ← outside (services.chunk doc)
    chunks ← outside (services.rank chunked.chunks request.query)
    record_step plan attempt EventStep.clean EventStatus.ok "clean and rerank complete"
        (record no_details {
          final_url = some fetched.meta.final_url;
          chunk_count = some (length chunks);
        })
    pure (got (record chunked { chunks = chunks }))

  unfoldable pub extract_page :
      CrawlPlan → ℕ → FetchedPayload → Action (Crawler W) (Outcome Document)
  extract_page plan attempt fetched = catch (try_extract plan attempt fetched) (λ exc.
      failed plan attempt EventStep.extract
        (if exc.class_name == "NotImplementedError"
          then ErrorType.unsupported_extractor
          else ErrorType.extract_error)
        exc.message)

  -- `self.quality_assessor.score(doc)`, and its record
  unfoldable pub assess :
      CrawlPlan → ℕ → FetchedPayload → Document → Action (Crawler W) QualityScore
  assess plan attempt fetched doc = do
    quality ← outside (services.score doc)
    record_step plan attempt EventStep.assess
        (if quality.is_ok then EventStatus.ok else EventStatus.warning)
        (or_text (some (join "," quality.reasons)) "quality ok")
        (record no_details {
          final_url = some fetched.meta.final_url;
          quality_score = some quality.score;
          chunk_count = some (length doc.chunks);
        })
    pure quality

  -- `None`, unless the plan asks for the gate and the request has a query
  unfoldable pub gate : CrawlPlan → Document → Action (Crawler W) (Option RelevanceResult)
  unfolding is_given
  gate plan doc =
      if plan.allow_llm_gate && is_given request.query
      then outside (services.check doc request.query)
      else pure none

  unfoldable pub render_page :
      CrawlPlan → ℕ → FetchedPayload → Document → Action (Crawler W) (Option String)
  render_page plan attempt fetched doc =
      if request.render
      then (do
        rendered ← outside (services.render doc request.render_mode)
        record_step plan attempt EventStep.render EventStatus.ok "render complete"
            (record no_details { final_url = some fetched.meta.final_url })
        pure (some rendered))
      else pure none
