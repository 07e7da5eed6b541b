-- ===== src/Crawler/Runner/Loop.antt =====
-- src/AgentCrawler/src/agent_crawler/loop/runner.py: an attempt from the cache to the bundle, the
-- fallback after a failure, and the loop of `run`.
use sth_boring.Base.{
  ℕ, zero, suc, String, [], Option, none, some, Bool, true, false, not, ◌&&◌, ok, if◌then◌else◌,
  ◌==◌, ◌<>◌, is_none, ◌+◌, join,
}
use sth_boring.Base.Steps.{Action, pure, ◌>>=◌, ◌>>◌, lift}
use sth_boring.Base.Int.{at_least_one, ℤ, pos, int_lt, int_text}
use sth_boring.Json
use sth_boring.Json.{Fields, Value, Number, no_fields}
use sth_boring.Crawler.Enums.{
  ExtractKind, ErrorType, EventStatus, EventStep, same_transport, same_kind,
}
use sth_boring.Crawler.Models.{
  Document, CrawlPlan, CrawlRequest, FetchedPayload, QualityScore, RelevanceResult, TraceInfo,
  CrawlResultBundle,
}
use sth_boring.Crawler.Policy.{build_plan, update_plan_on_failure}
use sth_boring.Crawler.ResultCache
use sth_boring.Crawler.ResultCache.{ResultCache, make_key}
use sth_boring.Crawler.Runner.{
  Crawler, Services, Outcome, retry, got, Ending, returned, crawl_failed, no_details, outside,
  reading, get_state, put_trace, put_cache,
}
use sth_boring.Crawler.Runner.Stages.{
  record_step, open_session, failed, fetch_page, extract_page, assess, gate, render_page,
}

-- The bundle of a cache hit that the mode lets the run use.
abbrev pub usable : String → Option CrawlResultBundle → Option CrawlResultBundle
usable cache_mode none = none
usable cache_mode (some cached) = if cache_mode == "refresh" then none else some cached

-- `relevance and not relevance.relevant`
abbrev pub rejection : Option RelevanceResult → Option String
rejection none = none
rejection (some relevance) = if relevance.relevant then none else some relevance.reason

-- `next_plan == plan`, of a plan and one made from it by `replace` of how it fetches and extracts
abbrev pub same_plan : CrawlPlan → CrawlPlan → Bool
same_plan a b = same_transport a.transport b.transport && same_kind a.extract_kind b.extract_kind

-- The plan that `_fallback` returns.
unfoldable pub next_plan : CrawlPlan → CrawlPlan
next_plan plan =
    let updated = update_plan_on_failure plan in
    if same_plan updated plan
    then record plan { extract_kind = ExtractKind.intelligent }
    else updated

-- `if next_plan != plan: trace.fallback_count += 1`
abbrev pub count_fallback : Bool → TraceInfo → TraceInfo
count_fallback true trace = trace
count_fallback false trace = record trace { fallback_count = trace.fallback_count + 1 }

module _ {W A B : Type 0} where
  -- `continue` after a failure
  abbrev pub if_got :
      Outcome A → (A → Action (Crawler W) (Outcome B)) → Action (Crawler W) (Outcome B)
  if_got (retry error_type reason) f = pure (retry error_type reason)
  if_got (got a) f = f a

module _ {W : Type 0} where
  -- A write to the object that the cache holds too.
  abbrev pub write_bundle : String → CrawlResultBundle → Action (Crawler W) (Unit {0})
  write_bundle key bundle s =
      (ok tt, record s { cache = ResultCache.write_through key bundle s.cache })

module _ {W : Type 0} (services : Services W) (request : CrawlRequest) where
  unfoldable pub report_cache :
      CrawlPlan → ℕ → Option CrawlResultBundle → Action (Crawler W) (Option CrawlResultBundle)
  report_cache plan attempt (some cached) = do
    record_step services request plan attempt EventStep.cache EventStatus.ok "result cache hit"
        no_details
    pure (some cached)
  report_cache plan attempt none = do
    record_step services request plan attempt EventStep.cache EventStatus.skipped
        "result cache miss" no_details
    pure none

  unfoldable pub look_up :
      CrawlPlan → ℕ → String → String → Action (Crawler W) (Option CrawlResultBundle)
  look_up plan attempt cache_mode cache_key = do
    now ← reading services.time
    s ← get_state
    let (found, cache) = ResultCache.get now cache_key s.cache
    put_cache cache
    report_cache plan attempt (usable cache_mode found)

  -- The cached bundle is handed out with the trace of this run, and rendered if need be.
  unfoldable pub serve : String → CrawlResultBundle → Action (Crawler W) CrawlResultBundle
  serve key bundle = do
    s ← get_state
    let cached : CrawlResultBundle = record bundle { trace = some s.trace.run_id }
    write_bundle key cached
    if request.render && is_none cached.rendered
        then (do
          rendered ← outside (services.render cached.doc_clean request.render_mode)
          let shown : CrawlResultBundle = record cached { rendered = some rendered }
          write_bundle key shown
          pure shown)
        else pure cached

  unfoldable pub put_result : CrawlPlan → String → CrawlResultBundle → Action (Crawler W) (Unit {0})
  put_result plan cache_key bundle = do
    now ← reading services.time
    s ← get_state
    cache ← lift (ResultCache.put now cache_key bundle (some plan.result_cache_ttl_s) s.cache)
    put_cache cache

  unfoldable pub persist_bundle : CrawlResultBundle → Action (Crawler W) CrawlResultBundle
  persist_bundle bundle =
      if request.persist_artifacts
      then (do
        artifacts ← outside (services.persist bundle)
        pure (record bundle { artifacts = some artifacts }))
      else pure bundle

  -- From the rendering to `return bundle`.
  unfoldable pub deliver :
      CrawlPlan
      → ℕ
      → String
      → FetchedPayload
      → Document
      → QualityScore
      → Option RelevanceResult
      → Action (Crawler W) CrawlResultBundle
  deliver plan attempt cache_key fetched doc quality relevance = do
    rendered ← render_page services request plan attempt fetched doc
    s ← get_state
    bundle ← persist_bundle (record {
      request = request;
      plan = plan;
      fetched = fetched.meta;
      raw_html = fetched.html;
      doc_clean = doc;
      quality = quality;
      relevance = relevance;
      rendered = rendered;
      trace = some s.trace.run_id;
      artifacts = none;
    })
    if plan.use_result_cache then put_result plan cache_key bundle else pure tt
    record_step services request plan attempt EventStep.emit EventStatus.ok "run complete"
        (record no_details { final_url = some fetched.meta.final_url })
    pure bundle

  -- From the relevance of the document, with the reason of a rejection.
  unfoldable pub settle :
      CrawlPlan
      → ℕ
      → String
      → FetchedPayload
      → Document
      → QualityScore
      → Option RelevanceResult
      → Option String
      → Action (Crawler W) (Outcome CrawlResultBundle)
  settle plan attempt cache_key fetched doc quality relevance (some reason) =
      pure (retry ErrorType.relevance_rejected reason)
  settle plan attempt cache_key fetched doc quality relevance none = do
    bundle ← deliver plan attempt cache_key fetched doc quality relevance
    pure (got bundle)

  -- From the extracted document: its quality and its relevance.
  unfoldable pub judge :
      CrawlPlan
      → ℕ
      → String
      → FetchedPayload
      → Document
      → Action (Crawler W) (Outcome CrawlResultBundle)
  judge plan attempt cache_key fetched doc = do
    quality ← assess services request plan attempt fetched doc
    if not quality.is_ok
        then pure (retry ErrorType.quality_too_low (join "," quality.reasons))
        else (do
          relevance ← gate services request plan doc
          settle plan attempt cache_key fetched doc quality relevance (rejection relevance))

  bad_status : ℤ → String
  bad_status status_code = "bad status " <> int_text status_code

  -- From the response: its status, and the document.
  unfoldable pub read_page :
      CrawlPlan → ℕ → String → FetchedPayload → Action (Crawler W) (Outcome CrawlResultBundle)
  unfolding bad_status
  read_page plan attempt cache_key fetched =
      if not (int_lt fetched.meta.status_code (pos 400))
      then failed services request plan attempt EventStep.fetch ErrorType.fetch_error
          (bad_status fetched.meta.status_code)
      else (do
        doc ← extract_page services request plan attempt fetched
        if_got doc (judge plan attempt cache_key fetched))

  -- The body of the loop without the cache.
  unfoldable pub crawl_page :
      CrawlPlan → ℕ → String → Action (Crawler W) (Outcome CrawlResultBundle)
  crawl_page plan attempt cache_key = do
    session ← open_session services request plan
    record_step services request plan attempt EventStep.session EventStatus.ok "session ready"
        no_details
    fetched ← fetch_page services request plan attempt session
    if_got fetched (read_page plan attempt cache_key)

  unfoldable pub after_cache :
      CrawlPlan
      → ℕ
      → String
      → Option CrawlResultBundle
      → Action (Crawler W) (Outcome CrawlResultBundle)
  after_cache plan attempt cache_key (some cached) = do
    shown ← serve cache_key cached
    pure (got shown)
  after_cache plan attempt cache_key none = crawl_page plan attempt cache_key

  -- The body of the loop.
  unfoldable pub visit : CrawlPlan → ℕ → String → Action (Crawler W) (Outcome CrawlResultBundle)
  visit plan attempt cache_mode = do
    cached ←
        if plan.use_result_cache && not (cache_mode == "bypass")
        then look_up plan attempt cache_mode (make_key request plan)
        else pure none
    after_cache plan attempt (make_key request plan) cached

  -- `_fallback`
  unfoldable pub fallback : CrawlPlan → ℕ → String → Action (Crawler W) CrawlPlan
  unfolding next_plan
  fallback plan attempt reason = do
    s ← get_state
    put_trace (count_fallback (same_plan (next_plan plan) plan) s.trace)
    record_step services request (next_plan plan) attempt EventStep.fallback EventStatus.warning
        reason (record no_details { fallback_reason = some reason })
    pure (next_plan plan)

  -- `return`, or the fallback and `continue` with the rest of the loop
  unfoldable pub proceed :
      (CrawlPlan → ErrorType → Action (Crawler W) Ending)
      → CrawlPlan
      → ℕ
      → Outcome CrawlResultBundle
      → Action (Crawler W) Ending
  proceed rest plan attempt (got bundle) = pure (returned bundle)
  proceed rest plan attempt (retry error_type reason) = do
    plan' ← fallback plan attempt reason
    rest plan' error_type

  -- The rest of the loop: `left` attempts, the next of which is number `attempt`.
  unfoldable pub attempts :
      (left attempt : ℕ) → String → CrawlPlan → ErrorType → Action (Crawler W) Ending
  attempts zero attempt cache_mode plan last_error_type = do
    s ← get_state
    pure (crawl_failed last_error_type s.trace)
  attempts (suc left) attempt cache_mode plan last_error_type = do
    outcome ← visit plan attempt cache_mode
    proceed (attempts left (attempt + 1) cache_mode) plan attempt outcome

  abbrev pub cache_mode_of : Option Value → String
  cache_mode_of none = "prefer"
  cache_mode_of (some (Value.str mode)) = mode
  cache_mode_of (some v) = services.str_of v

  unfoldable pub run : Action (Crawler W) Ending
  run = do
    run_id ← reading services.uuid4_hex
    started_at ← reading services.utcnow
    put_trace (record { run_id = run_id; started_at = started_at; fallback_count = 0; steps = [] })
    host ← lift (services.netloc request.url)
    let plan = build_plan services.domain_registry request (services.lower host)
    record_step services request plan 0 EventStep.policy EventStatus.ok "plan built" no_details
    attempts (at_least_one request.max_attempts) 1
        (cache_mode_of (Json.get "cache_mode" request.options)) plan ErrorType.max_attempts_exceeded
