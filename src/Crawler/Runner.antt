-- ===== src/Crawler/Runner.antt =====
-- src/AgentCrawler/src/agent_crawler/loop/runner.py: the crawl of one page, with fallbacks. The
-- objects that the constructor takes are operations on an outside world, which may raise; the
-- policy engine, the cache and the session store are the modelled ones. An exception is told from
-- others by the name of its class.
pub mod Stages
pub mod Loop
pub mod Invariant
pub mod Visit
pub mod Recording
pub mod Cached
pub mod Soundness
pub mod Counting
pub mod Totality
use sth_boring.Base.{
  ℕ, zero, suc, String, List, [], ◌∷◌, Option, none, some, Bool, true, false, not, ◌&&◌, Result, ok,
  raise, Exception, if◌then◌else◌, ◌==◌, ◌<>◌, or_text, or_default, is_none, length, ◌+◌, join,
}
use sth_boring.Base.Dict.{Dict}
use sth_boring.Base.Steps.{Action, pure, throw, catch, and_then, ◌>>=◌, ◌>>◌, lift}
use sth_boring.Base.Int.{ℤ, pos, negsuc, int_lt, int_text}
use sth_boring.Json
use sth_boring.Json.{Fields, Value, Number, no_fields}
use sth_boring.Crawler.Enums.{
  TransportKind, ExtractKind, RenderMode, ErrorType, EventStatus, EventStep, transport_value,
  extract_value, step_value, status_value,
}
use sth_boring.Crawler.Models.{
  Chunk, Document, CrawlPlan, CrawlRequest, FetchMeta, FetchedPayload, QualityScore,
  RelevanceResult, ArtifactRefs, TraceStep, TraceInfo, add_step, CrawlResultBundle, CrawlEvent,
  is_given,
}
use sth_boring.Crawler.DomainPolicy.{DomainPolicyRegistry}
use sth_boring.Crawler.Policy.{build_plan, update_plan_on_failure}
use sth_boring.Crawler.ResultCache
use sth_boring.Crawler.ResultCache.{ResultCache, make_key}
use sth_boring.Crawler.SessionStore
use sth_boring.Crawler.SessionStore.{SessionStore, CrawlSession}
use sth_boring.Crawler.Adapters
use sth_boring.Crawler.Adapters.{SiteAdapter, SiteAdapterRegistry}

-- The state of a runner: the outside world, its own stores, and the trace of the run.
pub record Crawler (W : Type 0) : Type 0 where
  pub outside : W
  pub cache : ResultCache
  pub sessions : SessionStore
  pub trace : TraceInfo

-- The clock (whole microseconds and the ISO text), the source of ids, `urlparse(url).netloc`, which
-- raises ValueError for some texts, and
-- `str.lower`, `str` of a value that is not a text, and the objects of the constructor.
pub record Services (W : Type 0) : Type 0 where
  pub time : W → ℕ × W
  pub utcnow : W → String × W
  pub uuid4_hex : W → String × W
  pub lower : String → String
  pub netloc : String → Result String
  pub str_of : Value → String
  pub domain_registry : DomainPolicyRegistry
  pub fetch : String → CrawlPlan → CrawlSession → Option Fields → Action W FetchedPayload
  pub universal_extract : String → String → Action W Document
  pub adapter_registry : SiteAdapterRegistry W
  pub intelligent_extract : String → String → Option String → Action W Document
  pub chunk : Document → Action W Document
  pub rank : List Chunk → Option String → Action W (List Chunk)
  pub score : Document → Action W QualityScore
  pub check : Document → Option String → Action W (Option RelevanceResult)
  pub render : Document → RenderMode → Action W String
  pub persist : CrawlResultBundle → Action W ArtifactRefs
  pub emit : CrawlEvent → Action W (Unit {0})

-- What an attempt leads to: another attempt, with the type and the reason of the failure, or a
-- value.
pub data Outcome (A : Type 0) : Type 0 where
  retry : ErrorType → String → Outcome A
  got : A → Outcome A

-- A run returns a bundle or ends with CrawlFailedError, which carries a type and the trace.
pub data Ending : Type 0 where
  returned : CrawlResultBundle → Ending
  crawl_failed : ErrorType → TraceInfo → Ending

-- The arguments of `_record` that have a default.
pub record Details : Type 0 where
  pub final_url : Option String
  pub status_code : Option ℤ
  pub elapsed_ms : Option Number
  pub quality_score : Option Number
  pub chunk_count : Option ℕ
  pub fallback_reason : Option String
  pub error_type : Option ErrorType

abbrev pub no_details : Details
no_details = record {
  final_url = none;
  status_code = none;
  elapsed_ms = none;
  quality_score = none;
  chunk_count = none;
  fallback_reason = none;
  error_type = none;
}

module _ {W : Type 0} where
  -- Code of the outside world.
  unfoldable pub outside : {A : Type 0} → Action W A → Action (Crawler W) A
  outside m s = let (r, w) = m s.outside in (r, record s { outside = w })

  unfoldable pub reading : {A : Type 0} → (W → A × W) → Action (Crawler W) A
  reading m s = let (a, w) = m s.outside in (ok a, record s { outside = w })

  abbrev pub get_state : Action (Crawler W) (Crawler W)
  get_state s = (ok s, s)

  abbrev pub put_trace : TraceInfo → Action (Crawler W) (Unit {0})
  put_trace trace s = (ok tt, record s { trace = trace })

  abbrev pub put_cache : ResultCache → Action (Crawler W) (Unit {0})
  put_cache cache s = (ok tt, record s { cache = cache })

  abbrev pub put_sessions : SessionStore → Action (Crawler W) (Unit {0})
  put_sessions sessions s = (ok tt, record s { sessions = sessions })

  -- `except name:`, for one class of exceptions
  abbrev pub handle :
      {A : Type 0} → String → Action (Crawler W) A → Exception → Action (Crawler W) A
  handle name handler exc = if exc.class_name == name then handler else throw exc
