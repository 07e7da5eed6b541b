-- ===== src/Crawler/Models.antt =====
-- src/AgentCrawler/src/agent_crawler/models and src/AgentCrawler/src/webkit/models.py: the data
-- that the crawl loop passes around. A float is a number of Json, a time stamp is its ISO text.
use sth_boring.Base.{ℕ, String, List, ◌++◌, [], ◌∷◌, Option, none, some, Bool, not, ◌==◌}
use sth_boring.Base.Int.{ℤ}
use sth_boring.Base.Dict.{Dict}
use sth_boring.Json.{Fields, Number}
use sth_boring.Crawler.Enums.{
  TransportHint, TransportKind, ExtractHint, ExtractKind, RenderMode, ErrorType, EventStatus,
  EventStep,
}

pub record Chunk : Type 0 where
  pub text : String
  pub order : ℕ
  pub source_url : String
  pub title : Option String
  pub meta : Fields
  pub score : Number
  pub features : Fields

pub record Document : Type 0 where
  pub url : String
  pub title : Option String
  pub text : String
  pub links : List String
  pub chunks : List Chunk
  pub meta : Fields

pub record CrawlPlan : Type 0 where
  pub transport : TransportKind
  pub extract_kind : ExtractKind
  pub adapter_name : Option String
  pub prefer_profile : Bool
  pub use_result_cache : Bool
  pub result_cache_ttl_s : ℤ
  pub http_cache_ttl_s : ℤ
  pub allow_llm_gate : Bool
  pub allow_llm_render : Bool

-- The budgets and the `llm` of the source's class are read nowhere in the loop.
pub record CrawlRequest : Type 0 where
  pub url : String
  pub query : Option String
  pub auth_profile_id : String
  pub render : Bool
  pub render_mode : RenderMode
  pub transport_hint : TransportHint
  pub extract_hint : ExtractHint
  pub max_attempts : ℤ
  pub persist_artifacts : Bool
  pub debug : Bool
  pub options : Fields

pub record FetchMeta : Type 0 where
  pub url : String
  pub final_url : String
  pub status_code : ℤ
  pub headers : Dict String
  pub elapsed_ms : Number
  pub retries : ℕ
  pub fetched_at : Option String
  pub transport : TransportKind
  pub extra : Fields

pub record FetchedPayload : Type 0 where
  pub meta : FetchMeta
  pub html : Option String
  pub raw_bytes : Option (List ℕ)

pub record QualityScore : Type 0 where
  pub score : Number
  pub is_ok : Bool
  pub reasons : List String
  pub metrics : Fields

pub record RelevanceResult : Type 0 where
  pub relevant : Bool
  pub confidence : Number
  pub reason : String

pub record ArtifactRefs : Type 0 where
  pub raw_html_ref : Option String
  pub document_ref : Option String
  pub rendered_ref : Option String
  pub debug_ref : Option String

pub record TraceStep : Type 0 where
  pub attempt : ℕ
  pub step_name : String
  pub status : String
  pub reason : String
  pub error_type : Option ErrorType
  pub meta : Dict String

pub record TraceInfo : Type 0 where
  pub run_id : String
  pub started_at : String
  pub fallback_count : ℕ
  pub steps : List TraceStep

-- `TraceInfo.add_step`
abbrev pub add_step : TraceStep → TraceInfo → TraceInfo
add_step step trace = record trace { steps = trace.steps ++ step ∷ [] }

-- `trace` is the object of a run, which the run goes on changing: the bundle names it by the id of
-- the run.
pub record CrawlResultBundle : Type 0 where
  pub request : CrawlRequest
  pub plan : CrawlPlan
  pub fetched : FetchMeta
  pub raw_html : Option String
  pub doc_clean : Document
  pub quality : QualityScore
  pub relevance : Option RelevanceResult
  pub rendered : Option String
  pub trace : Option String
  pub artifacts : Option ArtifactRefs

pub record CrawlEvent : Type 0 where
  pub run_id : String
  pub attempt : ℕ
  pub step_name : EventStep
  pub status : EventStatus
  pub url : String
  pub final_url : Option String
  pub domain : Option String
  pub transport : TransportKind
  pub extractor : ExtractKind
  pub adapter : Option String
  pub status_code : Option ℤ
  pub elapsed_ms : Option Number
  pub retries : ℕ
  pub quality_score : Option Number
  pub chunk_count : Option ℕ
  pub fallback_reason : Option String
  pub error_type : Option ErrorType
  pub message : String
  pub meta : Fields
  pub created_at : String

-- An optional text counts as true if it is there and not empty.
unfoldable pub is_given : Option String → Bool
is_given none = Bool.false
is_given (some t) = not (t == "")
