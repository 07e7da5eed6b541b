-- ===== src/Crawler/Enums.antt =====
-- src/AgentCrawler/src/agent_crawler/models/enums.py: the enumerations, and the text that is the
-- value of each member.
use sth_boring.Base.{String, Bool, true, false}

pub data TransportHint : Type 0 where
  auto http browser : TransportHint

pub data TransportKind : Type 0 where
  http browser : TransportKind

pub data ExtractHint : Type 0 where
  auto universal adapter intelligent : ExtractHint

pub data ExtractKind : Type 0 where
  universal adapter intelligent : ExtractKind

pub data RenderMode : Type 0 where
  plain structured adapter llm : RenderMode

pub data ErrorType : Type 0 where
  fetch_error extract_error quality_too_low relevance_rejected : ErrorType
  unsupported_transport unsupported_extractor max_attempts_exceeded : ErrorType

pub data EventStatus : Type 0 where
  started ok warning error skipped : EventStatus

pub data EventStep : Type 0 where
  policy cache session fetch extract clean assess render emit fallback : EventStep

-- `transport.value`
abbrev pub transport_value : TransportKind → String
transport_value TransportKind.http = "http"
transport_value TransportKind.browser = "browser"

-- `extract_kind.value`
abbrev pub extract_value : ExtractKind → String
extract_value ExtractKind.universal = "universal"
extract_value ExtractKind.adapter = "adapter"
extract_value ExtractKind.intelligent = "intelligent"

-- `step.value`
abbrev pub step_value : EventStep → String
step_value EventStep.policy = "policy"
step_value EventStep.cache = "cache"
step_value EventStep.session = "session"
step_value EventStep.fetch = "fetch"
step_value EventStep.extract = "extract"
step_value EventStep.clean = "clean"
step_value EventStep.assess = "assess"
step_value EventStep.render = "render"
step_value EventStep.emit = "emit"
step_value EventStep.fallback = "fallback"

-- `status.value`
abbrev pub status_value : EventStatus → String
status_value EventStatus.started = "started"
status_value EventStatus.ok = "ok"
status_value EventStatus.warning = "warning"
status_value EventStatus.error = "error"
status_value EventStatus.skipped = "skipped"

-- `transport == TransportKind.HTTP`
abbrev pub is_http : TransportKind → Bool
is_http TransportKind.http = true
is_http TransportKind.browser = false

abbrev pub same_transport : TransportKind → TransportKind → Bool
same_transport TransportKind.http TransportKind.http = true
same_transport TransportKind.browser TransportKind.browser = true
same_transport _ _ = false

abbrev pub same_kind : ExtractKind → ExtractKind → Bool
same_kind ExtractKind.universal ExtractKind.universal = true
same_kind ExtractKind.adapter ExtractKind.adapter = true
same_kind ExtractKind.intelligent ExtractKind.intelligent = true
same_kind _ _ = false
