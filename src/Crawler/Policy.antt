-- ===== src/Crawler/Policy.antt =====
-- src/AgentCrawler/src/agent_crawler/policy/policy.py: the first plan of a crawl, and the next plan
-- after a failure.
pub mod Escalation
use sth_boring.Base.{Option, none, some, Bool, true, false, ◌&&◌, ◌||◌, not, if◌then◌else◌, String}
use sth_boring.Crawler.Enums.{
  TransportHint, TransportKind, ExtractHint, ExtractKind, is_http, same_kind,
}
use sth_boring.Crawler.Models.{CrawlPlan, CrawlRequest, is_given}
use sth_boring.Crawler.DomainPolicy.{DomainPolicy, DomainPolicyRegistry, resolve}

pick_transport : TransportHint → DomainPolicy → TransportKind
pick_transport TransportHint.browser domain_policy = TransportKind.browser
pick_transport TransportHint.auto domain_policy =
    if domain_policy.prefer_browser then TransportKind.browser else TransportKind.http
pick_transport TransportHint.http domain_policy = TransportKind.http

-- The kind of extraction and the name of the adapter.
pick_extraction : ExtractHint → Option String → ExtractKind × Option String
unfolding is_given
pick_extraction ExtractHint.adapter name = (ExtractKind.adapter, name)
pick_extraction ExtractHint.auto name =
    if is_given name then (ExtractKind.adapter, name) else (ExtractKind.universal, name)
pick_extraction ExtractHint.intelligent name = (ExtractKind.intelligent, name)
pick_extraction ExtractHint.universal name = (ExtractKind.universal, none)

-- `host` is `urlparse(request.url).netloc.lower()`.
unfoldable pub build_plan : DomainPolicyRegistry → CrawlRequest → String → CrawlPlan
unfolding pick_transport pick_extraction
build_plan registry request host =
    let domain_policy = resolve registry host in
    let (extract_kind, adapter_name) =
      pick_extraction request.extract_hint domain_policy.adapter_name in
    record {
      transport = pick_transport request.transport_hint domain_policy;
      extract_kind = extract_kind;
      adapter_name = adapter_name;
      prefer_profile = domain_policy.prefer_profile || domain_policy.requires_auth;
      use_result_cache = true;
      result_cache_ttl_s = domain_policy.result_cache_ttl_s;
      http_cache_ttl_s = domain_policy.http_cache_ttl_s;
      allow_llm_gate = domain_policy.allow_llm_gate;
      allow_llm_render = domain_policy.allow_llm_render;
    }

unfoldable pub update_plan_on_failure : CrawlPlan → CrawlPlan
unfolding is_given
update_plan_on_failure plan =
    if is_http plan.transport
      && same_kind plan.extract_kind ExtractKind.universal
      && is_given plan.adapter_name
    then record plan { extract_kind = ExtractKind.adapter }
    else if is_http plan.transport
    then record plan { transport = TransportKind.browser; extract_kind = ExtractKind.universal }
    else if is_given plan.adapter_name && not (same_kind plan.extract_kind ExtractKind.adapter)
    then record plan { extract_kind = ExtractKind.adapter }
    else if not (same_kind plan.extract_kind ExtractKind.intelligent)
    then record plan { extract_kind = ExtractKind.intelligent }
    else plan
