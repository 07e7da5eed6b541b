-- ===== src/Crawler/Examples.antt =====
-- Crawls of two pages, and the theorems at them. The world is a clock.
use sth_boring.Base.{
  ℕ, suc, String, [], ◌∷◌, Option, none, some, true, false, ok, raise, ◌≡◌, ◌≢◌, refl, length, ◌≤◌,
  if◌then◌else◌, ◌==◌, or_default, join, or_text,
}
use sth_boring.Base.Int.{pos, int_lt, scaled}
use sth_boring.Base.Steps.{Action, ◌>>=◌, catch}
use sth_boring.Json.{no_fields, Number}
use sth_boring.Crawler.Enums.{
  TransportHint, TransportKind, ExtractHint, ExtractKind, RenderMode, ErrorType, is_http,
}
use sth_boring.Crawler.Models.{
  CrawlPlan, CrawlRequest, CrawlResultBundle, Document, FetchMeta, FetchedPayload, QualityScore,
  TraceInfo, TraceStep, is_given,
}
use sth_boring.Crawler.Policy.{update_plan_on_failure}
use sth_boring.Crawler.Policy.Escalation.{plan_after, plan_after-settles, plan_after-alternates}
use sth_boring.Base.{str, List, arith}
use sth_boring.Base.Dict.Keys.{IsMap}
use sth_boring.Crawler.BrowserPages.{
  Browser, NewPage, Operation, registering, getting, sweeping, new_registry, apply_all,
}
use sth_boring.Crawler.BrowserPages.Bounds.{new_registry-IsBounded}
use sth_boring.Crawler.ResultCache
use sth_boring.Crawler.ResultCache.{ResultCache}
use sth_boring.Crawler.ResultCache.Lookup.{get-put}
use sth_boring.Crawler.Runner.{Crawler, Services, reading, outside, returned, crawl_failed}
use sth_boring.Crawler.DomainPolicy
use sth_boring.Crawler.SessionStore
use sth_boring.Crawler.SessionStore.Freshness.{get-fresh}
use sth_boring.Crawler.Runner.Loop.{
  run, attempts, visit, look_up, report_cache, after_cache, crawl_page, deliver, fallback, judge,
  next_plan, persist_bundle, proceed, put_result, read_page, settle,
}
use sth_boring.Crawler.Runner.Stages.{
  record_step, open_session, fetch_page, assess, call_fetcher, extract, extract_page, failed, gate,
  render_page, try_extract, try_fetch,
}
use sth_boring.Crawler.Policy.{build_plan}
use sth_boring.Json
use sth_boring.Base.Dict
use sth_boring.Crawler.Runner.Cached.{IsGood}
use sth_boring.Crawler.Runner.Soundness.{HoldsGood, run-HoldsGood, run-IsGood}
use sth_boring.Crawler.Runner.Counting.{falls, Within, run-Within, run-tries_all}

abbrev http_plan : Option String → CrawlPlan
http_plan adapter_name = record {
  transport = TransportKind.http;
  extract_kind = ExtractKind.universal;
  adapter_name = adapter_name;
  prefer_profile = false;
  use_result_cache = true;
  result_cache_ttl_s = pos 600;
  http_cache_ttl_s = pos 3600;
  allow_llm_gate = false;
  allow_llm_render = false;
}

abbrev request : String → CrawlRequest
request url = record {
  url = url;
  query = none;
  auth_profile_id = "anonymous";
  render = false;
  render_mode = RenderMode.plain;
  transport_hint = TransportHint.auto;
  extract_hint = ExtractHint.auto;
  max_attempts = pos 3;
  persist_artifacts = false;
  debug = false;
  options = no_fields;
}

abbrev number : ℕ → Number
number n = record { mantissa = pos n; scale = 0 }

abbrev document : String → Document
document url = record {
  url = url;
  title = none;
  text = "text";
  links = [];
  chunks = [];
  meta = no_fields;
}

abbrev meta : String → FetchMeta
meta url = record {
  url = url;
  final_url = url;
  status_code = pos 200;
  headers = [];
  elapsed_ms = number 5;
  retries = 0;
  fetched_at = none;
  transport = TransportKind.browser;
  extra = no_fields;
}

abbrev score : QualityScore
score = record { score = number 1; is_ok = true; reasons = []; metrics = no_fields }

-- Plain HTTP always fails, the browser fails for the page that is down.
abbrev fetch : String → CrawlPlan → Action ℕ FetchedPayload
fetch url plan w =
    if is_http plan.transport
    then (raise (record { class_name = "ConnectError"; message = "refused" }), w)
    else if url == "https://down/"
    then (raise (record { class_name = "TimeoutError"; message = "timeout" }), w)
    else (ok (record { meta = meta url; html = some "<p>text</p>"; raw_bytes = none }), w)

abbrev services : Services ℕ
services = record {
  time = λ w. (w, suc w);
  utcnow = λ w. ("now", w);
  uuid4_hex = λ w. ("run", w);
  lower = λ s. s;
  netloc = λ s. ok s;
  str_of = λ v. "";
  domain_registry = record {
    default_policy = record {
      domain = "*";
      prefer_browser = false;
      requires_auth = false;
      adapter_name = none;
      prefer_profile = false;
      allow_llm_gate = false;
      allow_llm_render = false;
      result_cache_ttl_s = pos 600;
      http_cache_ttl_s = pos 3600;
    };
    policies = [];
  };
  fetch = λ url plan session options. fetch url plan;
  universal_extract = λ html url w. (ok (document url), w);
  adapter_registry = [];
  intelligent_extract = λ html url query w.
      (raise (record { class_name = "NotImplementedError"; message = "placeholder" }), w);
  chunk = λ doc w. (ok doc, w);
  rank = λ chunks query w. (ok chunks, w);
  score = λ doc w. (ok score, w);
  check = λ doc query w. (ok none, w);
  render = λ doc mode w. (ok "", w);
  persist = λ bundle w. (
    ok (record { raw_html_ref = none; document_ref = none; rendered_ref = none; debug_ref = none }),
    w,
  );
  emit = λ event w. (ok tt, w);
}

abbrev crawler : Crawler ℕ
crawler = record {
  outside = 0;
  cache = record { ttl_s = pos 600; max_entries = pos 128; items = [] };
  sessions = record { ttl = 1800; sessions = [] };
  trace = record { run_id = ""; started_at = ""; fallback_count = 0; steps = [] };
}

abbrev page : CrawlResultBundle
page = record {
  request = request "https://up/";
  plan = record (http_plan none) { transport = TransportKind.browser };
  fetched = meta "https://up/";
  raw_html = some "<p>text</p>";
  doc_clean = document "https://up/";
  quality = score;
  relevance = none;
  rendered = none;
  trace = some "run";
  artifacts = none;
}

none_given : is_given none ≡ false
unfolding is_given
none_given = refl

wiki_given : is_given (some "wiki") ≡ true
unfolding is_given
wiki_given = refl

plan_after-settles_example : plan_after 2 (http_plan none) ≡ record (http_plan none) {
  transport = TransportKind.browser;
  extract_kind = ExtractKind.intelligent;
}
plan_after-settles_example = plan_after-settles (http_plan none) 0 none_given

plan_after-alternates_example :
    (plan_after 5 (http_plan (some "wiki")) ≡ plan_after 3 (http_plan (some "wiki")))
    × ((plan_after 4 (http_plan (some "wiki"))).extract_kind
        ≢ (plan_after 3 (http_plan (some "wiki"))).extract_kind)
plan_after-alternates_example = plan_after-alternates (http_plan (some "wiki")) 0 wiki_given

get-put_example :
    (after : ResultCache) × (ResultCache.put 7 "k" page (some (pos 2)) crawler.cache ≡ ok after)
    × (length after.items ≤ 128)
    × ((ResultCache.get 9 "k" after).0 ≡ (
        if int_lt
          (ResultCache.later 7 (scaled (or_default (pos 600) (some (pos 2))) 1000000))
          (pos 9)
        then none
        else some page))
get-put_example = get-put crawler.cache 127 "k" page (some (pos 2)) 7 9 refl

run_up : (run services (request "https://up/") crawler).0 ≡ ok (returned page)
unfolding run ◌>>=◌ reading record_step outside attempts visit build_plan Json.get look_up
    report_cache ResultCache.get ResultCache.use_entry Dict.get after_cache crawl_page open_session
    fetch_page Dict.put Dict.remove Dict.values catch join or_text DomainPolicy.resolve is_given
    update_plan_on_failure ResultCache.make_key ResultCache.move_to_end ResultCache.put
    ResultCache.trim deliver fallback judge next_plan persist_bundle proceed put_result read_page
    settle assess call_fetcher extract extract_page failed gate render_page try_extract try_fetch
    SessionStore.find SessionStore.get SessionStore.invalidate SessionStore.store
run_up = refl

-- A request that allows no attempt is tried once.
abbrev hasty : CrawlRequest
hasty = record (request "https://down/") { max_attempts = pos 0 }

abbrev entry : ℕ → String → String → String → String → String → Option ErrorType → TraceStep
entry attempt step status reason transport kind error_type = record {
  attempt = attempt;
  step_name = step;
  status = status;
  reason = reason;
  error_type = error_type;
  meta = ("plan_transport", transport) ∷ ("plan_extract_kind", kind) ∷ [];
}

abbrev hasty_trace : TraceInfo
hasty_trace = record {
  run_id = "run";
  started_at = "now";
  fallback_count = 1;
  steps =
      entry 0 "policy" "ok" "plan built" "http" "universal" none
      ∷ entry 1 "cache" "skipped" "result cache miss" "http" "universal" none
      ∷ entry 1 "session" "ok" "session ready" "http" "universal" none
      ∷ entry 1 "fetch" "error" "refused" "http" "universal" (some ErrorType.fetch_error)
      ∷ entry 1 "fallback" "warning" "refused" "browser" "universal" none
      ∷ [];
}

run_down : (run services hasty crawler).0 ≡ ok (crawl_failed ErrorType.fetch_error hasty_trace)
unfolding run ◌>>=◌ reading record_step outside attempts visit build_plan Json.get look_up
    report_cache ResultCache.get ResultCache.use_entry Dict.get after_cache crawl_page open_session
    fetch_page Dict.put Dict.remove Dict.values catch join or_text DomainPolicy.resolve is_given
    update_plan_on_failure ResultCache.make_key ResultCache.move_to_end ResultCache.put
    ResultCache.trim deliver fallback judge next_plan persist_bundle proceed put_result read_page
    settle assess call_fetcher extract extract_page failed gate render_page try_extract try_fetch
    SessionStore.find SessionStore.get SessionStore.invalidate SessionStore.store
run_down = refl

run-HoldsGood_example : HoldsGood (run services (request "https://up/") crawler).1
run-HoldsGood_example = run-HoldsGood services (request "https://up/") crawler tt

run-IsGood_example : IsGood page
run-IsGood_example = run-IsGood services (request "https://up/") crawler tt page run_up

run-Within_example : Within 3 (run services (request "https://down/") crawler).1
run-Within_example = run-Within services (request "https://down/") crawler

run-tries_all_example : falls hasty_trace.steps ≡ 1
run-tries_all_example =
    run-tries_all services hasty crawler ErrorType.fetch_error hasty_trace run_down

-- Two pages are registered where one may be open, and the first is asked for.
abbrev browser : Browser ℕ ℕ ℕ
browser = record {
  time = λ w. (w, suc w);
  uuid4_hex = λ w. (str w, suc w);
  close_page = λ page w. (ok tt, w);
  close_context = λ context w. (raise (record { class_name = "Error"; message = "gone" }), w);
}

abbrev new_page : ℕ → NewPage ℕ ℕ
new_page n = record {
  page = n;
  context = n;
  url = "https://up/";
  final_url = "https://up/";
  domain = none;
  auth_profile_id = none;
  owner_run_id = none;
  ttl_s = none;
}

abbrev uses : List (Operation ℕ ℕ)
uses = registering (new_page 1) ∷ registering (new_page 2) ∷ getting "page_0" ∷ sweeping ∷ []

new_registry-IsBounded_example :
    IsMap (apply_all browser uses (new_registry 0 (pos 0) (pos 600))).pages
    × (length (apply_all browser uses (new_registry 0 (pos 0) (pos 600))).pages ≤ 1)
new_registry-IsBounded_example = new_registry-IsBounded browser 0 (pos 0) (pos 600) uses

-- A session of an hour ago is replaced, for a lifetime of half an hour.
abbrev session_key : SessionStore.SessionKey
session_key = record {
  domain = "up";
  auth_profile_id = "anonymous";
  transport = TransportKind.http;
}

abbrev old_session : SessionStore.CrawlSession
old_session = record {
  domain = "up";
  auth_profile = record {
    profile_id = "anonymous";
    secrets_refs = [];
    storage_state_path = none;
    meta = no_fields;
  };
  transport = TransportKind.http;
  created_at_epoch = 0;
  last_used_epoch = 0;
  state = no_fields;
}

abbrev old_store : SessionStore.SessionStore
old_store = record { ttl = 1800; sessions = (session_key, old_session) ∷ [] }

get-fresh_example :
    (SessionStore.is_stale 3600 1800
        (some (SessionStore.get 3600 3601 3602 session_key old_store).0)
      ≡ false)
    × (SessionStore.find session_key
          (SessionStore.get 3600 3601 3602 session_key old_store).1.sessions
        ≡ some (SessionStore.get 3600 3601 3602 session_key old_store).0)
get-fresh_example = get-fresh 3600 3601 3602 session_key old_store (omega arith)
