-- ===== src/Crawler/Runner/Visit.antt =====
-- src/AgentCrawler/src/agent_crawler/loop/runner.py: an attempt keeps what its operations keep, and
-- what it delivers has passed its checks.
use sth_boring.Base.{ℕ, String, Option, none, some, true, not, if◌then◌else◌, ◌==◌}
use sth_boring.Base.Steps.{Action, pure, ◌>>=◌, ◌>>◌}
use sth_boring.Base.Int.{pos, int_lt}
use sth_boring.Crawler.Enums.{EventStatus, EventStep}
use sth_boring.Crawler.Models.{
  Document, CrawlPlan, CrawlRequest, FetchedPayload, QualityScore, RelevanceResult,
  CrawlResultBundle,
}
use sth_boring.Crawler.ResultCache
use sth_boring.Crawler.ResultCache.{ResultCache, make_key}
use sth_boring.Crawler.Runner.{Crawler, Services, Outcome, retry, got, no_details}
use sth_boring.Crawler.Runner.Stages.{record_step, failed}
use sth_boring.Crawler.Runner.Loop.{
  usable, rejection, if_got, look_up, report_cache, serve, put_result, deliver, settle, judge,
  read_page, crawl_page, after_cache, visit,
}
use sth_boring.Base.{◌≡◌, refl, Bool-cases, inl, inr, arith}
use sth_boring.Base.Ensures.{
  Ensures-bind, Keeps-bind, Keeps-pure, Keeps-get, Ensures-pure, Ensures-if,
}
use sth_boring.Crawler.Runner.Invariant.{
  Upholds, Gives, reading-Keeps, open_session-Keeps, fetch_page-Keeps, extract_page-Keeps,
  assess-Keeps, gate-Keeps, render_page-Keeps, persist_bundle-Gives,
}

module _ {W : Type 0} {services : Services W} {request : CrawlRequest} {I E : Crawler W → Type 0}
    {G : CrawlResultBundle → Type 0} (laws : Upholds services request I E G) where
  abbrev AllGood : Option CrawlResultBundle → Type 0
  AllGood o = (b : CrawlResultBundle) → o ≡ some b → G b

  abbrev pub GoodOutcome : Outcome CrawlResultBundle → Type 0
  GoodOutcome (retry error_type reason) = Unit
  GoodOutcome (got b) = G b

  usable-AllGood :
      (mode : String) (found : Option CrawlResultBundle)
      → AllGood found
      → AllGood (usable mode found)
  usable-AllGood mode none h b e = h b e
  usable-AllGood mode (some c) h b e = elim (Bool-cases (mode == "refresh")) [
    | inl r ↦ absurd (ground arith)
    | inr r ↦ h b (ground arith)
  ]

  report_cache-Gives :
      (plan : CrawlPlan) (attempt : ℕ) (o : Option CrawlResultBundle)
      → AllGood o
      → Gives laws AllGood (report_cache services request plan attempt o)
  unfolding report_cache
  report_cache-Gives plan attempt none h =
      Keeps-bind _ _ (laws.recording plan attempt _ _ _ _ refl)
        (λ _. Ensures-pure none (λ s p. (p, h)))
  report_cache-Gives plan attempt (some b) h =
      Keeps-bind _ _ (laws.recording plan attempt _ _ _ _ refl)
        (λ _. Ensures-pure (some b) (λ s p. (p, h)))

  look_up-Gives :
      (plan : CrawlPlan) (attempt : ℕ) (mode key : String)
      → Gives laws AllGood (look_up services request plan attempt mode key)
  unfolding look_up ◌>>=◌
  look_up-Gives plan attempt mode key = Keeps-bind _ _ (reading-Keeps laws services.time) (λ now.
      record {
        at = λ s p.
            let (kept, all) = laws.looking s now key p in
            (report_cache-Gives plan attempt _ (usable-AllGood mode _ all)).at
              (record s { cache = (ResultCache.get now key s.cache).1 }) kept;
      })

  serve-Gives :
      (key : String) (b : CrawlResultBundle) → G b → Gives laws G (serve services request key b)
  unfolding serve
  serve-Gives key b g = Keeps-bind _ _ Keeps-get (λ s.
      let traced = laws.same b (some s.trace.run_id) b.rendered b.artifacts g in
      Keeps-bind _ _ (laws.writing key _ traced) (λ _.
        Ensures-if _ _ _
          (λ _. Keeps-bind _ _ (laws.rendering b.doc_clean request.render_mode) (λ rendered.
            let shown = laws.same b (some s.trace.run_id) (some rendered) b.artifacts g in
            Keeps-bind _ _ (laws.writing key _ shown) (λ _. Ensures-pure _ (λ s p. (p, shown)))))
          (λ _. Ensures-pure _ (λ s p. (p, traced)))))

  deliver-Gives :
      (plan : CrawlPlan) (attempt : ℕ) (key : String) (fetched : FetchedPayload) (doc : Document)
      (quality : QualityScore) (relevance : Option RelevanceResult)
      → quality.is_ok ≡ true
      → int_lt fetched.meta.status_code (pos 400) ≡ true
      → Gives laws G (deliver services request plan attempt key fetched doc quality relevance)
  unfolding deliver
  deliver-Gives plan attempt key fetched doc quality relevance is_ok is_fine =
      Keeps-bind _ _ (render_page-Keeps laws plan attempt fetched doc) (λ rendered.
        Keeps-bind _ _ Keeps-get (λ s.
          Ensures-bind _ _ (persist_bundle-Gives laws _ (laws.good _ is_ok is_fine))
            (λ bundle. record { at = λ s' (p, g). (stored bundle g).at s' p })))
    where
      stored :
          (bundle : CrawlResultBundle)
          → G bundle
          → Gives laws G (do
            if plan.use_result_cache then put_result services request plan key bundle else pure tt
            record_step services request plan attempt EventStep.emit EventStatus.ok "run complete"
                (record no_details { final_url = some fetched.meta.final_url })
            pure bundle)
      stored bundle g =
          Keeps-bind _ _
            (Ensures-if plan.use_result_cache _ _ (λ _. laws.storing plan key bundle g)
              (λ _. Keeps-pure tt))
            (λ _.
              Keeps-bind _ _ (laws.recording plan attempt _ _ _ _ refl)
                (λ _. Ensures-pure bundle (λ s p. (p, g))))

  settle-Gives :
      (plan : CrawlPlan) (attempt : ℕ) (key : String) (fetched : FetchedPayload) (doc : Document)
      (quality : QualityScore) (relevance : Option RelevanceResult) (reason : Option String)
      → quality.is_ok ≡ true
      → int_lt fetched.meta.status_code (pos 400) ≡ true
      → Gives laws GoodOutcome
          (settle services request plan attempt key fetched doc quality relevance reason)
  unfolding settle
  settle-Gives plan attempt key fetched doc quality relevance (some reason) is_ok is_fine =
      Ensures-pure _ (λ s p. (p, tt))
  settle-Gives plan attempt key fetched doc quality relevance none is_ok is_fine =
      Ensures-bind _ _ (deliver-Gives plan attempt key fetched doc quality relevance is_ok is_fine)
        (λ bundle. Ensures-pure _ (λ s p. p))

  judge-Gives :
      (plan : CrawlPlan) (attempt : ℕ) (key : String) (fetched : FetchedPayload) (doc : Document)
      → int_lt fetched.meta.status_code (pos 400) ≡ true
      → Gives laws GoodOutcome (judge services request plan attempt key fetched doc)
  unfolding judge
  judge-Gives plan attempt key fetched doc is_fine =
      Keeps-bind _ _ (assess-Keeps laws plan attempt fetched doc) (λ quality.
        Ensures-if (not quality.is_ok) _ _ (λ _. Ensures-pure _ (λ s p. (p, tt)))
          (λ h. Keeps-bind _ _ (gate-Keeps laws plan doc) (λ relevance.
            settle-Gives plan attempt key fetched doc quality relevance (rejection relevance)
              (ground arith) is_fine)))

  if_got-Gives :
      {A : Type 0} (o : Outcome A) (f : A → Action (Crawler W) (Outcome CrawlResultBundle))
      → ((a : A) → Gives laws GoodOutcome (f a))
      → Gives laws GoodOutcome (if_got o f)
  if_got-Gives (retry error_type reason) f h = Ensures-pure _ (λ s p. (p, tt))
  if_got-Gives (got a) f h = h a

  read_page-Gives :
      (plan : CrawlPlan) (attempt : ℕ) (key : String) (fetched : FetchedPayload)
      → Gives laws GoodOutcome (read_page services request plan attempt key fetched)
  unfolding read_page failed
  read_page-Gives plan attempt key fetched =
      Ensures-if (not (int_lt fetched.meta.status_code (pos 400))) _ _
        (λ _.
          Keeps-bind _ _ (laws.recording plan attempt _ _ _ _ refl)
            (λ _. Ensures-pure _ (λ s p. (p, tt))))
        (λ h.
          Keeps-bind _ _ (extract_page-Keeps laws plan attempt fetched) (λ doc.
            if_got-Gives doc _ (λ d. judge-Gives plan attempt key fetched d (ground arith))))

  crawl_page-Gives :
      (plan : CrawlPlan) (attempt : ℕ) (key : String)
      → Gives laws GoodOutcome (crawl_page services request plan attempt key)
  unfolding crawl_page
  crawl_page-Gives plan attempt key = Keeps-bind _ _ (open_session-Keeps laws plan) (λ session.
      Keeps-bind _ _ (laws.recording plan attempt _ _ _ _ refl) (λ _.
        Keeps-bind _ _ (fetch_page-Keeps laws plan attempt session)
          (λ fetched. if_got-Gives fetched _ (read_page-Gives plan attempt key))))

  after_cache-Gives :
      (plan : CrawlPlan) (attempt : ℕ) (key : String) (o : Option CrawlResultBundle)
      → AllGood o
      → Gives laws GoodOutcome (after_cache services request plan attempt key o)
  unfolding after_cache
  after_cache-Gives plan attempt key none all = crawl_page-Gives plan attempt key
  after_cache-Gives plan attempt key (some b) all =
      Ensures-bind _ _ (serve-Gives key b (all b refl)) (λ shown. Ensures-pure _ (λ s p. p))

  pub visit-Gives :
      (plan : CrawlPlan) (attempt : ℕ) (mode : String)
      → Gives laws GoodOutcome (visit services request plan attempt mode)
  unfolding visit
  visit-Gives plan attempt mode =
      Ensures-bind _ _
        (Ensures-if _ _ _ (λ _. look_up-Gives plan attempt mode (make_key request plan))
          (λ _. Ensures-pure none (λ s p. (p, λ b e. absurd cc))))
        (λ o. record {
          at = λ s (p, all). (after_cache-Gives plan attempt (make_key request plan) o all).at s p;
        })
