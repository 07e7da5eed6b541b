-- ===== src/Crawler/Runner/Soundness.antt =====
-- src/AgentCrawler/src/agent_crawler/loop/runner.py: no run stores or returns a page that has not
-- passed its checks.
use sth_boring.Base.Int.{at_least_one}
use sth_boring.Base.{ℕ, zero, suc, String, some, Result, ok, raise, ◌+◌}
use sth_boring.Base.Steps.{Action, ◌>>=◌, lift}
use sth_boring.Crawler.Enums.{ErrorType}
use sth_boring.Crawler.Models.{CrawlPlan, CrawlRequest, CrawlResultBundle}
use sth_boring.Crawler.ResultCache
use sth_boring.Crawler.ResultCache.{ResultCache, make_key}
use sth_boring.Crawler.Runner.{
  Crawler, Services, Outcome, retry, got, Ending, returned, crawl_failed, outside, reading,
  put_cache,
}
use sth_boring.Crawler.Runner.Loop.{put_result}
use sth_boring.Base.{◌≡◌, refl, subst}
use sth_boring.Base.Ensures.{
  Ensures, Keeps, Post, Ensures-bind, Keeps-bind, Keeps-get, Ensures-pure, lift-Keeps,
}
use sth_boring.Crawler.Runner.Loop.{proceed, attempts, run}
use sth_boring.Crawler.Runner.Invariant.{Upholds, reading-Keeps}
use sth_boring.Crawler.Runner.Visit.{visit-Gives, GoodOutcome}
use sth_boring.Crawler.Runner.Recording.{record_step-leaves, fallback-leaves}
use sth_boring.Crawler.Runner.Cached.{
  IsGood, AreGood, get-AreGood, put-AreGood, write_through-AreGood,
}

-- The cache of the runner holds good bundles only.
abbrev pub HoldsGood : {W : Type 0} → Crawler W → Type 0
HoldsGood s = AreGood s.cache.items

abbrev GoodEnding : Ending → Type 0
GoodEnding (returned b) = IsGood b
GoodEnding (crawl_failed error_type trace) = Unit

module _ {W : Type 0} (services : Services W) (request : CrawlRequest) where
  outside-HoldsGood : {A : Type 0} (m : Action W A) → Keeps HoldsGood HoldsGood (outside m)
  unfolding outside
  outside-HoldsGood m = record { at = λ s h. kept s (m s.outside).0 (m s.outside).1 h }
    where
      kept :
          {A : Type 0} (s : Crawler W) (r : Result A) (w : W)
          → HoldsGood s
          → Post HoldsGood (λ _. HoldsGood) r (record s { outside = w })
      kept s (ok a) w h = h
      kept s (raise e) w h = h

  put_result-HoldsGood :
      (plan : CrawlPlan) (key : String) (b : CrawlResultBundle)
      → IsGood b
      → Keeps HoldsGood HoldsGood (put_result services request plan key b)
  unfolding put_result ◌>>=◌ reading
  put_result-HoldsGood plan key b g = record { at = λ s h. stored s h _ refl }
    where
      stored :
          (s : Crawler W) (h : HoldsGood s) (r : Result ResultCache)
          → ResultCache.put (services.time s.outside).0 key b (some plan.result_cache_ttl_s) s.cache
            ≡ r
          → Post HoldsGood
              (λ _. HoldsGood)
              ((lift r >>= put_cache) (record s { outside = (services.time s.outside).1 })).0
              ((lift r >>= put_cache) (record s { outside = (services.time s.outside).1 })).1
      stored s h (raise x) e = h
      stored s h (ok cache) e = put-AreGood _ key b _ s.cache cache h g e

  laws : Upholds services request HoldsGood HoldsGood IsGood
  laws = record {
    weaker = λ s h. h;
    apart = λ s w sessions h. h;
    recording = λ plan attempt step status message details _.
        record_step-leaves services request HoldsGood HoldsGood plan attempt step status message
          details (λ s entry w _ h. h);
    parsing = lift-Keeps _ (λ s h. h);
    scoring = λ doc. outside-HoldsGood (services.score doc);
    checking = λ doc query. outside-HoldsGood (services.check doc query);
    rendering = λ doc mode. outside-HoldsGood (services.render doc mode);
    persisting = λ b. outside-HoldsGood (services.persist b);
    looking = λ s now key h. get-AreGood now key s.cache h;
    writing = λ key b g. record { at = λ s h. write_through-AreGood key b s.cache h g };
    storing = put_result-HoldsGood;
    good = λ b h1 h2. (h1, h2);
    same = λ b trace rendered artifacts g. g;
  }

  proceed-Good :
      (rest : CrawlPlan → ErrorType → Action (Crawler W) Ending) (plan : CrawlPlan) (attempt : ℕ)
      (outcome : Outcome CrawlResultBundle)
      → ((plan : CrawlPlan) (last : ErrorType)
          → Ensures HoldsGood HoldsGood
              (rest plan last)
              (λ ending s. HoldsGood s × GoodEnding ending))
      → Ensures
          (λ s. HoldsGood s × GoodOutcome laws outcome)
          HoldsGood
          (proceed services request rest plan attempt outcome)
          (λ ending s. HoldsGood s × GoodEnding ending)
  unfolding proceed
  proceed-Good rest plan attempt (got b) h = Ensures-pure _ (λ s p. p)
  proceed-Good rest plan attempt (retry error_type reason) h =
      Ensures-bind _ _
        (fallback-leaves services request _ HoldsGood plan attempt reason
          (λ s entry w same _ p. p.0))
        (λ plan'. h plan' error_type)

  attempts-Good :
      (left attempt : ℕ) (mode : String) (plan : CrawlPlan) (last : ErrorType)
      → Ensures HoldsGood HoldsGood
          (attempts services request left attempt mode plan last)
          (λ ending s. HoldsGood s × GoodEnding ending)
  unfolding attempts
  attempts-Good zero attempt mode plan last =
      Keeps-bind _ _ Keeps-get (λ s. Ensures-pure _ (λ s h. (h, tt)))
  attempts-Good (suc left) attempt mode plan last =
      Ensures-bind _ _ (visit-Gives laws plan attempt mode)
        (λ outcome. proceed-Good _ plan attempt outcome (attempts-Good left (attempt + 1) mode))

  run-Good :
      Ensures HoldsGood HoldsGood
        (run services request)
        (λ ending s. HoldsGood s × GoodEnding ending)
  unfolding run
  run-Good = Keeps-bind _ _ (reading-Keeps laws services.uuid4_hex) (λ run_id.
      Keeps-bind _ _ (reading-Keeps laws services.utcnow) (λ started_at.
        Keeps-bind _ _ (record { at = λ s h. h })
          (λ _. Keeps-bind _ _ laws.parsing λ host.
            Keeps-bind _ _ (laws.recording _ 0 _ _ _ _ refl)
              (λ _. attempts-Good (at_least_one request.max_attempts) 1 _ _ _))))

module _ {W : Type 0} (services : Services W) (request : CrawlRequest) (s : Crawler W)
    (h : HoldsGood s) where
  -- A run keeps the cache free of bundles that have not passed the checks, however it ends.
  pub run-HoldsGood : HoldsGood (run services request s).1
  run-HoldsGood = kept _ _ ((run-Good services request).at s h)
    where
      kept :
          (r : Result Ending) (s' : Crawler W)
          → Post HoldsGood (λ ending s. HoldsGood s × GoodEnding ending) r s'
          → HoldsGood s'
      kept (ok ending) s' p = p.0
      kept (raise e) s' p = p

  -- A bundle that a run returns, fresh or from a cache of good bundles, is of a page that was
  -- answered with a status below 400 and whose document has passed the assessment.
  pub run-IsGood : (b : CrawlResultBundle) → (run services request s).0 ≡ ok (returned b) → IsGood b
  run-IsGood b e =
      let (_, g) =
        subst
          (λ r.
            Post HoldsGood (λ ending s. HoldsGood s × GoodEnding ending) r
              (run services request s).1)
          e ((run-Good services request).at s h) in
      g
