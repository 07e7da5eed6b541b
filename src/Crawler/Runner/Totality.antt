-- ===== src/Crawler/Runner/Totality.antt =====
-- src/AgentCrawler/src/agent_crawler/loop/runner.py: what the fetcher and the extractors raise does
-- not leave the run.
use sth_boring.Base.{ℕ, String, Option, ok, length}
use sth_boring.Base.Dict.{Dict}
use sth_boring.Base.Steps.{Action}
use sth_boring.Base.Int.{pos}
use sth_boring.Crawler.Enums.{RenderMode}
use sth_boring.Crawler.Models.{Document, CrawlResultBundle, CrawlEvent}
use sth_boring.Crawler.ResultCache.{ResultCache}
use sth_boring.Crawler.Runner.{Crawler, Services}
use sth_boring.Base.{◌≡◌}
use sth_boring.Base.Ensures.{Ensures}
use sth_boring.Base.{length}
use sth_boring.Base.Dict

-- The code returns in every world.
abbrev pub Returns : {W A : Type 0} → Action W A → Type 0
Returns {W = W} {A = A} m = (w : W) → (a : A) × ((m w).0 ≡ ok a)

-- The logger, the assessor, the gate, the renderer and the artifact adapter return.
pub record AreReliable {W : Type 0} (services : Services W) : Type 0 where
  pub emit : (event : CrawlEvent) → Returns (services.emit event)
  pub score : (doc : Document) → Returns (services.score doc)
  pub check : (doc : Document) (query : Option String) → Returns (services.check doc query)
  pub render : (doc : Document) (mode : RenderMode) → Returns (services.render doc mode)
  pub persist : (bundle : CrawlResultBundle) → Returns (services.persist bundle)

-- The bound of the cache is not negative.
abbrev pub HasRoom : {W : Type 0} → Crawler W → Type 0
HasRoom s = (m : ℕ) × (s.cache.max_entries ≡ pos m)

abbrev Never : {W : Type 0} → Crawler W → Type 0
Never s = ⊥
