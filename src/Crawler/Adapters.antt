-- ===== src/Crawler/Adapters.antt =====
-- src/AgentCrawler/src/agent_crawler/extract/adapter.py: the adapters of sites, by name.
use sth_boring.Base.{String, List, [], ◌∷◌, Option, none, some, Bool, if◌then◌else◌}
use sth_boring.Base.Dict
use sth_boring.Base.Dict.{Dict}
use sth_boring.Base.Effects.{Action}
use sth_boring.Crawler.Models.{Document}

-- An adapter is an object given to the registry; `W` is the world that it may change.
pub record SiteAdapter (W : Type 0) : Type 0 where
  pub name : String
  pub can_handle : String → Bool
  pub extract : String → String → Action W Document

abbrev pub SiteAdapterRegistry : Type 0 → Type 0
SiteAdapterRegistry W = Dict (SiteAdapter W)

module _ {W : Type 0} where
  unfoldable pub register : SiteAdapter W → SiteAdapterRegistry W → SiteAdapterRegistry W
  register adapter registry = Dict.put adapter.name adapter registry

  unfoldable pub get : Option String → SiteAdapterRegistry W → Option (SiteAdapter W)
  get none registry = none
  get (some name) registry = Dict.get name registry

  -- The loop over `self._adapters.values()`.
  first_able : String → List (SiteAdapter W) → Option (SiteAdapter W)
  first_able url [] = none
  first_able url (candidate ∷ adapters) =
      let rest = first_able url adapters in
      if candidate.can_handle url then some candidate else rest

  unfoldable pub resolve : String → Option String → SiteAdapterRegistry W → Option (SiteAdapter W)
  unfolding get first_able
  resolve url name registry = elim (get name registry) [
    | some adapter ↦ some adapter
    | none ↦ first_able url (Dict.values registry)
  ]
