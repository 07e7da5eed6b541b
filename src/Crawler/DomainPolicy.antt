-- ===== src/Crawler/DomainPolicy.antt =====
-- src/AgentCrawler/src/agent_crawler/policy/domain_policy.py: policies by domain, with wildcards.

use Prim.Native.Char.{code}
use sth_boring.Base.{
  String, List, [], ◌∷◌, Option, none, some, Bool, or_default, if◌then◌else◌, nat_eq, ◌<>◌, join,
}
use sth_boring.Base.Dict
use sth_boring.Base.Dict.{Dict}
use sth_boring.Base.Int.{ℤ}

pub record DomainPolicy : Type 0 where
  pub domain : String
  pub prefer_browser : Bool
  pub requires_auth : Bool
  pub adapter_name : Option String
  pub prefer_profile : Bool
  pub allow_llm_gate : Bool
  pub allow_llm_render : Bool
  pub result_cache_ttl_s : ℤ
  pub http_cache_ttl_s : ℤ

pub record DomainPolicyRegistry : Type 0 where
  pub default_policy : DomainPolicy
  pub policies : Dict DomainPolicy

-- The first part gets one more character.
push : String → List String → List String
push c [] = c ∷ []
push c (p ∷ ps) = (c <> p) ∷ ps

-- `host.split(".")`
split_dots : String → List String
unfolding push
split_dots String.[] = "" ∷ []
split_dots (String.◌∷◌ c s) =
    let rest = split_dots s in if nat_eq (code c) 46 then "" ∷ rest else push (String.◌∷◌ c "") rest

-- The loop over `parts[idx:]`, as long as it has two parts.
find_wildcard : Dict DomainPolicy → List String → Option DomainPolicy
find_wildcard policies [] = none
find_wildcard policies (p ∷ []) = none
find_wildcard policies (p ∷ q ∷ ps) =
    let rest = find_wildcard policies (q ∷ ps) in
    elim (Dict.get ("*." <> join "." (p ∷ q ∷ ps)) policies) [ some x ↦ some x | none ↦ rest ]

-- `parts[1:]`
drop_first : List String → List String
drop_first [] = []
drop_first (p ∷ ps) = ps

-- `lower` is `str.lower`, and `host` is `urlparse(url).netloc.lower()`.
unfoldable pub register :
    (String → String) → DomainPolicy → DomainPolicyRegistry → DomainPolicyRegistry
register lower policy registry = record registry {
  policies = Dict.put (lower policy.domain) policy registry.policies;
}

unfoldable pub resolve : DomainPolicyRegistry → String → DomainPolicy
unfolding split_dots find_wildcard drop_first
resolve registry host = elim (Dict.get host registry.policies) [
  | some policy ↦ policy
  | none ↦
      or_default registry.default_policy
        (find_wildcard registry.policies (drop_first (split_dots host)))
]
