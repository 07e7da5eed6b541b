-- ===== src/Crawler/ResultCache.antt =====
-- src/AgentCrawler/src/agent_crawler/fetch/result_cache.py: an ordered map with expiry times and a
-- bound on its size, the entry used last at the end. Clock readings and expiry times are whole
-- microseconds; `make_key` separates its parts by bars.
pub mod Lookup
use Prim.Native.Nat.{ℕ}
use sth_boring.Base.{
  String, List, [], ◌∷◌, ◌++◌, Option, none, some, Bool, true, false, Result, ok, raise, length,
  if◌then◌else◌, ◌<>◌, or_text, or_default, suc, leb, ◌+◌, ◌-◌,
}
use sth_boring.Base.Dict
use sth_boring.Base.Dict.{Dict}
use sth_boring.Base.Int.{ℤ, pos, negsuc, int_lt, scaled}
use sth_boring.Crawler.Enums.{transport_value, extract_value}
use sth_boring.Crawler.Models.{CrawlRequest, CrawlPlan, CrawlResultBundle}

pub record CacheEntry : Type 0 where
  pub bundle : CrawlResultBundle
  pub expires_at : ℤ

pub record ResultCache : Type 0 where
  pub ttl_s : ℤ
  pub max_entries : ℤ
  pub items : Dict CacheEntry

-- `n + k`
abbrev pub later : ℕ → ℤ → ℤ
later n (pos k) = pos (n + k)
later n (negsuc k) = if leb (suc k) n then pos (n - suc k) else negsuc (k - n)

unfoldable pub make_key : CrawlRequest → CrawlPlan → String
make_key request plan =
    request.url
    <> "|"
    <> or_text request.query ""
    <> "|"
    <> request.auth_profile_id
    <> "|"
    <> transport_value plan.transport
    <> "|"
    <> extract_value plan.extract_kind
    <> "|"
    <> or_text plan.adapter_name ""

-- `self._items[key] = entry` and `self._items.move_to_end(key)`
unfoldable pub move_to_end : String → CacheEntry → Dict CacheEntry → Dict CacheEntry
move_to_end key entry items = Dict.remove key items ++ (key, entry) ∷ []

-- `get` at the time `now`, after the lookup: the bundle, and the cache after it.
unfoldable pub use_entry :
    ℕ → String → ResultCache → Option CacheEntry → Option CrawlResultBundle × ResultCache
unfolding move_to_end
use_entry now key cache none = (none, cache)
use_entry now key cache (some entry) =
    if int_lt entry.expires_at (pos now)
    then (none, record cache { items = Dict.remove key cache.items })
    else (some entry.bundle, record cache { items = move_to_end key entry cache.items })

unfoldable pub get : ℕ → String → ResultCache → Option CrawlResultBundle × ResultCache
get now key cache = use_entry now key cache (Dict.get key cache.items)

-- `while len(self._items) > self.max_entries: self._items.popitem(last=False)`, where `popitem` of
-- an empty map raises.
unfoldable pub trim : ℤ → Dict CacheEntry → Result (Dict CacheEntry)
trim max_entries [] =
    if int_lt max_entries (pos 0)
    then raise (record { class_name = "KeyError"; message = "'dictionary is empty'" })
    else ok []
trim max_entries (e ∷ items) =
    let rest = trim max_entries items in
    if int_lt max_entries (pos (length (e ∷ items))) then rest else ok (e ∷ items)

abbrev pub with_items : ResultCache → Result (Dict CacheEntry) → Result ResultCache
with_items cache (ok items) = ok (record cache { items = items })
with_items cache (raise e) = raise e

-- `put` at the time `now`
unfoldable pub put : ℕ → String → CrawlResultBundle → Option ℤ → ResultCache → Result ResultCache
unfolding move_to_end
put now key bundle ttl_s cache =
    let entry : CacheEntry = record {
      bundle = bundle;
      expires_at = later now (scaled (or_default cache.ttl_s ttl_s) 1000000);
    } in
    with_items cache (trim cache.max_entries (move_to_end key entry cache.items))

unfoldable pub clear : ResultCache → ResultCache
clear cache = record cache { items = [] }

-- The bundle that the map holds under `key` is one object with the bundle that `get` returned: a
-- write to its fields is seen in the map.
unfoldable pub write_through : String → CrawlResultBundle → ResultCache → ResultCache
write_through key bundle cache = elim (Dict.get key cache.items) [
  | none ↦ cache
  | some entry ↦ record cache {
    items = Dict.put key (record entry { bundle = bundle }) cache.items;
  }
]
