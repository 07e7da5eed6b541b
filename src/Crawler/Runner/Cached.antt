-- ===== src/Crawler/Runner/Cached.antt =====
-- src/AgentCrawler/src/agent_crawler/loop/runner.py: the bundles in the cache have passed the
-- checks of an attempt.
use sth_boring.Base.{
  ℕ, String, [], ◌∷◌, Option, none, some, true, Result, ok, raise, or_default, length,
}
use sth_boring.Base.Dict.{Dict}
use sth_boring.Base.Int.{ℤ, pos, int_lt}
use sth_boring.Crawler.Models.{CrawlResultBundle}
use sth_boring.Crawler.ResultCache.{ResultCache}
use sth_boring.Base.{◌≡◌, refl, Bool-cases, inl, inr, arith, subst}
use sth_boring.Base.Dict
use sth_boring.Base.Int.{scaled}
use sth_boring.Crawler.ResultCache.{
  CacheEntry, use_entry, move_to_end, trim, put, get, write_through, with_items, later,
}

-- The page was answered with a status below 400, and its document has passed the assessment.
abbrev pub IsGood : CrawlResultBundle → Type 0
IsGood b = (b.quality.is_ok ≡ true) × (int_lt b.fetched.status_code (pos 400) ≡ true)

abbrev pub AreGood : Dict CacheEntry → Type 0
AreGood items = Dict.Every (λ e. IsGood e.bundle) items

move_to_end-AreGood :
    (key : String) (e : CacheEntry) (items : Dict CacheEntry)
    → IsGood e.bundle
    → AreGood items
    → AreGood (move_to_end key e items)
unfolding move_to_end
move_to_end-AreGood key e items g h =
    Dict.Every-append _ key e (Dict.remove key items) g (Dict.Every-remove _ key items h)

trim-AreGood :
    (m : ℤ) (items kept : Dict CacheEntry) → AreGood items → trim m items ≡ ok kept → AreGood kept
unfolding trim
trim-AreGood m [] kept h e = elim (Bool-cases (int_lt m (pos 0))) [
  | inl q ↦ absurd (ground arith)
  | inr q ↦ let same : [] ≡ kept = ground arith in subst AreGood same tt
]
trim-AreGood m (d ∷ items) kept h e = elim (Bool-cases (int_lt m (pos (length (d ∷ items))))) [
  | inl q ↦ trim-AreGood m items kept h.1 (ground arith)
  | inr q ↦ let same : d ∷ items ≡ kept = ground arith in subst AreGood same h
]

use_entry-AreGood :
    (now : ℕ) (key : String) (cache : ResultCache) (e : CacheEntry)
    → AreGood cache.items
    → IsGood e.bundle
    → AreGood (use_entry now key cache (some e)).1.items
unfolding use_entry
use_entry-AreGood now key cache e h g = elim (Bool-cases (int_lt e.expires_at (pos now))) [
  | inl q ↦ rw q (Dict.Every-remove _ key cache.items h)
  | inr q ↦ rw q (move_to_end-AreGood key e cache.items g h)
]

use_entry-bundle :
    (now : ℕ) (key : String) (cache : ResultCache) (e : CacheEntry) (b : CrawlResultBundle)
    → (use_entry now key cache (some e)).0 ≡ some b
    → e.bundle ≡ b
unfolding use_entry
use_entry-bundle now key cache e b h = elim (Bool-cases (int_lt e.expires_at (pos now))) [
  | inl q ↦ absurd (ground arith)
  | inr q ↦ ground arith
]

-- What a lookup leaves and finds.
pub get-AreGood :
    (now : ℕ) (key : String) (cache : ResultCache)
    → AreGood cache.items
    → AreGood (get now key cache).1.items
      × ((b : CrawlResultBundle) → (get now key cache).0 ≡ some b → IsGood b)
unfolding get use_entry
get-AreGood now key cache h = looked (Dict.get key cache.items) refl
  where
    looked :
        (o : Option CacheEntry)
        → Dict.get key cache.items ≡ o
        → AreGood (use_entry now key cache o).1.items
          × ((b : CrawlResultBundle) → (use_entry now key cache o).0 ≡ some b → IsGood b)
    looked none e = (h, λ b q. absurd cc)
    looked (some entry) e =
        let g = Dict.Every-get _ key cache.items entry h e in
        (
          use_entry-AreGood now key cache entry h g,
          λ b q. subst IsGood (use_entry-bundle now key cache entry b q) g,
        )

pub put-AreGood :
    (now : ℕ) (key : String) (b : CrawlResultBundle) (ttl_s : Option ℤ) (cache after : ResultCache)
    → AreGood cache.items
    → IsGood b
    → put now key b ttl_s cache ≡ ok after
    → AreGood after.items
unfolding put
put-AreGood now key b ttl_s cache after h g e = trimmed (trim _ _) refl e
  where
    entry : CacheEntry
    entry = record {
      bundle = b;
      expires_at = later now (scaled (or_default cache.ttl_s ttl_s) 1000000);
    }

    trimmed :
        (r : Result (Dict CacheEntry))
        → trim cache.max_entries (move_to_end key entry cache.items) ≡ r
        → with_items cache r ≡ ok after
        → AreGood after.items
    trimmed (raise x) q e = absurd cc
    trimmed (ok kept) q e =
        let same : record cache { items = kept } ≡ after = cc in
        subst (λ c. AreGood c.items) same
          (trim-AreGood _ _ kept (move_to_end-AreGood key entry cache.items g h) q)

pub write_through-AreGood :
    (key : String) (b : CrawlResultBundle) (cache : ResultCache)
    → AreGood cache.items
    → IsGood b
    → AreGood (write_through key b cache).items
unfolding write_through
write_through-AreGood key b cache h g =
    elim (Dict.get key cache.items)
      as (λ o.
        AreGood
          (elim o as (λ _. ResultCache) [
            | none ↦ cache
            | some entry ↦ record cache {
              items = Dict.put key (record entry { bundle = b }) cache.items;
            }
          ]).items) [
            | none ↦ h
            | some entry ↦ Dict.Every-put _ key (record entry { bundle = b }) cache.items g h
          ]
