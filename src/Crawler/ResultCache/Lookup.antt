-- ===== src/Crawler/ResultCache/Lookup.antt =====
-- src/AgentCrawler/src/agent_crawler/fetch/result_cache.py: what `put` stores and what it drops.
use sth_boring.Base.{
  ℕ, String, [], ◌∷◌, ◌++◌, Option, none, some, ok, length, ◌≡◌, refl, arith, ◌≤◌, suc,
  if◌then◌else◌, ltb, leb, Bool-cases, inl, inr, ◌∙◌, eq_refl, or_default, ap, subst, sym,
}
use sth_boring.Base.Dict
use sth_boring.Base.Dict.{Dict}
use sth_boring.Base.Int.{ℤ, pos, int_lt, scaled}
use sth_boring.Crawler.Models.{CrawlResultBundle}
use sth_boring.Crawler.ResultCache.{
  CacheEntry, ResultCache, trim, put, get, use_entry, move_to_end, later,
}

-- The loop of `trim` reads a bound from below.
above : (m n : ℕ) → int_lt (pos m) (pos n) ≡ ltb m n
above m n = ground arith

trim-keeps : (m : ℕ) (items : Dict CacheEntry) → length items ≤ m → trim (pos m) items ≡ ok items
unfolding trim
trim-keeps m [] h = ground arith
trim-keeps m (e ∷ items) h = ground arith

trim-drops :
    (m : ℕ) (e : String × CacheEntry) (items : Dict CacheEntry)
    → suc m ≤ length (e ∷ items)
    → trim (pos m) (e ∷ items) ≡ trim (pos m) items
unfolding trim
trim-drops m e items h = ground arith

-- The trimmed map has at most `m` entries.
trim-bound :
    (m : ℕ) (items : Dict CacheEntry)
    → (kept : Dict CacheEntry) × (trim (pos m) items ≡ ok kept) × (length kept ≤ m)
trim-bound m [] = ([], trim-keeps m [] (omega arith), omega arith)
trim-bound m (e ∷ items) = elim (Bool-cases (leb (length (e ∷ items)) m)) [
  | inl fits ↦ (e ∷ items, trim-keeps m (e ∷ items) (ground arith), ground arith)
  | inr over ↦
      let (kept, eq, small) = trim-bound m items in
      (kept, trim-drops m e items (ground arith) ∙ eq, small)
]

-- The entry at the end is kept, if one entry may be, and no entry is added.
trim-last :
    (m : ℕ) (items : Dict CacheEntry) (e : String × CacheEntry) (key : String)
    → Dict.get key items ≡ none
    → (kept : Dict CacheEntry) × (trim (pos (suc m)) (items ++ e ∷ []) ≡ ok (kept ++ e ∷ []))
      × (Dict.get key kept ≡ none)
unfolding Dict.get
trim-last m [] e key h = ([], trim-keeps (suc m) (e ∷ []) (omega arith), refl)
trim-last m (d ∷ items) e key h = elim (Bool-cases (leb (length (d ∷ items ++ e ∷ [])) (suc m))) [
  | inl fits ↦ (d ∷ items, trim-keeps (suc m) (d ∷ items ++ e ∷ []) (ground arith), h)
  | inr over ↦
      let (kept, eq, gone) = trim-last m items e key (ground arith) in
      (kept, trim-drops (suc m) d (items ++ e ∷ []) (ground arith) ∙ eq, gone)
]

get-at_end :
    (key : String) (e : CacheEntry) (items : Dict CacheEntry)
    → Dict.get key items ≡ none
    → Dict.get key (items ++ (key, e) ∷ []) ≡ some e
unfolding Dict.get
get-at_end key e [] h = rw (eq_refl key) refl
get-at_end key e ((k, d) ∷ items) h = ground (arith, get-at_end key e items)

get-removed : (key : String) (items : Dict CacheEntry) → Dict.get key (Dict.remove key items) ≡ none
get-removed key items = Dict.get-remove key key items ∙ rw (eq_refl key) refl

ok-injective : {a b : Dict CacheEntry} → ok a ≡ ok b → a ≡ b
ok-injective e = cc

trim-small : (m : ℕ) (items kept : Dict CacheEntry) → trim (pos m) items ≡ ok kept → length kept ≤ m
trim-small m items kept e =
    let (kept', e', small) = trim-bound m items in
    subst (λ xs. length xs ≤ m) (ok-injective (sym e' ∙ e)) small

-- The bundle, unless it has expired.
get-found :
    (now : ℕ) (key : String) (entry : CacheEntry) (cache : ResultCache)
    → Dict.get key cache.items ≡ some entry
    → (get now key cache).0
      ≡ (if int_lt entry.expires_at (pos now) then none else some entry.bundle)
unfolding get use_entry
get-found now key entry cache found =
    ap (λ o. (use_entry now key cache o).0) found
    ∙ elim (Bool-cases (int_lt entry.expires_at (pos now))) [
      | inl h ↦ rw h refl
      | inr h ↦ rw h refl
    ]

-- A write to a cache of at least one entry does not raise and keeps the bound. A lookup of the key
-- then finds the bundle until its time to live is over, and nothing afterwards.
pub get-put :
    (cache : ResultCache) (m : ℕ) (key : String) (bundle : CrawlResultBundle) (ttl_s : Option ℤ)
    (now then_ : ℕ)
    → cache.max_entries ≡ pos (suc m)
    → (after : ResultCache) × (put now key bundle ttl_s cache ≡ ok after)
      × (length after.items ≤ suc m)
      × ((get then_ key after).0 ≡ (
          if int_lt (later now (scaled (or_default cache.ttl_s ttl_s) 1000000)) (pos then_)
          then none
          else some bundle))
unfolding put move_to_end
get-put cache m key bundle ttl_s now then_ bound =
    let (kept, eq, gone) =
      trim-last m (Dict.remove key cache.items) (key, entry) key (get-removed key cache.items) in
    let after : ResultCache = record cache { items = kept ++ (key, entry) ∷ [] } in
    (
      after,
      rw (bound, eq) refl,
      trim-small (suc m) (Dict.remove key cache.items ++ (key, entry) ∷ []) after.items eq,
      get-found then_ key entry after (get-at_end key entry kept gone),
    )
  where
    entry : CacheEntry
    entry = record {
      bundle = bundle;
      expires_at = later now (scaled (or_default cache.ttl_s ttl_s) 1000000);
    }
