-- ===== src/Crawler/BrowserPages/Order.antt =====
-- src/AgentCrawler/src/agent_crawler/fetch/browser_registry.py: the references that an eviction picks.
use sth_boring.Base.{
  ℕ, zero, suc, ◌≤◌, String, List, [], ◌∷◌, true, false, length, leb, ◌≡◌, refl, arith, ◌==◌,
  eq_iff, eq_sym, All, Bool-cases, inl, inr, ap, ◌∙◌,
}
use sth_boring.Base.Dict
use sth_boring.Base.Dict.{Dict}
use sth_boring.Base.Dict.Keys.{Fresh, IsMap}
use sth_boring.Crawler.BrowserPages.{BrowserPageHandle, insert_by_access, by_access, first_refs}

-- No text stands twice.
abbrev pub AreDistinct : List String → Type 0
AreDistinct [] = Unit
AreDistinct (k ∷ ks) = All (λ j. (j == k) ≡ false) ks × AreDistinct ks

module _ {P C : Type 0} where
  Fresh-insert :
      (k : String) (e : String × BrowserPageHandle P C) (d : Dict (BrowserPageHandle P C))
      → (e.0 == k) ≡ false
      → Fresh k d
      → Fresh k (insert_by_access e d)
  unfolding insert_by_access
  Fresh-insert k e [] q h = (q, tt)
  Fresh-insert k e (x ∷ d) q (h, hs) =
      elim (Bool-cases (leb e.1.last_accessed_at x.1.last_accessed_at)) [
        | inl l ↦ rw l (q, (h, hs))
        | inr l ↦ rw l (h, Fresh-insert k e d q hs)
      ]

  insert-IsMap :
      (e : String × BrowserPageHandle P C) (d : Dict (BrowserPageHandle P C))
      → Fresh e.0 d
      → IsMap d
      → IsMap (insert_by_access e d)
  unfolding insert_by_access
  insert-IsMap e [] f h = (tt, tt)
  insert-IsMap e (x ∷ d) (q, f) (g, h) =
      elim (Bool-cases (leb e.1.last_accessed_at x.1.last_accessed_at)) [
        | inl l ↦ rw l ((q, f), (g, h))
        | inr l ↦ rw l (Fresh-insert x.0 e d (eq_sym e.0 x.0 ∙ q) g, insert-IsMap e d f h)
      ]

  Fresh-by_access :
      (k : String) (d : Dict (BrowserPageHandle P C)) → Fresh k d → Fresh k (by_access d)
  unfolding by_access
  Fresh-by_access k [] h = tt
  Fresh-by_access k (x ∷ d) (q, h) = Fresh-insert k x (by_access d) q (Fresh-by_access k d h)

  pub by_access-IsMap : (d : Dict (BrowserPageHandle P C)) → IsMap d → IsMap (by_access d)
  unfolding by_access
  by_access-IsMap [] h = tt
  by_access-IsMap (x ∷ d) (f, h) =
      insert-IsMap x (by_access d) (Fresh-by_access x.0 d f) (by_access-IsMap d h)

  insert-length :
      (e : String × BrowserPageHandle P C) (d : Dict (BrowserPageHandle P C))
      → length (insert_by_access e d) ≡ suc (length d)
  unfolding insert_by_access
  insert-length e [] = refl
  insert-length e (x ∷ d) = ground (arith, insert-length e d)

  pub by_access-length : (d : Dict (BrowserPageHandle P C)) → length (by_access d) ≡ length d
  unfolding by_access
  by_access-length [] = refl
  by_access-length (x ∷ d) = insert-length x (by_access d) ∙ ap suc (by_access-length d)

  pub first_refs-length :
      (n : ℕ) (d : Dict (BrowserPageHandle P C)) → n ≤ length d → length (first_refs n d) ≡ n
  unfolding first_refs
  first_refs-length zero d h = refl
  first_refs-length (suc n) [] h = omega arith
  first_refs-length (suc n) (x ∷ d) h = omega (arith, first_refs-length n d (omega arith))

  first_refs-Fresh :
      (k : String) (n : ℕ) (d : Dict (BrowserPageHandle P C))
      → Fresh k d
      → All (λ j. (j == k) ≡ false) (first_refs n d)
  unfolding first_refs
  first_refs-Fresh k zero d h = tt
  first_refs-Fresh k (suc n) [] h = tt
  first_refs-Fresh k (suc n) (x ∷ d) (q, h) = (q, first_refs-Fresh k n d h)

  pub first_refs-AreDistinct :
      (n : ℕ) (d : Dict (BrowserPageHandle P C)) → IsMap d → AreDistinct (first_refs n d)
  unfolding first_refs
  first_refs-AreDistinct zero d h = tt
  first_refs-AreDistinct (suc n) [] h = tt
  first_refs-AreDistinct (suc n) (x ∷ d) (f, h) =
      (first_refs-Fresh x.0 n d f, first_refs-AreDistinct n d h)

  -- Every key of `refs` is one of `d`.
  abbrev pub AreKeys : List String → Dict (BrowserPageHandle P C) → Type 0
  AreKeys refs d = All (λ k. Dict.has k d ≡ true) refs

  abbrev pub HaveKeys : (d' d : Dict (BrowserPageHandle P C)) → Type 0
  HaveKeys d' d = All (λ e. Dict.has e.0 d ≡ true) d'

  HaveKeys-cons :
      (x : String × BrowserPageHandle P C) (d' d : Dict (BrowserPageHandle P C))
      → HaveKeys d' d
      → HaveKeys d' (x ∷ d)
  unfolding Dict.has Dict.get
  HaveKeys-cons x [] d h = tt
  HaveKeys-cons x (e ∷ d') d (q, h) = (ground arith, HaveKeys-cons x d' d h)

  HaveKeys-insert :
      (e : String × BrowserPageHandle P C) (d' d : Dict (BrowserPageHandle P C))
      → Dict.has e.0 d ≡ true
      → HaveKeys d' d
      → HaveKeys (insert_by_access e d') d
  unfolding insert_by_access
  HaveKeys-insert e [] d q h = (q, tt)
  HaveKeys-insert e (x ∷ d') d q (p, h) =
      elim (Bool-cases (leb e.1.last_accessed_at x.1.last_accessed_at)) [
        | inl l ↦ rw l (q, (p, h))
        | inr l ↦ rw l (p, HaveKeys-insert e d' d q h)
      ]

  found :
      (x : String × BrowserPageHandle P C) (d : Dict (BrowserPageHandle P C))
      → Dict.has x.0 (x ∷ d) ≡ true
  unfolding Dict.has Dict.get
  found x d = ground (arith, eq_iff x.0 x.0)

  pub by_access-HaveKeys : (d : Dict (BrowserPageHandle P C)) → HaveKeys (by_access d) d
  unfolding by_access
  by_access-HaveKeys [] = tt
  by_access-HaveKeys (x ∷ d) =
      HaveKeys-insert x (by_access d) (x ∷ d) (found x d)
        (HaveKeys-cons x (by_access d) d (by_access-HaveKeys d))

  pub first_refs-AreKeys :
      (n : ℕ) (d' d : Dict (BrowserPageHandle P C)) → HaveKeys d' d → AreKeys (first_refs n d') d
  unfolding first_refs
  first_refs-AreKeys zero d' d h = tt
  first_refs-AreKeys (suc n) [] d h = tt
  first_refs-AreKeys (suc n) (x ∷ d') d (q, h) = (q, first_refs-AreKeys n d' d h)
