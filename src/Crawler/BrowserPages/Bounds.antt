-- ===== src/Crawler/BrowserPages/Bounds.antt =====
-- src/AgentCrawler/src/agent_crawler/fetch/browser_registry.py: the registry tracks no more pages
-- than it may.
use sth_boring.Base.{
  suc, ◌-◌, ◌+◌, ◌≤◌, String, List, [], ◌∷◌, Option, none, some, true, false, length, ◌≡◌, refl,
  arith, ◌==◌, eq_sym, All, Bool-cases, inl, inr, ◌∙◌, subst,
}
use sth_boring.Base.Dict
use sth_boring.Base.Dict.{Dict}
use sth_boring.Base.Dict.Keys.{
  IsMap, remove-IsMap, put-IsMap, remove-length, remove_found-length, put_found-length,
}
use sth_boring.Base.Int.{ℤ, at_least_one}
use sth_boring.Crawler.BrowserPages.{
  BrowserPageHandle, NewPage, Browser, BrowserPageRegistry, new_registry, by_access, first_refs,
  close_popped, close_refs, sweep_expired, expired_refs, evict_if_needed, add_page, register,
  use_handle, get, close, close_all, is_expired, apply, apply_all, Operation, registering, getting,
  closing, sweeping, closing_all,
}
use sth_boring.Crawler.BrowserPages.Order.{
  AreDistinct, AreKeys, by_access-IsMap, by_access-length, first_refs-length,
  first_refs-AreDistinct, by_access-HaveKeys, first_refs-AreKeys,
}

-- No reference is tracked twice, and at most `max_open_pages` pages are tracked.
abbrev pub IsBounded : {W P C : Type 0} → BrowserPageRegistry W P C → Type 0
IsBounded s = IsMap s.pages × (length s.pages ≤ s.max_open_pages)

-- The pages are a map, no more than before, and the bound is the same.
abbrev Shrinks : {W P C : Type 0} → BrowserPageRegistry W P C → BrowserPageRegistry W P C → Type 0
Shrinks s s' =
    IsMap s'.pages × (length s'.pages ≤ length s.pages) × (s'.max_open_pages ≡ s.max_open_pages)

module _ {W P C : Type 0} (browser : Browser W P C) where
  has-found :
      (k : String) (handle : BrowserPageHandle P C) (d : Dict (BrowserPageHandle P C))
      → Dict.get k d ≡ some handle
      → Dict.has k d ≡ true
  unfolding Dict.has
  has-found k handle d e = rw e refl

  close_popped-Shrinks :
      (k : String) (o : Option (BrowserPageHandle P C)) (s : BrowserPageRegistry W P C)
      → IsMap s.pages
      → Shrinks s (close_popped browser k o s)
  unfolding close_popped
  close_popped-Shrinks k none s h = (h, omega arith, refl)
  close_popped-Shrinks k (some handle) s h =
      (remove-IsMap k s.pages h, remove-length k s.pages, refl)

  close_refs-Shrinks :
      (refs : List String) (s : BrowserPageRegistry W P C)
      → IsMap s.pages
      → Shrinks s (close_refs browser refs s)
  unfolding close_refs
  close_refs-Shrinks [] s h = (h, omega arith, refl)
  close_refs-Shrinks (k ∷ refs) s h =
      let (h1, le1, e1) = close_popped-Shrinks k (Dict.get k s.pages) s h in
      let (h2, le2, e2) = close_refs-Shrinks refs _ h1 in (h2, omega arith, e2 ∙ e1)

  keys-remain :
      (k : String) (refs : List String) (d : Dict (BrowserPageHandle P C))
      → All (λ j. (j == k) ≡ false) refs
      → AreKeys refs d
      → AreKeys refs (Dict.remove k d)
  unfolding Dict.has
  keys-remain k [] d h a = tt
  keys-remain k (j ∷ refs) d (q, h) (p, a) =
      let kept = Dict.get-remove k j d in
      let gone = eq_sym k j ∙ q in (rw (kept, gone) p, keys-remain k refs d h a)

  -- Distinct references of tracked pages are each removed.
  close_refs-length :
      (refs : List String) (s : BrowserPageRegistry W P C)
      → AreDistinct refs
      → AreKeys refs s.pages
      → length (close_refs browser refs s).pages + length refs ≤ length s.pages
  unfolding close_refs close_popped Dict.has
  close_refs-length [] s d a = omega arith
  close_refs-length (k ∷ refs) s (f, d) (p, a) =
      popped (Dict.get k s.pages) refl (close_refs-length refs) f d p a
    where
      popped :
          (o : Option (BrowserPageHandle P C))
          → Dict.get k s.pages ≡ o
          → ((s : BrowserPageRegistry W P C)
              → AreDistinct refs
              → AreKeys refs s.pages
              → length (close_refs browser refs s).pages + length refs ≤ length s.pages)
          → All (λ j. (j == k) ≡ false) refs
          → AreDistinct refs
          → Dict.has k s.pages ≡ true
          → AreKeys refs s.pages
          → length (close_refs browser refs (close_popped browser k o s)).pages + suc (length refs)
            ≤ length s.pages
      popped none e ih f d p a = absurd (ground arith)
      popped (some handle) e ih f d p a =
          let shorter = remove_found-length k s.pages p in
          let rest =
            ih (close_popped browser k (some handle) s) d (keys-remain k refs s.pages f a) in
          omega arith

  sweep_expired-Shrinks :
      (s : BrowserPageRegistry W P C) → IsMap s.pages → Shrinks s (sweep_expired browser s).1
  unfolding sweep_expired
  sweep_expired-Shrinks s h =
      let (refs, w) = expired_refs browser s.pages s.outside in
      close_refs-Shrinks refs (record s { outside = w }) h

  -- An eviction leaves no more pages than the bound.
  evict-IsBounded :
      (s : BrowserPageRegistry W P C)
      → IsMap s.pages
      → IsBounded (evict_if_needed browser s)
        × ((evict_if_needed browser s).max_open_pages ≡ s.max_open_pages)
  unfolding evict_if_needed
  evict-IsBounded s h =
      let n = length s.pages - s.max_open_pages in
      let refs = first_refs n (by_access s.pages) in
      let (h', le, e) = close_refs-Shrinks refs s h in
      let popped =
        close_refs-length refs s
          (first_refs-AreDistinct n (by_access s.pages) (by_access-IsMap s.pages h))
          (first_refs-AreKeys n (by_access s.pages) s.pages (by_access-HaveKeys s.pages)) in
      let count =
        first_refs-length n (by_access s.pages) (omega (arith, by_access-length s.pages)) in
      ((h', omega arith), e)

  add_page-IsMap :
      (new : NewPage P C) (s : BrowserPageRegistry W P C)
      → IsMap s.pages
      → IsMap (add_page browser new s).1.pages
        × ((add_page browser new s).1.max_open_pages ≡ s.max_open_pages)
  unfolding add_page
  add_page-IsMap new s h = (put-IsMap _ _ s.pages h, refl)

  register-IsBounded :
      (new : NewPage P C) (s : BrowserPageRegistry W P C)
      → IsMap s.pages
      → IsBounded (register browser new s).1
        × ((register browser new s).1.max_open_pages ≡ s.max_open_pages)
  unfolding register
  register-IsBounded new s h =
      let (h1, le1, e1) = sweep_expired-Shrinks s h in
      let (h2, e2) = add_page-IsMap new _ h1 in
      let (b, e3) = evict-IsBounded _ h2 in (b, e3 ∙ e2 ∙ e1)

  Shrinks-IsBounded : (s s' : BrowserPageRegistry W P C) → IsBounded s → Shrinks s s' → IsBounded s'
  Shrinks-IsBounded s s' (h, le) (h', le', e) = (h', omega arith)

  use_handle-Shrinks :
      (k : String) (o : Option (BrowserPageHandle P C)) (s : BrowserPageRegistry W P C)
      → IsMap s.pages
      → Dict.get k s.pages ≡ o
      → Shrinks s (use_handle browser k o s).1
  unfolding use_handle close_popped
  use_handle-Shrinks k none s h e = (h, omega arith, refl)
  use_handle-Shrinks k (some handle) s h e =
      elim (Bool-cases (is_expired browser handle s.outside).0) [
        | inl q ↦ rw q (
            close_popped-Shrinks k (some handle)
              (record s { outside = (is_expired browser handle s.outside).1 }) h)
        | inr q ↦ rw q (
          put-IsMap k _ s.pages h,
          omega (arith, put_found-length k _ s.pages (has-found k handle s.pages e)),
          refl,
        )
      ]

  get-Shrinks :
      (page_ref : String) (s : BrowserPageRegistry W P C)
      → IsMap s.pages
      → Shrinks s (get browser page_ref s).1
  unfolding get
  get-Shrinks page_ref s h = use_handle-Shrinks page_ref (Dict.get page_ref s.pages) s h refl

  -- A use keeps the bound, and does not change it.
  apply-IsBounded :
      (operation : Operation P C) (s : BrowserPageRegistry W P C)
      → IsBounded s
      → IsBounded (apply browser operation s)
        × ((apply browser operation s).max_open_pages ≡ s.max_open_pages)
  unfolding close close_all
  apply-IsBounded (registering new) s (h, le) = register-IsBounded new s h
  apply-IsBounded (getting page_ref) s (h, le) =
      let kept = get-Shrinks page_ref s h in
      (Shrinks-IsBounded s (get browser page_ref s).1 (h, le) kept, kept.2)
  apply-IsBounded (closing page_ref) s (h, le) =
      let kept = close_popped-Shrinks page_ref (Dict.get page_ref s.pages) s h in
      (Shrinks-IsBounded s (close browser page_ref s).1 (h, le) kept, kept.2)
  apply-IsBounded sweeping s (h, le) =
      let kept = sweep_expired-Shrinks s h in
      (Shrinks-IsBounded s (sweep_expired browser s).1 (h, le) kept, kept.2)
  apply-IsBounded closing_all s (h, le) = ((tt, omega arith), refl)

  apply_all-IsBounded :
      (operations : List (Operation P C)) (s : BrowserPageRegistry W P C)
      → IsBounded s
      → IsBounded (apply_all browser operations s)
        × ((apply_all browser operations s).max_open_pages ≡ s.max_open_pages)
  unfolding apply_all
  apply_all-IsBounded [] s h = (h, refl)
  apply_all-IsBounded (operation ∷ operations) s h =
      let (h', e) = apply-IsBounded operation s h in
      let (h'', e') = apply_all-IsBounded operations _ h' in (h'', e' ∙ e)

-- However a new registry is used, it never tracks more than `max(1, max_open_pages)` pages, nor a
-- reference twice.
pub new_registry-IsBounded :
    {W P C : Type 0} (browser : Browser W P C) (w : W) (max_open_pages default_ttl_s : ℤ)
    (operations : List (Operation P C))
    → IsMap (apply_all browser operations (new_registry w max_open_pages default_ttl_s)).pages
      × (length (apply_all browser operations (new_registry w max_open_pages default_ttl_s)).pages
          ≤ at_least_one max_open_pages)
new_registry-IsBounded browser w max_open_pages default_ttl_s operations =
    let ((h, le), e) =
      apply_all-IsBounded browser operations (new_registry w max_open_pages default_ttl_s)
        (tt, omega arith) in
    (
      h,
      subst
          (λ m.
            length
              (apply_all browser operations (new_registry w max_open_pages default_ttl_s)).pages
            ≤ m)
          e le,
    )
