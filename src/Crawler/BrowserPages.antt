-- ===== src/Crawler/BrowserPages.antt =====
-- src/AgentCrawler/src/agent_crawler/fetch/browser_registry.py: the open browser pages. A page and
-- a context are objects of the browser, and to close one may raise. The lock of the source lets one
-- operation run at a time, so that a use of the registry is a sequence of operations. Clock
-- readings are whole microseconds.
pub mod Order
pub mod Bounds
use sth_boring.Base.{
  ℕ, zero, suc, ◌-◌, String, List, [], ◌∷◌, Option, none, some, Bool, true, false, if◌then◌else◌,
  length, ◌<>◌, leb, ltb, or_default,
}
use sth_boring.Base.Dict
use sth_boring.Base.Dict.{Dict}
use sth_boring.Base.Int.{ℤ, pos, is_positive, int_lt, scaled, at_least_one}
use sth_boring.Base.Steps.{Action}

module _ (P C : Type 0) where
  pub record BrowserPageHandle : Type 0 where
    pub page_ref : String
    pub context_ref : String
    pub page : P
    pub context : C
    pub url : String
    pub final_url : String
    pub domain : Option String
    pub auth_profile_id : Option String
    pub owner_run_id : Option String
    pub created_at : ℕ
    pub last_accessed_at : ℕ
    pub ttl_s : ℤ

  -- The arguments of `register`.
  pub record NewPage : Type 0 where
    pub page : P
    pub context : C
    pub url : String
    pub final_url : String
    pub domain : Option String
    pub auth_profile_id : Option String
    pub owner_run_id : Option String
    pub ttl_s : Option ℤ

  -- A use of the registry.
  pub data Operation : Type 0 where
    registering : NewPage → Operation
    getting : String → Operation
    closing : String → Operation
    sweeping : Operation
    closing_all : Operation

-- What the registry uses of the outside world `W`.
pub record Browser (W P C : Type 0) : Type 0 where
  pub time : W → ℕ × W
  pub uuid4_hex : W → String × W
  pub close_page : P → Action W (Unit {0})
  pub close_context : C → Action W (Unit {0})

-- The registry, with the outside world.
pub record BrowserPageRegistry (W P C : Type 0) : Type 0 where
  pub outside : W
  pub max_open_pages : ℕ
  pub default_ttl_s : ℤ
  pub pages : Dict (BrowserPageHandle P C)

-- The constructor.
abbrev pub new_registry : {W P C : Type 0} → W → ℤ → ℤ → BrowserPageRegistry W P C
new_registry w max_open_pages default_ttl_s = record {
  outside = w;
  max_open_pages = at_least_one max_open_pages;
  default_ttl_s = default_ttl_s;
  pages = [];
}

module _ {P C : Type 0} where
  -- `sorted(..., key=lambda item: item[1].last_accessed_at)`, which is stable
  unfoldable pub insert_by_access :
      String × BrowserPageHandle P C → Dict (BrowserPageHandle P C) → Dict (BrowserPageHandle P C)
  insert_by_access e [] = e ∷ []
  insert_by_access e (d ∷ ds) =
      let rest = insert_by_access e ds in
      if leb e.1.last_accessed_at d.1.last_accessed_at then e ∷ d ∷ ds else d ∷ rest

  unfoldable pub by_access : Dict (BrowserPageHandle P C) → Dict (BrowserPageHandle P C)
  unfolding insert_by_access
  by_access [] = []
  by_access (e ∷ es) = insert_by_access e (by_access es)

  -- `[page_ref for page_ref, _ in items[:n]]`
  unfoldable pub first_refs : ℕ → Dict (BrowserPageHandle P C) → List String
  first_refs zero items = []
  first_refs (suc n) [] = []
  first_refs (suc n) (e ∷ items) = e.0 ∷ first_refs n items

module _ {W P C : Type 0} (browser : Browser W P C) where
  -- `_close_handle`: exceptions are swallowed.
  unfoldable pub close_handle : BrowserPageHandle P C → W → W
  close_handle handle w =
      let (_, w1) = browser.close_page handle.page w in
      let (_, w2) = browser.close_context handle.context w1 in w2

  -- `_is_expired`: the clock is read only for a handle that can expire.
  unfoldable pub is_expired : BrowserPageHandle P C → W → Bool × W
  is_expired handle w =
      if is_positive handle.ttl_s
      then (let (now, w') = browser.time w in
          (int_lt (scaled handle.ttl_s 1000000) (pos (now - handle.last_accessed_at)), w'))
      else (false, w)

  -- The comprehension of `_sweep_expired_locked`.
  expired_refs : Dict (BrowserPageHandle P C) → W → List String × W
  unfolding is_expired
  expired_refs [] w = ([], w)
  expired_refs (e ∷ pages) w =
      let (expired, w') = is_expired e.1 w in
      let (refs, w'') = expired_refs pages w' in (if expired then e.0 ∷ refs else refs, w'')

  -- The handle that `pop` returned is closed.
  close_popped :
      String
      → Option (BrowserPageHandle P C)
      → BrowserPageRegistry W P C
      → BrowserPageRegistry W P C
  close_popped page_ref none s = s
  close_popped page_ref (some handle) s = record s {
    outside = close_handle handle s.outside;
    pages = Dict.remove page_ref s.pages;
  }

  -- The loops that pop and close.
  close_refs : List String → BrowserPageRegistry W P C → BrowserPageRegistry W P C
  unfolding close_popped
  close_refs [] s = s
  close_refs (page_ref ∷ refs) s =
      close_refs refs (close_popped page_ref (Dict.get page_ref s.pages) s)

  -- `_sweep_expired_locked` and `sweep_expired`
  unfoldable pub sweep_expired : BrowserPageRegistry W P C → ℕ × BrowserPageRegistry W P C
  unfolding expired_refs close_refs
  sweep_expired s =
      let (refs, w) = expired_refs s.pages s.outside in
      (length refs, close_refs refs (record s { outside = w }))

  -- `_evict_if_needed_locked`: without overflow there is no first reference.
  unfoldable pub evict_if_needed : BrowserPageRegistry W P C → BrowserPageRegistry W P C
  unfolding insert_by_access by_access first_refs close_refs
  evict_if_needed s =
      close_refs (first_refs (length s.pages - s.max_open_pages) (by_access s.pages)) s

  -- `register`, after the sweep and before the eviction
  add_page :
      NewPage P C → BrowserPageRegistry W P C → BrowserPageHandle P C × BrowserPageRegistry W P C
  add_page new s =
      let (page_id, w1) = browser.uuid4_hex s.outside in
      let (context_id, w2) = browser.uuid4_hex w1 in
      let (created_at, w3) = browser.time w2 in
      let (last_accessed_at, w4) = browser.time w3 in
      let handle : BrowserPageHandle P C = record {
        page_ref = "page_" <> page_id;
        context_ref = "ctx_" <> context_id;
        page = new.page;
        context = new.context;
        url = new.url;
        final_url = new.final_url;
        domain = new.domain;
        auth_profile_id = new.auth_profile_id;
        owner_run_id = new.owner_run_id;
        created_at = created_at;
        last_accessed_at = last_accessed_at;
        ttl_s = or_default s.default_ttl_s new.ttl_s;
      } in
      (handle, record s { outside = w4; pages = Dict.put handle.page_ref handle s.pages })

  unfoldable pub register :
      NewPage P C → BrowserPageRegistry W P C → BrowserPageHandle P C × BrowserPageRegistry W P C
  unfolding add_page
  register new s =
      let (handle, s') = add_page new (sweep_expired s).1 in (handle, evict_if_needed s')

  -- `get`, after the lookup
  use_handle :
      String
      → Option (BrowserPageHandle P C)
      → BrowserPageRegistry W P C
      → Option (BrowserPageHandle P C) × BrowserPageRegistry W P C
  unfolding close_popped
  use_handle page_ref none s = (none, s)
  use_handle page_ref (some handle) s =
      let (expired, w) = is_expired handle s.outside in
      let (now, w') = browser.time w in
      let touched : BrowserPageHandle P C = record handle { last_accessed_at = now } in
      if expired
      then (none, close_popped page_ref (some handle) (record s { outside = w }))
      else (some touched, record s { outside = w'; pages = Dict.put page_ref touched s.pages })

  unfoldable pub get :
      String
      → BrowserPageRegistry W P C
      → Option (BrowserPageHandle P C) × BrowserPageRegistry W P C
  unfolding use_handle
  get page_ref s = use_handle page_ref (Dict.get page_ref s.pages) s

  unfoldable pub close : String → BrowserPageRegistry W P C → Bool × BrowserPageRegistry W P C
  unfolding close_popped
  close page_ref s =
      (Dict.has page_ref s.pages, close_popped page_ref (Dict.get page_ref s.pages) s)

  close_handles : List (BrowserPageHandle P C) → W → W
  close_handles [] w = w
  close_handles (handle ∷ handles) w = close_handles handles (close_handle handle w)

  unfoldable pub close_all : BrowserPageRegistry W P C → BrowserPageRegistry W P C
  unfolding close_handles
  close_all s = record s { outside = close_handles (Dict.values s.pages) s.outside; pages = [] }

  -- What a use leaves.
  abbrev pub apply : Operation P C → BrowserPageRegistry W P C → BrowserPageRegistry W P C
  apply (registering new) s = (register new s).1
  apply (getting page_ref) s = (get page_ref s).1
  apply (closing page_ref) s = (close page_ref s).1
  apply sweeping s = (sweep_expired s).1
  apply closing_all s = close_all s

  unfoldable pub apply_all :
      List (Operation P C) → BrowserPageRegistry W P C → BrowserPageRegistry W P C
  apply_all [] s = s
  apply_all (operation ∷ operations) s = apply_all operations (apply operation s)
