-- ===== src/Scheduling/Weights.antt =====
-- src/SchedulingModuleWroteBefore/abc_cls.py: the weight of an interface, and when it is called.
use sth_boring.Base.{List, [], ◌∷◌, Bool, false, not, ◌&&◌, ◌≡◌, refl, arith, Bool-cases, inl, inr}
use sth_boring.Base.Int.{ℤ, pos, negsuc, int_lt, plus}
use sth_boring.Scheduling.{
  LlmApiWrapper, Outside, is_stopped, record_fail, reset_fail, circuit_break, get_status,
  adapt_weight, guard, call,
}

-- `not a < 0`
abbrev pub IsNatural : ℤ → Type 0
IsNatural a = int_lt a (pos 0) ≡ false

-- The weight and the step of its recovery are not negative.
abbrev pub IsWeighted : LlmApiWrapper → Type 0
IsWeighted api = IsNatural api.dynamic_weight × IsNatural api.recover_step

-- What is done with an interface.
pub data Use : Type 0 where
  asking_status failing succeeding calling : Use
  adapting : ℤ → Use

plus-IsNatural : (a b : ℤ) → IsNatural a → IsNatural b → IsNatural (plus a b)
plus-IsNatural (pos a) (pos b) ha hb = ground arith
plus-IsNatural (pos a) (negsuc b) ha hb = absurd (ground arith)
plus-IsNatural (negsuc a) b ha hb = absurd (ground arith)

module _ {W : Type 0} (world : Outside W) where
  abbrev pub perform : Use → LlmApiWrapper → W → LlmApiWrapper × W
  perform asking_status api w = get_status world api w
  perform failing api w = (record_fail api, w)
  perform succeeding api w = (reset_fail api, w)
  perform calling api w = let (r, api', w') = call world api w in (api', w')
  perform (adapting delta) api w = adapt_weight world delta api w

  unfoldable pub perform_all : List Use → LlmApiWrapper → W → LlmApiWrapper × W
  perform_all [] api w = (api, w)
  perform_all (u ∷ us) api w = let (api', w') = perform u api w in perform_all us api' w'

  circuit_break-IsWeighted :
      (api : LlmApiWrapper) (w : W)
      → IsNatural api.recover_step
      → IsWeighted (circuit_break world api w).0
  unfolding circuit_break
  circuit_break-IsWeighted api w h = (refl, h)

  get_status-IsWeighted :
      (api : LlmApiWrapper) (w : W) → IsWeighted api → IsWeighted (get_status world api w).0
  unfolding get_status
  get_status-IsWeighted api w (h, r) = elim (Bool-cases (is_stopped api.status)) [
    | inl s ↦ elim (Bool-cases (int_lt api.cool_ending (pos (world.time w).0))) [
      | inl c ↦ rw (s, c) (plus-IsNatural api.dynamic_weight api.recover_step h r, r)
      | inr c ↦ rw (s, c) (h, r)
    ]
    | inr s ↦ rw s (h, r)
  ]

  adapt_weight-IsWeighted :
      (delta : ℤ) (api : LlmApiWrapper) (w : W)
      → IsWeighted api
      → IsWeighted (adapt_weight world delta api w).0
  unfolding adapt_weight circuit_break
  adapt_weight-IsWeighted delta api w (h, r) = elim (Bool-cases (int_lt delta (pos 0))) [
    | inl d ↦ elim (Bool-cases (int_lt (plus api.dynamic_weight delta) (pos 0))) [
      | inl n ↦ rw (d, n) (refl, r)
      | inr n ↦ rw (d, n) (n, r)
    ]
    | inr d ↦ elim (Bool-cases (int_lt (plus api.dynamic_weight delta) (pos 0))) [
      | inl n ↦ rw (d, n) (refl, r)
      | inr n ↦ rw (d, n) (n, r)
    ]
  ]

  guard-IsWeighted :
      (is_healthy : Bool) (api : LlmApiWrapper) (w : W)
      → IsWeighted api
      → IsWeighted (guard world is_healthy api w).0
  unfolding guard
  guard-IsWeighted is_healthy api w (h, r) =
      elim (Bool-cases (not (is_healthy && int_lt (pos api.fail_cnt) api.max_fails))) [
        | inl b ↦ rw b (circuit_break-IsWeighted api w r)
        | inr b ↦ rw b (h, r)
      ]

  call-IsWeighted : (api : LlmApiWrapper) (w : W) → IsWeighted api → IsWeighted (call world api w).1
  unfolding call
  call-IsWeighted api w h =
      get_status-IsWeighted _ _ (guard-IsWeighted (world.health_check api w).0 api _ h)

  perform-IsWeighted :
      (u : Use) (api : LlmApiWrapper) (w : W) → IsWeighted api → IsWeighted (perform u api w).0
  perform-IsWeighted asking_status api w h = get_status-IsWeighted api w h
  perform-IsWeighted failing api w h = h
  perform-IsWeighted succeeding api w h = h
  perform-IsWeighted calling api w h = call-IsWeighted api w h
  perform-IsWeighted (adapting delta) api w h = adapt_weight-IsWeighted delta api w h

  -- However an interface is used, its weight stays at 0 or above, if that is so at first and the step
  -- of its recovery is not negative.
  pub perform_all-IsWeighted :
      (us : List Use) (api : LlmApiWrapper) (w : W)
      → IsWeighted api
      → IsWeighted (perform_all us api w).0
  unfolding perform_all
  perform_all-IsWeighted [] api w h = h
  perform_all-IsWeighted (u ∷ us) api w h =
      perform_all-IsWeighted us _ _ (perform-IsWeighted u api w h)
