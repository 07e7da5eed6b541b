-- ===== src/Scheduling/Choice.antt =====
-- src/SchedulingModuleWroteBefore/scheduler.py: what `acquire` gives out.
use sth_boring.Base.{
  ℕ, suc, ◌+◌, List, [], ◌∷◌, ◌++◌, Option, none, Bool, true, ◌&&◌, raise, Exception, ◌≡◌, arith,
  inl, inr, Bool-cases, length, if◌then◌else◌,
}
use sth_boring.Base.Int.{ℤ}
use sth_boring.Scheduling.{
  LlmApiWrapper, Outside, is_stopped, get_status, scan, use_best, acquire, circuit_breaker,
  unbound_best_api,
}

module _ {W : Type 0} (world : Outside W) where
  -- Every interface of the pool is stopped when it is asked in its turn.
  unfoldable pub all_stopped : List LlmApiWrapper → W → Bool
  all_stopped [] w = true
  all_stopped (api ∷ pool) w =
      let (api', w') = get_status world api w in is_stopped api'.status && all_stopped pool w'

  -- What `acquire` raises.
  abbrev pub refusal : List LlmApiWrapper → W → Exception
  refusal pool w =
      if all_stopped pool w
      then circuit_breaker "No usable interface now, plz try later."
      else unbound_best_api

  scan-raise :
      (weight : ℤ) (last : Option ℕ) (total unused : ℕ) (front : List LlmApiWrapper)
      (api : LlmApiWrapper) (pool : List LlmApiWrapper) (w : W)
      → unused + suc (length pool) ≡ total
      → (use_best world weight (scan world total unused none front (api ∷ pool) w) last).0
        ≡ raise (refusal (api ∷ pool) w)
  unfolding scan all_stopped use_best
  scan-raise weight last total unused front api [] w h =
      elim (Bool-cases (is_stopped (get_status world api w).0.status)) [
        | inl s ↦ ground arith
        | inr s ↦ ground arith
      ]
  scan-raise weight last total unused front api (next ∷ pool) w h =
      elim (Bool-cases (is_stopped (get_status world api w).0.status)) [
        | inl s ↦
            let rest =
              scan-raise weight last total (suc unused) (front ++ (get_status world api w).0 ∷ [])
                next pool (get_status world api w).1 (omega arith) in
            ground (arith, rest)
        | inr s ↦ ground arith
      ]

  -- A pool that is not empty never gives out an interface: `acquire` raises CircuitBreakerError if
  -- every interface is stopped when it is asked, and UnboundLocalError if one of them is not.
  pub acquire-raise :
      (api : LlmApiWrapper) (pool : List LlmApiWrapper) (last : Option ℕ) (w : W)
      → (acquire world (record { pool = api ∷ pool; last_api = last }) w).0
        ≡ raise (refusal (api ∷ pool) w)
  unfolding acquire
  acquire-raise api pool last w =
      scan-raise _ last (suc (length pool)) 0 [] api pool w (omega arith)
