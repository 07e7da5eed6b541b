-- ===== src/Scheduling.antt =====
-- src/SchedulingModuleWroteBefore: interfaces of language models with a circuit breaker (abc_cls.py),
-- and the choice between them (scheduler.py). Clock readings and cool-down times are whole
-- microseconds; the health check is an answer of the outside world `W`.
pub mod Weights
pub mod Choice
mod Examples
use sth_boring.Base.{
  ℕ, zero, suc, Option, none, some, String, List, [], ◌∷◌, ◌++◌, Bool, true, false, not, ◌&&◌,
  Result, ok, raise, Exception, if◌then◌else◌, length, nat_eq,
}
use sth_boring.Base.Int.{ℤ, pos, int_lt, plus, minus}

-- `STOPPED` has the value "circuit_break".
pub data ApiStatus : Type 0 where
  activated stopped recovering : ApiStatus

pub record UrlPayload : Type 0 where
  pub model_id : String
  pub url : String
  pub method : String
  pub access_token : String

pub record LlmApiConfig : Type 0 where
  pub model_id : String
  pub base_url : String
  pub base_method : String
  pub access_token : String

pub record LlmApiWrapper : Type 0 where
  pub interface_id : String
  pub interface_config : LlmApiConfig
  pub base_weight : ℤ
  pub decay_step : ℤ
  pub recover_step : ℤ
  pub max_fails : ℤ
  pub cool_down : ℤ
  pub status : ApiStatus
  pub dynamic_weight : ℤ
  pub swrr_weight : ℤ
  pub fail_cnt : ℕ
  pub cool_ending : ℤ

-- What an interface uses of the outside world. `call_endpoint` is `best_api(endpoint)`, of a subclass
-- that is not in the repository.
pub record Outside (W : Type 0) : Type 0 where
  pub time : W → ℕ × W
  pub health_check : LlmApiWrapper → W → Bool × W
  pub call_endpoint : LlmApiWrapper → W → Result UrlPayload × LlmApiWrapper × W

-- The pool of the scheduler, and the position of the interface that it gave out last. The interfaces
-- of the pool are distinct objects.
pub record Scheduler : Type 0 where
  pub pool : List LlmApiWrapper
  pub last_api : Option ℕ

-- `__post_init__`
abbrev pub post_init : LlmApiWrapper → LlmApiWrapper
post_init api = record api {
  status = ApiStatus.activated;
  dynamic_weight = api.base_weight;
  swrr_weight = api.base_weight;
  fail_cnt = 0;
  cool_ending = pos 0;
}

abbrev pub circuit_breaker : String → Exception
circuit_breaker message = record { class_name = "CircuitBreakerError"; message = message }

abbrev pub unbound_best_api : Exception
unbound_best_api = record {
  class_name = "UnboundLocalError";
  message = "cannot access local variable 'best_api' where it is not associated with a value";
}

abbrev pub is_stopped : ApiStatus → Bool
is_stopped ApiStatus.stopped = true
is_stopped _ = false

-- `record_fail` and `reset_fail`
abbrev pub record_fail : LlmApiWrapper → LlmApiWrapper
record_fail api = record api { fail_cnt = suc api.fail_cnt }

abbrev pub reset_fail : LlmApiWrapper → LlmApiWrapper
reset_fail api = record api { fail_cnt = 0 }

-- `best_api` inside the loop: the position of an interface in the pool, and the interface. It is
-- declared with a type and without a value, so that reading it raises until it is assigned.
abbrev pub BestApi : Type 0
BestApi = Option (ℕ × LlmApiWrapper)

-- `if best_api is None or _api.swrr_weight > best_api.swrr_weight: best_api = _api`, for the
-- interface at a position
abbrev pub choose : BestApi → ℕ → LlmApiWrapper → Result BestApi
choose none idx api = raise unbound_best_api
choose (some best) idx api =
    ok (some (if int_lt best.1.swrr_weight api.swrr_weight then (idx, api) else best))

unfoldable pub cool_down_weight : List LlmApiWrapper → ℤ
cool_down_weight [] = pos 0
cool_down_weight (api ∷ pool) = plus api.base_weight (cool_down_weight pool)

unfoldable pub replace_at : ℕ → LlmApiWrapper → List LlmApiWrapper → List LlmApiWrapper
replace_at n api [] = []
replace_at zero api (x ∷ pool) = api ∷ pool
replace_at (suc n) api (x ∷ pool) = x ∷ replace_at n api pool

abbrev pub payload_of : LlmApiConfig → UrlPayload
payload_of config = record {
  model_id = config.model_id;
  url = config.base_url;
  method = config.base_method;
  access_token = config.access_token;
}

module _ {W : Type 0} (world : Outside W) where
  unfoldable pub circuit_break : LlmApiWrapper → W → LlmApiWrapper × W
  circuit_break api w =
      let (now, w') = world.time w in
      (
        record api {
          status = ApiStatus.stopped;
          dynamic_weight = pos 0;
          cool_ending = plus (pos now) api.cool_down;
          fail_cnt = 0;
        },
        w',
      )

  -- The interface after `get_status`, which reads the clock only if it is stopped.
  unfoldable pub get_status : LlmApiWrapper → W → LlmApiWrapper × W
  get_status api w =
      if is_stopped api.status
      then (let (now, w') = world.time w in
          (
            if int_lt api.cool_ending (pos now)
                then record api {
                  dynamic_weight = plus api.dynamic_weight api.recover_step;
                  cool_ending = pos 0;
                  status = ApiStatus.recovering;
                }
                else api,
            w',
          ))
      else (api, w)

  -- `adapt_weight`, with the status set first
  unfoldable pub adapt_weight : ℤ → LlmApiWrapper → W → LlmApiWrapper × W
  adapt_weight delta api w =
      let marked : LlmApiWrapper =
        if int_lt delta (pos 0) then record api { status = ApiStatus.recovering } else api in
      let adapted : LlmApiWrapper = record marked {
        dynamic_weight = plus marked.dynamic_weight delta;
      } in
      if int_lt adapted.dynamic_weight (pos 0) then circuit_break adapted w else (adapted, w)

  -- `__call__`, after the health check: the breaker opens after too many failures.
  unfoldable pub guard : Bool → LlmApiWrapper → W → LlmApiWrapper × W
  guard is_healthy api w =
      if not (is_healthy && int_lt (pos api.fail_cnt) api.max_fails)
      then circuit_break api w
      else (api, w)

  unfoldable pub call : LlmApiWrapper → W → Result UrlPayload × LlmApiWrapper × W
  call api w =
      let (is_healthy, w1) = world.health_check api w in
      let (guarded, w2) = guard is_healthy api w1 in
      let (api', w3) = get_status guarded w2 in
      (
        if is_stopped api'.status
            then raise (circuit_breaker "Service is in circuit breaker. Please try again later.")
            else ok (payload_of api'.interface_config),
        api',
        w3,
      )

  -- The loop of `acquire`: the interfaces in front have been asked, `unused` of them are stopped.
  unfoldable pub scan :
      (total unused : ℕ)
      → BestApi
      → (front pool : List LlmApiWrapper) → W
      → Result BestApi × List LlmApiWrapper × W
  scan total unused best front [] w = (ok best, front, w)
  scan total unused best front (api ∷ pool) w =
      let (api', w') = get_status api w in
      let raised : LlmApiWrapper = record api' {
        swrr_weight = plus api'.swrr_weight api'.dynamic_weight;
      } in
      elim (is_stopped api'.status) [
        | true ↦ elim (nat_eq (suc unused) total) [
          | true ↦ (
            raise (circuit_breaker "No usable interface now, plz try later."),
            front ++ api' ∷ pool,
            w',
          )
          | false ↦ scan total (suc unused) best (front ++ api' ∷ []) pool w'
        ]
        | false ↦ elim (choose best (length front) raised) [
          | raise exc ↦ (raise exc, front ++ raised ∷ pool, w')
          | ok best' ↦ scan total unused best' (front ++ raised ∷ []) pool w'
        ]
      ]

  -- What follows the loop: the weight of the best interface is lowered, it is noted as the last one,
  -- and it is called.
  unfoldable pub use_best :
      ℤ → Result BestApi × List LlmApiWrapper × W → Option ℕ → Result UrlPayload × Scheduler × W
  use_best weight (raise exc, pool, w) last =
      (raise exc, record { pool = pool; last_api = last }, w)
  use_best weight (ok none, pool, w) last =
      (raise unbound_best_api, record { pool = pool; last_api = last }, w)
  use_best weight (ok (some best), pool, w) last =
      let lowered : LlmApiWrapper = record best.1 {
        swrr_weight = minus best.1.swrr_weight weight;
      } in
      let (r, called, w') = world.call_endpoint lowered w in
      (r, record { pool = replace_at best.0 called pool; last_api = some best.0 }, w')

  -- `acquire`: the payload of an empty pool has no key `model_id`, which is the empty text here.
  unfoldable pub acquire : Scheduler → W → Result UrlPayload × Scheduler × W
  acquire s w = elim s.pool [
    | [] ↦ (ok (record { model_id = ""; url = ""; method = ""; access_token = "" }), s, w)
    | api ∷ pool ↦
        use_best (cool_down_weight (api ∷ pool))
          (scan (length (api ∷ pool)) 0 none [] (api ∷ pool) w) s.last_api
  ]
