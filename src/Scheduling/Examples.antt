-- ===== src/Scheduling/Examples.antt =====
-- An interface that fails and cools down, and the theorems at it. The world is a clock.
use sth_boring.Base.{ℕ, suc, List, [], ◌∷◌, none, true, refl, ok, raise, Exception, ◌≡◌}
use sth_boring.Base.Int.{pos, negsuc}
use sth_boring.Scheduling.{
  ApiStatus, LlmApiWrapper, Outside, post_init, get_status, scan, use_best, acquire, payload_of,
  circuit_breaker, unbound_best_api,
}
use sth_boring.Scheduling.Weights.{
  IsWeighted, Use, asking_status, failing, calling, adapting, perform_all, perform_all-IsWeighted,
}
use sth_boring.Scheduling.Choice.{all_stopped, acquire-raise}

abbrev world : Outside ℕ
world = record {
  time = λ w. (w, suc w);
  health_check = λ api w. (true, w);
  call_endpoint = λ api w. (ok (payload_of api.interface_config), api, w);
}

abbrev api : LlmApiWrapper
api = post_init (record {
  interface_id = "a";
  interface_config = record {
    model_id = "m";
    base_url = "https://api/";
    base_method = "POST";
    access_token = "sk";
  };
  base_weight = pos 80;
  decay_step = pos 20;
  recover_step = pos 20;
  max_fails = pos 1;
  cool_down = pos 60000000;
  status = ApiStatus.activated;
  dynamic_weight = pos 0;
  swrr_weight = pos 0;
  fail_cnt = 0;
  cool_ending = pos 0;
})

abbrev uses : List Use
uses = failing ∷ calling ∷ adapting (negsuc 99) ∷ asking_status ∷ []

perform_all-IsWeighted_example : IsWeighted (perform_all world uses api 0).0
perform_all-IsWeighted_example = perform_all-IsWeighted world uses api 0 (refl, refl)

-- The interface is in use, and its cool-down is not over at 5.
abbrev stopped_api : LlmApiWrapper
stopped_api = record api { status = ApiStatus.stopped; cool_ending = pos 9 }

abbrev breaking : Exception
breaking = circuit_breaker "No usable interface now, plz try later."

acquire-raise_example :
    (acquire world (record { pool = stopped_api ∷ stopped_api ∷ []; last_api = none }) 5).0
    ≡ raise breaking
unfolding all_stopped get_status
acquire-raise_example = acquire-raise world stopped_api (stopped_api ∷ []) none 5

acquire_in_use :
    (acquire world (record { pool = stopped_api ∷ api ∷ []; last_api = none }) 5).0
    ≡ raise unbound_best_api
unfolding acquire scan use_best get_status
acquire_in_use = refl
