-- ===== src/Tests/SdkRuntimeTests.antt =====
-- The client runtime of packages/sdk-runtime on small inputs.
use axiomify.Base.{
  ℕ, suc, String, true, false, none, some, [], ◌∷◌, if◌then◌else◌, ltb, ◌===◌, ◌≡◌, refl, arith,
}
use axiomify.JsMap
use axiomify.SdkRuntime.Breaking.{run_all, some_admitted, trips_and_blocks, recovers}
use axiomify.SdkRuntime.CircuitBreaker.{
  Config, Breaker, begins, succeeds, fails, closed, open_state, new_breaker, run, begin,
  check_state, transition_to, on_success, on_success_in, on_failure,
}
use axiomify.SdkRuntime.LruTtlCache
use axiomify.SdkRuntime.LruTtlCache.{LruTtlCache, CacheEntry, is_evicted, make_room, set-get}
use axiomify.SdkRuntime.OfflineQueue.{QueuedRequest, Processed}
use axiomify.SdkRuntime.Retry.{
  Outcome, returned, threw, handed_on, hand_on, default_retry_config, with_retry, retry_loop, stops,
  is_retryable, status_of, includes, delay, power_of_two,
}
use axiomify.SdkRuntime.Retrying.{Tried, with_retry-Tried}

program : Unit {0}
unfolding run_all run begin check_state transition_to on_success on_success_in on_failure with_retry
    retry_loop stops is_retryable status_of includes delay LruTtlCache.get LruTtlCache.set make_room
    JsMap.get JsMap.set JsMap.delete
program = tt

abbrev breaker_config : Config
breaker_config = record {
  failure_threshold = 3;
  cooldown_period_ms = 1000;
  half_open_max_probe_requests = 2;
}

-- Two failures, then the one at 30 that opens the breaker.
trips_and_blocks_example :
    ((run_all breaker_config false ((1, 2) ∷ (3, 4) ∷ []) (new_breaker 0)).state ≡ closed)
    × ((run breaker_config 20 30 false
          (run_all breaker_config false ((1, 2) ∷ (3, 4) ∷ []) (new_breaker 0))).0.state
        ≡ open_state)
    × (some_admitted breaker_config
          (begins 40 ∷ succeeds 50 ∷ fails 60 ∷ begins 1030 ∷ [])
          (run breaker_config 20 30 false
            (run_all breaker_config false ((1, 2) ∷ (3, 4) ∷ []) (new_breaker 0))).0
        ≡ false)
trips_and_blocks_example =
    trips_and_blocks breaker_config ((1, 2) ∷ (3, 4) ∷ []) 20 30 (new_breaker 0)
      (begins 40 ∷ succeeds 50 ∷ fails 60 ∷ begins 1030 ∷ []) refl refl
      (
        (omega arith, omega arith),
        (
          (omega arith, omega arith),
          ((omega arith, omega arith), ((omega arith, omega arith), tt)),
        ),
      )

abbrev open_breaker : Breaker
open_breaker = record {
  state = open_state;
  failures = 3;
  last_state_change = 30;
  half_open_successful_requests = 0;
}

recovers_example :
    ((run_all breaker_config true ((2000, 2010) ∷ (2020, 2030) ∷ []) open_breaker).state ≡ closed)
    × ((run_all breaker_config true ((2000, 2010) ∷ (2020, 2030) ∷ []) open_breaker).failures ≡ 0)
recovers_example =
    recovers breaker_config 2000 2010 ((2020, 2030) ∷ []) open_breaker refl (omega arith) refl

-- A request that fails with status 503 until it was sent three times.
abbrev flaky : ℕ → ℕ × Outcome String
flaky n =
    if ltb n 2
    then (suc n, threw (some (record { status = some 503; response_status = none })))
    else (suc n, returned "done")

-- It returns at the third request, after delays of 500 and 1000.
flaky_run :
    with_retry default_retry_config flaky 0
    ≡ some (record { state = 3; result = handed_on (returned "done"); delays = 500 ∷ 1000 ∷ [] })
unfolding with_retry retry_loop stops hand_on is_retryable status_of includes delay power_of_two
flaky_run = refl

with_retry-Tried_example :
    Tried default_retry_config flaky 0 [] 0 (with_retry default_retry_config flaky 0)
with_retry-Tried_example = with_retry-Tried default_retry_config flaky 0

-- A full cache of two keys.
abbrev full_cache : LruTtlCache String
full_cache = record {
  entries =
      ("a", record { value = "1"; expires_at = 500 })
      ∷ ("b", record { value = "2"; expires_at = 500 })
      ∷ [];
  max_keys = 2;
  default_ttl_ms = 100;
}

full_cache_drops : (LruTtlCache.get 20 "a" (LruTtlCache.set 10 "c" "3" none full_cache)).1 ≡ none
unfolding LruTtlCache.get LruTtlCache.set make_room JsMap.get JsMap.set JsMap.delete
full_cache_drops = refl

abbrev queued : String → QueuedRequest
queued id = record { id = id; path = "/x"; method = "POST"; timestamp = 1 }

-- The processor throws at "b" and counts its calls.
abbrev processor : QueuedRequest → ℕ → Processed ℕ
processor req n = record { after = suc n; threw = req.id === "b"; queued = [] }
