-- ===== src/Tests/RateLimitTests.antt =====
-- The rate limiter of packages/rate-limit/src/index.ts at small inputs.
use axiomify.Base.{
  ℕ, ◌+◌, ◌≤◌, String, Bool, true, false, none, some, List, [], ◌∷◌, ◌===◌, if◌then◌else◌, ltb, ◌≡◌,
  ◌≢◌, refl, arith, ◌⊎◌, ◌↔◌, inl, inr,
}
use axiomify.JsMap
use axiomify.RateLimit
use axiomify.RateLimit.{MemoryStore, Counted, increment}
use axiomify.RateLimit.Counting.{Event, hit, tick, run, recent}
use axiomify.RateLimit.Limiter.{
  Attempt, returned, threw, RateLimitOptions, limiter, status_sent, is_skipped, window_of, max_of,
  key_of, memory_increment, limiter_passes_iff, limiter-recent, generator_of, default_key,
}
use axiomify.RateLimit.RedisStore
use axiomify.RateLimit.RedisStore.{
  Style, object, variadic, Args, Reply, ok, error, RedisClient, RedisStore, new_redis_store,
  is_no_script,
}
use axiomify.RateLimit.RedisStore.Recovery.{
  Evaluates, EvaluatesSha, IsSettled, increment_runs_script,
}

program : Unit {0}
unfolding run recent increment RateLimit.prune RateLimit.prune_hits RateLimit.prune_entry
    RateLimit.advance RateLimit.advance_loop RateLimit.is_stale RateLimit.compact
    RateLimit.evict_keys RateLimit.data_of RateLimit.record_hit RateLimit.result_of
    RateLimit.new_store JsMap.get JsMap.set JsMap.delete limiter is_skipped window_of max_of key_of
    generator_of default_key
program = tt

abbrev events : List Event
events = hit 1000 "a" ∷ hit 1500 "b" ∷ hit 1600 "a" ∷ tick 1700 ∷ hit 1800 "a" ∷ []

-- Of the three requests of "a", that at 1000 has left a window of 1000 at 2100.
counts_window :
    (increment 2100 "a" 1000 (run 1000 events (RateLimit.new_store none))).1
    ≡ record { count = 3; reset_time = 3 }
unfolding program
counts_window = refl

-- Two requests a second; the generator of the second throws on the empty address.
abbrev options : RateLimitOptions String
options = record {
  window_ms = some 1000;
  max = some 2;
  max_requests = none;
  key_generator = some (λ ip. if ip === "" then threw else returned ip);
  key_extractor = none;
  skip = some (λ ip. if ip === "::1" then returned true else threw);
  allow_memory_store_in_production = false;
}

limiter_passes_iff_example :
    (status_sent (limiter some (memory_increment 2100) options "a" (RateLimit.new_store none)).1
      ≡ none)
    ↔ ((skip : String → Attempt Bool) × (options.skip ≡ some skip) × (skip "a" ≡ returned true))
      ⊎ ((r : Counted) × ((memory_increment 2100
              (key_of some options "a")
              (window_of options)
              (RateLimit.new_store none)).1
            ≡ returned r)
          × (r.count ≤ max_of options))
limiter_passes_iff_example =
    limiter_passes_iff some (memory_increment 2100) options "a" (RateLimit.new_store none)

limiter-recent_example :
    status_sent
      (limiter some
        (memory_increment 2100)
        options
        "a"
        (run (window_of options) events (RateLimit.new_store none))).1
    ≡ (if ltb (recent (window_of options) 2100 (key_of some options "a") events) (max_of options)
        then none
        else some 429)
unfolding program
limiter-recent_example =
    limiter-recent some options "a" 0 2100 none events refl (omega arith) (omega arith)

-- A server that counts the runs of the script, with the script cached or not.
abbrev Server : Type 0
Server = ℕ × Bool

abbrev script : Args → Server → Server × Counted
script args (n, _) = ((n + 1, true), record { count = n + 1; reset_time = args.now })

abbrev eval : Style → Args → Server → Server × Reply
eval object args c = (c, error "ERR wrong number of arguments")
eval variadic args c = ((script args c).0, ok (script args c).1)

abbrev eval_sha : Style → Args → Server → Server × Reply
eval_sha object args c = (c, error "ERR wrong number of arguments")
eval_sha variadic args (n, true) = ((script args (n, true)).0, ok (script args (n, true)).1)
eval_sha variadic args (n, false) = ((n, false), error "NOSCRIPT No matching script")

client : RedisClient Server
client = record { eval = some eval; eval_sha = some eval_sha }

eval-Evaluates : Evaluates variadic script eval
eval-Evaluates = record { runs = λ args c. refl; rejects = rejects }
  where
    rejects :
        (style : Style) (args : Args) (c : Server)
        → style ≢ variadic
        → (msg : String) × (eval style args c ≡ (c, error msg))
    rejects object args c h = (_, refl)
    rejects variadic args c h = absurd (h refl)

eval_sha-EvaluatesSha : EvaluatesSha variadic script (λ c. c.1) eval_sha
unfolding is_no_script
eval_sha-EvaluatesSha = record { runs = runs; misses = misses; rejects = rejects }
  where
    runs :
        (args : Args) (c : Server)
        → c.1 ≡ true
        → eval_sha variadic args c ≡ ((script args c).0, ok (script args c).1)
    runs args (n, true) h = refl
    runs args (n, false) h = cc

    misses :
        (args : Args) (c : Server)
        → c.1 ≡ false
        → (msg : String) × (eval_sha variadic args c ≡ (c, error msg)) × (is_no_script msg ≡ true)
    misses args (n, true) h = cc
    misses args (n, false) h = (_, refl, refl)

    rejects :
        (style : Style) (args : Args) (c : Server)
        → style ≢ variadic
        → (msg : String) × (eval_sha style args c ≡ (c, error msg)) × (is_no_script msg ≡ false)
    rejects object args c h = (_, refl, refl)
    rejects variadic args c h = absurd (h refl)

abbrev args : Args
args = record { key = "a"; now = 7; window_ms = 1000; member = "7:1:1" }

-- The store believes the script loaded, and the server has lost it.
abbrev believing : RedisStore
believing = record new_redis_store { script_loaded = true }

increment_runs_script_example :
    (s' : RedisStore) × (RedisStore.increment client args believing (4, false)
      ≡ (s', (script args (4, false)).0, ok (script args (4, false)).1))
    × IsSettled variadic s'
    × (s'.script_loaded ≡ true)
unfolding client
increment_runs_script_example =
    increment_runs_script script variadic (λ c. c.1) client eval refl eval-Evaluates
      (inr (eval_sha, refl, eval_sha-EvaluatesSha)) args believing (4, false)
      (record { eval = inl refl; eval_sha = inl refl })
