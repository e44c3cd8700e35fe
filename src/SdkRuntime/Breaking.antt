-- ===== src/SdkRuntime/Breaking.antt =====
-- packages/sdk-runtime/src/circuit-breaker.ts: when the breaker opens, what it blocks and how it closes.
use axiomify.Base.{
  ◌||◌, ℕ, suc, ◌+◌, ◌≤◌, ◌<◌, Bool, true, false, List, [], ◌∷◌, ◌≡◌, refl, ap, arith, All, length,
}
use axiomify.SdkRuntime.CircuitBreaker.{
  closed, open_state, half_open, Config, Breaker, transition_to, check_state, begin, on_success,
  on_success_in, on_failure, run, Event, begins, succeeds, fails, time, step, admits,
}

module _ (c : Config) where
  -- One run after the other, each with its start and its end, and all with the same result.
  unfoldable pub run_all : Bool → List (ℕ × ℕ) → Breaker → Breaker
  run_all returns [] b = b
  run_all returns ((start, end) ∷ times) b = run_all returns times (run c start end returns b).0

  abbrev IsOpenSince : ℕ → Breaker → Type 0
  IsOpenSince t b = (b.state ≡ open_state) × (t ≤ b.last_state_change)

  step-IsOpenSince :
      (t : ℕ) (e : Event) (b : Breaker)
      → t ≤ time e
      → time e ≤ t + c.cooldown_period_ms
      → IsOpenSince t b
      → IsOpenSince t (step c e b) × (admits c e b ≡ false)
  unfolding step begin check_state on_success on_success_in on_failure transition_to
  step-IsOpenSince t (begins s) b h l o = ground arith
  step-IsOpenSince t (succeeds s) b h l o = ground arith
  step-IsOpenSince t (fails s) b h l o = ground arith

  -- Whether some event of the list starts a run that is not blocked.
  abbrev pub some_admitted : List Event → Breaker → Bool
  some_admitted [] b = false
  some_admitted (e ∷ es) b = admits c e b || some_admitted es (step c e b)

  blocked :
      (t : ℕ) (es : List Event) (b : Breaker)
      → IsOpenSince t b
      → All (λ e. (t ≤ time e) × (time e ≤ t + c.cooldown_period_ms)) es
      → some_admitted es b ≡ false
  blocked t [] b o a = refl
  blocked t (e ∷ es) b o ((h, l), a) =
      let (o', n) = step-IsOpenSince t e b h l o in rw n (blocked t es (step c e b) o' a)

  run_fails :
      (start end : ℕ) (b : Breaker)
      → b.state ≡ closed
      → suc b.failures < c.failure_threshold
      → ((run c start end false b).0.state ≡ closed)
        × ((run c start end false b).0.failures ≡ suc b.failures)
  unfolding run begin check_state on_failure
  run_fails start end b s l = ground arith

  run_trips :
      (start end : ℕ) (b : Breaker)
      → b.state ≡ closed
      → suc b.failures ≡ c.failure_threshold
      → ((run c start end false b).0.state ≡ open_state)
        × ((run c start end false b).0.last_state_change ≡ end)
  unfolding run begin check_state on_failure transition_to
  run_trips start end b s l = ground arith

  still_closed :
      (times : List (ℕ × ℕ)) (b : Breaker)
      → b.state ≡ closed
      → b.failures + length times < c.failure_threshold
      → ((run_all false times b).state ≡ closed)
        × ((run_all false times b).failures ≡ b.failures + length times)
  unfolding run_all
  still_closed [] b s l = (s, omega arith)
  still_closed ((start, end) ∷ times) b s l =
      let (s', f) = run_fails start end b s (omega arith) in
      let (s2, f2) = still_closed times (run c start end false b).0 s' (omega arith) in
      (s2, omega arith)

-- A closed breaker stays closed while fewer failures than the threshold come in a row; the one that
-- reaches the threshold opens it, and from its end on every run that starts before the cooldown is over is
-- blocked, whatever runs that were under way end in between and however they end.
pub trips_and_blocks :
    (c : Config) (times : List (ℕ × ℕ)) (start end : ℕ) (b : Breaker) (events : List Event)
    → b.state ≡ closed
    → b.failures + length times + 1 ≡ c.failure_threshold
    → All (λ e. (end ≤ time e) × (time e ≤ end + c.cooldown_period_ms)) events
    → ((run_all c false times b).state ≡ closed)
      × ((run c start end false (run_all c false times b)).0.state ≡ open_state)
      × (some_admitted c events (run c start end false (run_all c false times b)).0 ≡ false)
trips_and_blocks c times start end b events s l a =
    let (s1, f1) = still_closed c times b s (omega arith) in
    let (s2, t2) = run_trips c start end (run_all c false times b) s1 (omega arith) in
    (
      s1,
      s2,
      blocked c end events (run c start end false (run_all c false times b)).0 (s2, omega arith) a,
    )

module _ (c : Config) where
  one_probe :
      (start end : ℕ) (b : Breaker)
      → b.state ≡ half_open
      → suc b.half_open_successful_requests < c.half_open_max_probe_requests
      → ((run c start end true b).0.state ≡ half_open)
        × ((run c start end true b).0.half_open_successful_requests
            ≡ suc b.half_open_successful_requests)
  unfolding run begin check_state on_success on_success_in
  one_probe start end b s l = ground arith

  last_probe :
      (start end : ℕ) (b : Breaker)
      → b.state ≡ half_open
      → c.half_open_max_probe_requests ≤ suc b.half_open_successful_requests
      → ((run c start end true b).0.state ≡ closed) × ((run c start end true b).0.failures ≡ 0)
  unfolding run begin check_state on_success on_success_in transition_to
  last_probe start end b s l = ground arith

  probes :
      (times : List (ℕ × ℕ)) (b : Breaker)
      → b.state ≡ half_open
      → b.half_open_successful_requests < c.half_open_max_probe_requests
      → b.half_open_successful_requests + length times ≡ c.half_open_max_probe_requests
      → ((run_all c true times b).state ≡ closed) × ((run_all c true times b).failures ≡ 0)
  unfolding run_all
  probes [] b s h l = absurd (omega arith)
  probes ((start, end) ∷ []) b s h l = last_probe start end b s (omega arith)
  probes ((start, end) ∷ next ∷ times) b s h l =
      let (s', n) = one_probe start end b s (omega arith) in
      probes (next ∷ times) (run c start end true b).0 s' (omega arith) (omega arith)

  -- The first run after the cooldown finds the breaker half open.
  reopened :
      (start end : ℕ) (returns : Bool) (b : Breaker)
      → b.state ≡ open_state
      → b.last_state_change + c.cooldown_period_ms < start
      → run c start end returns b ≡ run c start end returns (transition_to start half_open b)
  unfolding run begin check_state transition_to
  reopened start end returns b s l = ground arith

  reopened_all :
      (start end : ℕ) (times : List (ℕ × ℕ)) (b : Breaker)
      → b.state ≡ open_state
      → b.last_state_change + c.cooldown_period_ms < start
      → run_all c true ((start, end) ∷ times) b
        ≡ run_all c true ((start, end) ∷ times) (transition_to start half_open b)
  unfolding run_all
  reopened_all start end times b s l =
      ap (λ (r : Breaker × Bool). run_all c true times r.0) (reopened start end true b s l)

-- Once the cooldown of an open breaker is over, as many runs that return as the breaker wants probes close
-- it, with no failures counted.
pub recovers :
    (c : Config) (start end : ℕ) (times : List (ℕ × ℕ)) (b : Breaker)
    → b.state ≡ open_state
    → b.last_state_change + c.cooldown_period_ms < start
    → length times + 1 ≡ c.half_open_max_probe_requests
    → ((run_all c true ((start, end) ∷ times) b).state ≡ closed)
      × ((run_all c true ((start, end) ∷ times) b).failures ≡ 0)
unfolding transition_to
recovers c start end times b s l n = rw (reopened_all c start end times b s l) (
    probes c ((start, end) ∷ times) (transition_to start half_open b) refl (omega arith)
      (omega arith))
