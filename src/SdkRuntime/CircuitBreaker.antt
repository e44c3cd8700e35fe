-- ===== src/SdkRuntime/CircuitBreaker.antt =====
-- packages/sdk-runtime/src/circuit-breaker.ts. A run has two parts, since other runs may come between its
-- start and its end: `begin`, which may block it, and `succeed` or `fail`.
use axiomify.Base.{ℕ, suc, ◌+◌, Bool, true, false, ◌||◌, if◌then◌else◌, ltb, leb}

pub data State : Type 0 where
  closed open_state half_open : State

pub record Config : Type 0 where
  pub failure_threshold : ℕ
  pub cooldown_period_ms : ℕ
  pub half_open_max_probe_requests : ℕ

pub record Breaker : Type 0 where
  pub state : State
  pub failures : ℕ
  pub last_state_change : ℕ
  pub half_open_successful_requests : ℕ

abbrev pub default_config : Config
default_config = record {
  failure_threshold = 5;
  cooldown_period_ms = 10000;
  half_open_max_probe_requests = 3;
}

abbrev pub new_breaker : ℕ → Breaker
new_breaker now = record {
  state = closed;
  failures = 0;
  last_state_change = now;
  half_open_successful_requests = 0;
}

abbrev pub is_half_open : State → Bool
is_half_open closed = false
is_half_open open_state = false
is_half_open half_open = true

abbrev pub is_open : State → Bool
is_open closed = false
is_open open_state = true
is_open half_open = false

unfoldable pub transition_to : ℕ → State → Breaker → Breaker
transition_to now closed b = record b { state = closed; last_state_change = now; failures = 0 }
transition_to now open_state b = record b { state = open_state; last_state_change = now }
transition_to now half_open b = record b {
  state = half_open;
  last_state_change = now;
  half_open_successful_requests = 0;
}

module _ (c : Config) where
  -- `elapsed > cooldownPeriodMs`, where the difference may be negative.
  unfoldable pub check_state : ℕ → Breaker → Breaker
  check_state now b =
      if is_open b.state
      then (if ltb (b.last_state_change + c.cooldown_period_ms) now
          then transition_to now half_open b
          else b)
      else b

  -- Whether the run goes on; it is blocked where the breaker is open.
  unfoldable pub begin : ℕ → Breaker → Breaker × Bool
  begin now b =
      let checked = check_state now b in (checked, if is_open checked.state then false else true)

  unfoldable pub on_success_in : State → ℕ → Breaker → Breaker
  on_success_in half_open now b =
      let counted = record b {
        half_open_successful_requests = suc b.half_open_successful_requests;
      } in
      if leb c.half_open_max_probe_requests counted.half_open_successful_requests
      then transition_to now closed counted
      else counted
  on_success_in closed now b = record b { failures = 0 }
  on_success_in open_state now b = b

  unfoldable pub on_success : ℕ → Breaker → Breaker
  on_success now b = on_success_in b.state now b

  unfoldable pub on_failure : ℕ → Breaker → Breaker
  on_failure now b =
      let counted = record b { failures = suc b.failures } in
      if is_half_open b.state || leb c.failure_threshold counted.failures
      then transition_to now open_state counted
      else counted

  -- A run whose end nothing comes before: its start, its end, and whether the function returns.
  unfoldable pub run : ℕ → ℕ → Bool → Breaker → Breaker × Bool
  run start end returns b =
      let (begun, goes) = begin start b in
      (
        if goes then (if returns then on_success end begun else on_failure end begun) else begun,
        goes,
      )

-- What happens to a breaker, at its time.
pub data Event : Type 0 where
  begins succeeds fails : ℕ → Event

abbrev pub time : Event → ℕ
time (begins t) = t
time (succeeds t) = t
time (fails t) = t

module _ (c : Config) where
  unfoldable pub step : Event → Breaker → Breaker
  step (begins t) b = (begin c t b).0
  step (succeeds t) b = on_success c t b
  step (fails t) b = on_failure c t b

  abbrev pub admits : Event → Breaker → Bool
  admits (begins t) b = (begin c t b).1
  admits (succeeds t) b = false
  admits (fails t) b = false
