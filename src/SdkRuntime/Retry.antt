-- ===== src/SdkRuntime/Retry.antt =====
-- packages/sdk-runtime/src/retry.ts. The request is a function on a state; the jitter of a wait is any part
-- of the delay, so the delays themselves are returned beside the result.
use axiomify.Base.{
  ℕ, zero, suc, ◌-◌, ◌*◌, Bool, true, false, not, ◌||◌, Option, none, some, List, [], ◌∷◌, ◌++◌,
  if◌then◌else◌, ltb, leb, ◌==◌,
}

pub record RetryConfig : Type 0 where
  pub max_retries : ℕ
  pub base_delay_ms : ℕ
  pub max_delay_ms : ℕ
  pub retryable_status_codes : List ℕ

abbrev pub default_retry_config : RetryConfig
default_retry_config = record {
  max_retries = 3;
  base_delay_ms = 500;
  max_delay_ms = 5000;
  retryable_status_codes = 408 ∷ 409 ∷ 429 ∷ 500 ∷ 502 ∷ 503 ∷ 504 ∷ [];
}

-- What is read of an error that is not null or undefined: `err.status` and `err.response?.status`.
pub record RequestError : Type 0 where
  pub status : Option ℕ
  pub response_status : Option ℕ

-- What a request ends in; `threw none` is a rejection with null or undefined.
pub data Outcome (T : Type 0) : Type 0 where
  returned : T → Outcome T
  threw : Option RequestError → Outcome T

-- What the caller of `withRetry` gets: the outcome of a request, or the TypeError of reading `err.status` of
-- null or undefined.
pub data Result (T : Type 0) : Type 0 where
  handed_on : Outcome T → Result T
  type_error : Result T

abbrev number_or_zero : Option ℕ → ℕ
number_or_zero none = 0
number_or_zero (some n) = n

-- `err.status || err.response?.status`, 0 where there is none.
unfoldable pub status_of : RequestError → ℕ
status_of err =
    if number_or_zero err.status == 0
    then number_or_zero err.response_status
    else number_or_zero err.status

unfoldable pub includes : List ℕ → ℕ → Bool
includes [] n = false
includes (m ∷ ms) n = (m == n) || includes ms n

unfoldable pub is_retryable : RetryConfig → RequestError → Bool
is_retryable c err = (status_of err == 0) || includes c.retryable_status_codes (status_of err)

abbrev min : ℕ → ℕ → ℕ
min a b = if leb a b then a else b

unfoldable pub power_of_two : ℕ → ℕ
power_of_two zero = 1
power_of_two (suc n) = 2 * power_of_two n

-- The delay after the attempt of the number, counted from one.
unfoldable pub delay : RetryConfig → ℕ → ℕ
delay c attempts = min c.max_delay_ms (c.base_delay_ms * power_of_two (attempts - 1))

-- Whether the attempt of the number, counted from one, is the last.
unfoldable pub stops : {T : Type 0} → RetryConfig → ℕ → Outcome T → Bool
stops c attempts (returned v) = true
stops c attempts (threw none) = true
stops c attempts (threw (some err)) = ltb c.max_retries attempts || not (is_retryable c err)

-- What the caller gets of the last attempt, whose number it is.
unfoldable pub hand_on : {T : Type 0} → RetryConfig → ℕ → Outcome T → Result T
hand_on c attempts (returned v) = handed_on (returned v)
hand_on c attempts (threw none) =
    if ltb c.max_retries attempts then handed_on (threw none) else type_error
hand_on c attempts (threw (some err)) = handed_on (threw (some err))

-- Where the attempts end: the state, the result, and the delays in order.
pub record Ended (S T : Type 0) : Type 0 where
  pub state : S
  pub result : Result T
  pub delays : List ℕ

module _ {S T : Type 0} (c : RetryConfig) (request : S → S × Outcome T) where
  -- The loop, with fuel for the requests; nothing where the fuel runs out.
  unfoldable pub retry_loop : ℕ → ℕ → List ℕ → S → Option (Ended S T)
  retry_loop zero attempts delays s = none
  retry_loop (suc fuel) attempts delays s =
      let (after, outcome) = request s in
      elim (stops c (suc attempts) outcome) [
        | true ↦
            some
              (record { state = after; result = hand_on c (suc attempts) outcome; delays = delays })
        | false ↦ retry_loop fuel (suc attempts) (delays ++ delay c (suc attempts) ∷ []) after
      ]

  unfoldable pub with_retry : S → Option (Ended S T)
  with_retry s = retry_loop (suc c.max_retries) 0 [] s
