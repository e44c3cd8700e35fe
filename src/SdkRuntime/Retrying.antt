-- ===== src/SdkRuntime/Retrying.antt =====
-- packages/sdk-runtime/src/retry.ts: how often a request is sent and what the caller gets.
use mathlib.Core.List.{Memᴰ}
use mathlib.Core.List.Memᴰ
use axiomify.Base.{
  none, ◌<◌, ltb, ◌==◌, ℕ, zero, suc, ◌+◌, ◌≤◌, true, false, Option, some, List, [], ◌∷◌, ◌++◌, ◌≡◌,
  ◌⊎◌, inl, inr, refl, arith, All, All-append, length, length-append, Bool-cases,
}
use axiomify.SdkRuntime.Retry.{
  RetryConfig, Outcome, returned, threw, Result, handed_on, type_error, RequestError, includes,
  status_of, is_retryable, hand_on, delay, stops, Ended, retry_loop, with_retry,
}

includes-listed : (ms : List ℕ) (n : ℕ) → includes ms n ≡ true → Memᴰ n ms
unfolding includes
includes-listed [] n h = absurd (ground arith)
includes-listed (m ∷ ms) n h = elim (Bool-cases (m == n)) [
  | inl e ↦ let q : n ≡ m = ground arith in Memᴰ.head q
  | inr e ↦ Memᴰ.tail (includes-listed ms n (ground arith))
]

listed-includes : (ms : List ℕ) (n : ℕ) → Memᴰ n ms → includes ms n ≡ true
unfolding includes
listed-includes [] n h = absurd (Memᴰ.not-nil h)
listed-includes (m ∷ ms) n h = elim (Memᴰ.cases_cons h) [
  | inl e ↦ ground arith
  | inr later ↦ let k = listed-includes ms n later in ground arith
]

retryable-listed :
    (c : RetryConfig) (err : RequestError)
    → is_retryable c err ≡ true
    → (status_of err ≡ 0) ⊎ Memᴰ (status_of err) c.retryable_status_codes
unfolding is_retryable
retryable-listed c err h = elim (Bool-cases (status_of err == 0)) [
  | inl e ↦ inl (ground arith)
  | inr e ↦ inr (includes-listed c.retryable_status_codes (status_of err) (ground arith))
]

listed-retryable :
    (c : RetryConfig) (err : RequestError)
    → (status_of err ≡ 0) ⊎ Memᴰ (status_of err) c.retryable_status_codes
    → is_retryable c err ≡ true
unfolding is_retryable
listed-retryable c err (inl e) = ground arith
listed-retryable c err (inr m) =
    let k = listed-includes c.retryable_status_codes (status_of err) m in ground arith

module _ {T : Type 0} (c : RetryConfig) where
  -- The outcome is an error, with no status or one of the codes.
  abbrev pub IsRetried : Outcome T → Type 0
  IsRetried (returned _) = ⊥
  IsRetried (threw none) = ⊥
  IsRetried (threw (some err)) = (status_of err ≡ 0) ⊎ Memᴰ (status_of err) c.retryable_status_codes

  -- What the caller gets of the last outcome, which came after the number of retries.
  abbrev pub IsResult : ℕ → Outcome T → Result T → Type 0
  IsResult n (returned v) r = r ≡ handed_on (returned v)
  IsResult n (threw none) r =
      ((n ≡ c.max_retries) × (r ≡ handed_on (threw none)))
      ⊎ ((n < c.max_retries) × (r ≡ type_error))
  IsResult n (threw (some err)) r = r ≡ handed_on (threw (some err))

  hand_on-IsResult :
      (n : ℕ) (o : Outcome T) → n ≤ c.max_retries → IsResult n o (hand_on c (suc n) o)
  unfolding hand_on
  hand_on-IsResult n (returned v) l = refl
  hand_on-IsResult n (threw none) l = elim (Bool-cases (ltb c.max_retries (suc n))) [
    | inl e ↦ inl (ground arith, rw e refl)
    | inr e ↦ inr (ground arith, rw e refl)
  ]
  hand_on-IsResult n (threw (some err)) l = refl

  stops_final :
      (n : ℕ) (o : Outcome T)
      → n ≤ c.max_retries
      → stops c (suc n) o ≡ true
      → (n ≡ c.max_retries) ⊎ (¬ IsRetried o)
  unfolding stops
  stops_final n (returned v) l h = inr (λ r. r)
  stops_final n (threw none) l h = inr (λ r. r)
  stops_final n (threw (some err)) l h = elim (Bool-cases (ltb c.max_retries (suc n))) [
    | inl e ↦ inl (ground arith)
    | inr e ↦ inr (λ r. let k = listed-retryable c err r in absurd (ground arith))
  ]

  goes_on :
      (n : ℕ) (o : Outcome T) → stops c (suc n) o ≡ false → (suc n ≤ c.max_retries) × IsRetried o
  unfolding stops
  goes_on n (returned v) h = absurd (ground arith)
  goes_on n (threw none) h = absurd (ground arith)
  goes_on n (threw (some err)) h = (ground arith, retryable-listed c err (ground arith))

module _ {S T : Type 0} (c : RetryConfig) (request : S → S × Outcome T) where
  -- The state and the outcome after the request was sent once more than the number.
  abbrev pub attempt : ℕ → S → S × Outcome T
  attempt zero s = request s
  attempt (suc n) s = attempt n (request s).0

  -- The first attempts of that number all end in errors that are to be retried.
  abbrev pub AllRetried : ℕ → S → Type 0
  AllRetried zero s = Unit
  AllRetried (suc n) s = IsRetried c (request s).1 × AllRetried n (request s).0

  -- The attempts of the loop, of which some have been made before.
  pub record Tried (made : ℕ) (earlier : List ℕ) (s : S) (r : Option (Ended S T)) : Type 0 where
    pub ended : Ended S T
    pub is_result : r ≡ some ended
    pub retries : ℕ
    pub at_most : made + retries ≤ c.max_retries
    pub state_eq : ended.state ≡ (attempt retries s).0
    pub result_is : IsResult c (made + retries) (attempt retries s).1 ended.result
    pub waits : length ended.delays ≡ length earlier + retries
    pub bounded : All (λ d. d ≤ c.max_delay_ms) ended.delays
    pub retried : AllRetried retries s
    pub final : (made + retries ≡ c.max_retries) ⊎ (¬ IsRetried c (attempt retries s).1)

  delay-le : (n : ℕ) → delay c n ≤ c.max_delay_ms
  unfolding delay
  delay-le n = ground arith

  retry_loop_stop :
      (fuel made : ℕ) (earlier : List ℕ) (s : S)
      → stops c (suc made) (request s).1 ≡ true
      → retry_loop c request (suc fuel) made earlier s
        ≡ some (record {
          state = (request s).0;
          result = hand_on c (suc made) (request s).1;
          delays = earlier;
        })
  unfolding retry_loop
  retry_loop_stop fuel made earlier s e = ground arith

  retry_loop_go :
      (fuel made : ℕ) (earlier : List ℕ) (s : S)
      → stops c (suc made) (request s).1 ≡ false
      → retry_loop c request (suc fuel) made earlier s
        ≡ retry_loop c request fuel (suc made) (earlier ++ delay c (suc made) ∷ []) (request s).0
  unfolding retry_loop
  retry_loop_go fuel made earlier s e = ground arith

  retry_loop-Tried :
      (fuel made : ℕ) (earlier : List ℕ) (s : S)
      → fuel + made ≡ suc c.max_retries
      → made ≤ c.max_retries
      → All (λ d. d ≤ c.max_delay_ms) earlier
      → Tried made earlier s (retry_loop c request fuel made earlier s)
  retry_loop-Tried zero made earlier s f l a = absurd (omega arith)
  retry_loop-Tried (suc fuel) made earlier s f l a =
      elim (Bool-cases (stops c (suc made) (request s).1)) [
        | inl e ↦
            let same : made + 0 ≡ made = omega arith in
            record {
              ended = record {
                state = (request s).0;
                result = hand_on c (suc made) (request s).1;
                delays = earlier;
              };
              is_result = retry_loop_stop fuel made earlier s e;
              retries = 0;
              at_most = omega arith;
              state_eq = refl;
              result_is = rw same (hand_on-IsResult c made (request s).1 l);
              waits = omega arith;
              bounded = a;
              retried = tt;
              final = rw same (stops_final c made (request s).1 l e);
            }
        | inr e ↦
            let (more, again) = goes_on c made (request s).1 e in
            let later = earlier ++ delay c (suc made) ∷ [] in
            let t = retry_loop-Tried fuel (suc made) later (request s).0 (omega arith) more (
              All-append (λ d. d ≤ c.max_delay_ms) earlier (delay c (suc made) ∷ []) a
                (delay-le (suc made), tt)) in
            let shifted : made + suc t.retries ≡ suc made + t.retries = omega arith in
            record {
              ended = t.ended;
              is_result = rw (retry_loop_go fuel made earlier s e) t.is_result;
              retries = suc t.retries;
              at_most = omega (arith, t.at_most);
              state_eq = t.state_eq;
              result_is = rw shifted t.result_is;
              waits = omega (arith, t.waits, length-append earlier (delay c (suc made) ∷ []));
              bounded = t.bounded;
              retried = (again, t.retried);
              final = rw shifted t.final;
            }
      ]

-- `withRetry` always ends, after one request and at most `maxRetries` more. Each request before the last
-- fails with an error that is retried: one with no status, or with one of the codes. The last one uses up
-- the retries, or returns, or fails with an error that is not retried. The caller gets its outcome, except
-- where it rejects with null or undefined before the retries are used up: then the caller gets a
-- TypeError. There is one delay, of at most `maxDelayMs`, for each retry.
pub with_retry-Tried :
    {S T : Type 0} (c : RetryConfig) (request : S → S × Outcome T) (s : S)
    → Tried c request 0 [] s (with_retry c request s)
unfolding with_retry
with_retry-Tried c request s =
    retry_loop-Tried c request (suc c.max_retries) 0 [] s (omega arith) (omega arith) tt
