-- ===== src/RateLimit/Limiter.antt =====
-- The limiter of packages/rate-limit/src/index.ts: `buildLimiter` over any store, with its default key
-- generator. A call of user code ends in a value or throws; what the limiter does to the response is
-- the list of its calls.
use mathlib.Core.Option
use axiomify.Base.{
  inr, inl, length, Option-cases, Bool-cases, ◌⊎◌, ◌===◌, ◌↔◌, ℕ, ◌+◌, ◌-◌, ◌/◌, ◌≤◌, ◌<◌, String,
  Bool, true, false, Option, none, some, List, [], ◌∷◌, ◌++◌, if◌then◌else◌, ltb, ◌≡◌, refl, arith,
}
use axiomify.RateLimit.{Counted, MemoryStore, new_store, increment}
use axiomify.RateLimit.Counting.{Event, IsChronological, run, recent, increment-recent}

-- The result of code that may throw.
pub data Attempt {ℓ} (A : Type ℓ) : Type ℓ where
  returned : A → Attempt A
  threw : Attempt A

-- What is done to the response.
pub data Action : Type 0 where
  header : String → ℕ → Action
  status : ℕ → Action
  send : String → Action

-- The options, resolved: `skip` may be absent, and `maxRequests` is an older name of `max`.
pub record RateLimitOptions (Request : Type 0) : Type 0 where
  pub window_ms : Option ℕ
  pub max : Option ℕ
  pub max_requests : Option ℕ
  pub key_generator : Option (Request → Attempt String)
  pub key_extractor : Option (Request → Attempt String)
  pub skip : Option (Request → Attempt Bool)
  pub allow_memory_store_in_production : Bool

module _ {Request : Type 0} where
  unfoldable pub window_of : RateLimitOptions Request → ℕ
  window_of o = Option.get_or o.window_ms 60000

  -- `max ?? maxRequests ?? 100`.
  unfoldable pub max_of : RateLimitOptions Request → ℕ
  max_of o = Option.get_or o.max (Option.get_or o.max_requests 100)

  -- `options.skip?.(req)` in its `try`: a throw is no skip.
  unfoldable pub is_skipped : RateLimitOptions Request → Request → Bool
  is_skipped o req = elim o.skip [
    | none ↦ false
    | some skip ↦ elim (skip req) [ returned b ↦ b | threw ↦ false ]
  ]

  -- The part of the limiter from the store's answer on. `Math.max(0, max - count)` is the truncated
  -- difference.
  unfoldable pub answer : RateLimitOptions Request → Attempt Counted → List Action
  answer o threw = status 503 ∷ send "Rate limit service unavailable" ∷ []
  answer o (returned r) =
      let headers =
        header "X-RateLimit-Limit" (max_of o)
        ∷ header "X-RateLimit-Remaining" (max_of o - r.count)
        ∷ header "X-RateLimit-Reset" r.reset_time
        ∷ [] in
      if ltb (max_of o) r.count
      then (headers
          ++ header "Retry-After" ((window_of o + 999) / 1000)
            ∷ status 429
            ∷ send "Too Many Requests"
            ∷ [])
      else headers

  module _ (ip : Request → Option String) where
    -- `!req.ip` is true of an absent and of an empty address.
    unfoldable pub default_key : Request → Attempt String
    default_key req = elim (ip req) [
      | none ↦ returned "unknown"
      | some address ↦ returned (if address === "" then "unknown" else address)
    ]

    unfoldable pub generator_of : RateLimitOptions Request → Request → Attempt String
    generator_of o = Option.get_or o.key_generator (Option.get_or o.key_extractor default_key)

    -- The key, or the address where the generator throws.
    unfoldable pub key_of : RateLimitOptions Request → Request → String
    key_of o req = elim (generator_of o req) [
      | returned key ↦ key
      | threw ↦ Option.get_or (ip req) "unknown"
    ]

    -- The store is a state and its `increment`.
    module _ {S : Type 0} (increment : String → ℕ → S → S × Attempt Counted) where
      unfoldable pub limiter : RateLimitOptions Request → Request → S → S × List Action
      limiter o req s =
          let (s', r) = increment (key_of o req) (window_of o) s in
          if is_skipped o req then (s, []) else (s', answer o r)

-- The first status set.
pub status_sent : List Action → Option ℕ
status_sent [] = none
status_sent (status n ∷ rest) = some n
status_sent (header k v ∷ rest) = status_sent rest
status_sent (send t ∷ rest) = status_sent rest

module _ {Request : Type 0} where
  is_skipped-true :
      (o : RateLimitOptions Request) (req : Request)
      → is_skipped o req ≡ true
      → (skip : Request → Attempt Bool) × (o.skip ≡ some skip) × (skip req ≡ returned true)
  unfolding is_skipped
  is_skipped-true o req h = elim (Option-cases o.skip) [
    | inl e ↦ absurd (ground arith)
    | inr (skip, e) ↦ (skip, e, ground arith)
  ]

  is_skipped_of_true :
      (o : RateLimitOptions Request) (req : Request) (skip : Request → Attempt Bool)
      → o.skip ≡ some skip
      → skip req ≡ returned true
      → is_skipped o req ≡ true
  unfolding is_skipped
  is_skipped_of_true o req skip e h = rw (e, is_skipped) (rw h)

  answer-passes :
      (o : RateLimitOptions Request) (a : Attempt Counted)
      → status_sent (answer o a) ≡ none
      → (r : Counted) × (a ≡ returned r) × (r.count ≤ max_of o)
  unfolding answer status_sent
  answer-passes o threw h = absurd (cc)
  answer-passes o (returned r) h = (r, refl, ground arith)

  answer_of_le :
      (o : RateLimitOptions Request) (r : Counted)
      → r.count ≤ max_of o
      → status_sent (answer o (returned r)) ≡ none
  unfolding answer status_sent
  answer_of_le o r h = ground arith

  answer_of_lt :
      (o : RateLimitOptions Request) (r : Counted)
      → max_of o < r.count
      → status_sent (answer o (returned r)) ≡ some 429
  unfolding answer status_sent
  answer_of_lt o r h = ground arith

module _ {Request : Type 0} (ip : Request → Option String) {S : Type 0}
    (increment : String → ℕ → S → S × Attempt Counted) where
  -- A request passes, with no status set, exactly when a `skip` that returned says so, or the store
  -- answers for the request's key with a count of at most `max`. So a throw in `skip`, in the key
  -- generator or in the store never lets a request past the count.
  pub limiter_passes_iff :
      (o : RateLimitOptions Request) (req : Request) (s : S)
      → (status_sent (limiter ip increment o req s).1 ≡ none)
        ↔ ((skip : Request → Attempt Bool) × (o.skip ≡ some skip) × (skip req ≡ returned true))
          ⊎ ((r : Counted) × ((increment (key_of ip o req) (window_of o) s).1 ≡ returned r)
              × (r.count ≤ max_of o))
  unfolding limiter status_sent
  limiter_passes_iff o req s = elim (Bool-cases (is_skipped o req)) [
    | inl skipped ↦ rw skipped (λ h. inl (is_skipped-true o req skipped), λ h. refl)
    | inr asked ↦ rw asked (
      λ h. inr (answer-passes o (increment (key_of ip o req) (window_of o) s).1 h),
      elim [
        | inl (skip, e, h) ↦ absurd (cc (asked, is_skipped_of_true o req skip e h))
        | inr (r, e, h) ↦ rw e (answer_of_le o r h)
      ],
    )
  ]

-- `increment` of the in-memory store as the limiter calls it.
abbrev pub memory_increment : ℕ → String → ℕ → MemoryStore → MemoryStore × Attempt Counted
memory_increment now key window_ms s =
    let (s', r) = increment now key window_ms s in (s', returned r)

-- The limiter over a new in-memory store with room for the history, whose times never go back: a request
-- that is not skipped is denied with status 429 exactly when its key has already made `max` requests whose
-- window still holds the time; otherwise it passes.
pub limiter-recent :
    {Request : Type 0} (ip : Request → Option String) (o : RateLimitOptions Request) (req : Request)
    (from to : ℕ) (max_keys : Option ℕ) (es : List Event)
    → is_skipped o req ≡ false
    → IsChronological from es to
    → length es < (new_store max_keys).max_keys
    → status_sent
        (limiter ip (memory_increment to) o req (run (window_of o) es (new_store max_keys))).1
      ≡ (if ltb (recent (window_of o) to (key_of ip o req) es) (max_of o) then none else some 429)
unfolding limiter
limiter-recent ip o req from to max_keys es asked c r =
    let s = run (window_of o) es (new_store max_keys) in
    let counted = (increment to (key_of ip o req) (window_of o) s).1 in
    rw asked (
      ground (
        arith,
        increment-recent (window_of o) from to max_keys es (key_of ip o req) c r,
        answer_of_le o counted,
        answer_of_lt o counted,
      ))
