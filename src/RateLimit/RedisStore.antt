-- ===== src/RateLimit/RedisStore.antt =====
-- `RedisStore` of packages/rate-limit/src/index.ts: the cached script and the shape of the client's calls.
-- The client is a parameter: a state and its two kinds of call, each in two argument shapes.
pub mod Recovery
use text.Mathlib.Text.{find?}
use axiomify.Base.{ℕ, zero, suc, String, Bool, true, false, Option, none, some, if◌then◌else◌}
use axiomify.RateLimit.{Counted}

pub data Style : Type 0 where
  object variadic : Style

-- `KEYS` and `ARGV` of the script.
pub record Args : Type 0 where
  pub key : String
  pub now : ℕ
  pub window_ms : ℕ
  pub member : String

-- What a call of the client resolves to: the script's two numbers, or the message of an error.
pub data Reply : Type 0 where
  ok : Counted → Reply
  error : String → Reply

-- `eval` and the one of `evalsha` and `evalSha` that is there; `none` where the client has no such
-- function.
pub record RedisClient (C : Type 0) : Type 0 where
  pub eval : Option (Style → Args → C → C × Reply)
  pub eval_sha : Option (Style → Args → C → C × Reply)

pub record RedisStore : Type 0 where
  pub script_loaded : Bool
  pub eval_style : Option Style
  pub eval_sha_style : Option Style

abbrev pub new_redis_store : RedisStore
new_redis_store = record { script_loaded = false; eval_style = none; eval_sha_style = none }

-- `msg.includes('NOSCRIPT')`.
unfoldable pub is_no_script : String → Bool
is_no_script msg = elim (find? msg "NOSCRIPT") [ none ↦ false | some _ ↦ true ]

module _ {C : Type 0} where
  -- `_eval` with a client that has the function.
  unfoldable pub eval_with :
      (Style → Args → C → C × Reply) → Args → RedisStore → C → RedisStore × C × Reply
  eval_with f args s c = elim s.eval_style [
    | some style ↦ let (c', r) = f style args c in (s, c', r)
    | none ↦
        let (c₁, r₁) = f object args c in
        let (c₂, r₂) = f variadic args c₁ in
        let second : RedisStore × C × Reply = elim r₂ [
          | ok n ↦ (record s { eval_style = some variadic }, c₂, ok n)
          | error msg ↦ (s, c₂, error msg)
        ] in
        elim r₁ [ ok n ↦ (record s { eval_style = some object }, c₁, ok n) | error _ ↦ second ]
  ]

  unfoldable pub eval : RedisClient C → Args → RedisStore → C → RedisStore × C × Reply
  eval client args s c = elim client.eval [
    | none ↦ (s, c, error "[axiomify/rate-limit] RedisClient must implement eval()")
    | some f ↦ eval_with f args s c
  ]

  -- `_evalSha` with a client that has the function.
  unfoldable pub eval_sha_with :
      (Style → Args → C → C × Reply) → Args → RedisStore → C → RedisStore × C × Reply
  eval_sha_with f args s c = elim s.eval_sha_style [
    | some style ↦ let (c', r) = f style args c in (s, c', r)
    | none ↦
        let (c₁, r₁) = f variadic args c in
        let (c₂, r₂) = f object args c₁ in
        elim r₁ [
          | ok n ↦ (record s { eval_sha_style = some variadic }, c₁, ok n)
          | error first ↦
              let second : RedisStore × C × Reply = elim r₂ [
                | ok n ↦ (record s { eval_sha_style = some object }, c₂, ok n)
                | error msg ↦ (s, c₂, error (if is_no_script msg then msg else first))
              ] in
              if is_no_script first then (s, c₁, error first) else second
        ]
  ]

  unfoldable pub eval_sha : RedisClient C → Args → RedisStore → C → RedisStore × C × Reply
  eval_sha client args s c = elim client.eval_sha [
    | none ↦ (s, c, error "NOSCRIPT")
    | some f ↦ eval_sha_with f args s c
  ]

  -- `_eval` and, if it resolves, `_scriptLoaded = true`.
  unfoldable pub load : RedisClient C → Args → RedisStore → C → RedisStore × C × Reply
  load client args s c =
      let (s', c', r) = eval client args s c in
      elim r [
        | ok n ↦ (record s' { script_loaded = true }, c', ok n)
        | error msg ↦ (s', c', error msg)
      ]

  unfoldable pub increment : RedisClient C → Args → RedisStore → C → RedisStore × C × Reply
  increment client args s c =
      let (s', c', r) = eval_sha client args s c in
      let retried = load client args (record s' { script_loaded = false }) c' in
      let cached : RedisStore × C × Reply = elim r [
        | ok n ↦ (s', c', ok n)
        | error msg ↦ if is_no_script msg then retried else (s', c', error msg)
      ] in
      if s.script_loaded then cached else load client args s c
