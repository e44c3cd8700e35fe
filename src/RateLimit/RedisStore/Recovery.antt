-- ===== src/RateLimit/RedisStore/Recovery.antt =====
-- `RedisStore.increment` of packages/rate-limit/src/index.ts against a server that runs the script.
use axiomify.Base.{
  String, Bool, true, false, none, some, ◌≡◌, ◌≢◌, ◌⊎◌, inl, inr, refl, arith, Bool-cases,
}
use axiomify.RateLimit.{Counted}
use axiomify.RateLimit.RedisStore.{
  Style, object, variadic, Args, Reply, ok, error, RedisClient, RedisStore, is_no_script, eval_with,
  eval, eval_sha_with, eval_sha, load, increment,
}

-- What the store remembers of the client's shapes is nothing or right.
pub record IsSettled (shape : Style) (s : RedisStore) : Type 0 where
  pub eval : (s.eval_style ≡ none) ⊎ (s.eval_style ≡ some shape)
  pub eval_sha : (s.eval_sha_style ≡ none) ⊎ (s.eval_sha_style ≡ some shape)

module _ {C : Type 0} (shape : Style) (script : Args → C → C × Counted) where
  -- The client's `eval` runs the script in one argument shape, and rejects calls in the other.
  pub record Evaluates (f : Style → Args → C → C × Reply) : Type 0 where
    pub runs : (args : Args) (c : C) → f shape args c ≡ ((script args c).0, ok (script args c).1)
    pub rejects :
        (style : Style) (args : Args) (c : C)
        → style ≢ shape
        → (msg : String) × (f style args c ≡ (c, error msg))

  -- Its `evalsha` runs the script where the server has it cached, and answers NOSCRIPT where not.
  pub record EvaluatesSha (cached : C → Bool) (f : Style → Args → C → C × Reply) : Type 0 where
    pub runs :
        (args : Args) (c : C)
        → cached c ≡ true
        → f shape args c ≡ ((script args c).0, ok (script args c).1)
    pub misses :
        (args : Args) (c : C)
        → cached c ≡ false
        → (msg : String) × (f shape args c ≡ (c, error msg)) × (is_no_script msg ≡ true)
    pub rejects :
        (style : Style) (args : Args) (c : C)
        → style ≢ shape
        → (msg : String) × (f style args c ≡ (c, error msg)) × (is_no_script msg ≡ false)

  abbrev ran : Args → C → RedisStore → RedisStore × C × Reply
  ran args c s = (s, (script args c).0, ok (script args c).1)

other : Style → Style
other object = variadic
other variadic = object

module _ {C : Type 0} (script : Args → C → C × Counted) where
  eval_with-ran :
      (shape : Style) (f : Style → Args → C → C × Reply) (args : Args) (s : RedisStore) (c : C)
      → Evaluates shape script f
      → (s.eval_style ≡ none) ⊎ (s.eval_style ≡ some shape)
      → eval_with f args s c ≡ ran shape script args c (record s { eval_style = some shape })
  unfolding eval_with
  eval_with-ran object f args s c e (inl new) = ground (arith, e.runs args c)
  eval_with-ran variadic f args s c e (inl new) =
      let (msg, r) = e.rejects object args c (λ p. cc p) in ground (arith, r, e.runs args c)
  eval_with-ran shape f args s c e (inr known) = ground (arith, e.runs args c)

  eval_sha_with-ran :
      (shape : Style) (cached : C → Bool) (f : Style → Args → C → C × Reply) (args : Args)
      (s : RedisStore) (c : C)
      → EvaluatesSha shape script cached f
      → (s.eval_sha_style ≡ none) ⊎ (s.eval_sha_style ≡ some shape)
      → cached c ≡ true
      → eval_sha_with f args s c
        ≡ ran shape script args c (record s { eval_sha_style = some shape })
  unfolding eval_sha_with
  eval_sha_with-ran variadic cached f args s c e (inl new) h = ground (arith, e.runs args c h)
  eval_sha_with-ran object cached f args s c e (inl new) h =
      let (msg, r, n) = e.rejects variadic args c (λ p. cc p) in
      ground (arith, r, n, e.runs args c h)
  eval_sha_with-ran shape cached f args s c e (inr known) h = ground (arith, e.runs args c h)

  eval_sha_with_missed :
      (shape : Style) (cached : C → Bool) (f : Style → Args → C → C × Reply) (args : Args)
      (s : RedisStore) (c : C)
      → EvaluatesSha shape script cached f
      → (s.eval_sha_style ≡ none) ⊎ (s.eval_sha_style ≡ some shape)
      → cached c ≡ false
      → (msg : String) × (eval_sha_with f args s c ≡ (s, c, error msg)) × (is_no_script msg ≡ true)
  unfolding eval_sha_with
  eval_sha_with_missed variadic cached f args s c e (inl new) h =
      let (msg, r, n) = e.misses args c h in (msg, ground (arith, r, n), n)
  eval_sha_with_missed object cached f args s c e (inl new) h =
      let (msg, r, n) = e.misses args c h in
      let (first, r', n') = e.rejects variadic args c (λ p. cc p) in
      (msg, ground (arith, r, n, r', n'), n)
  eval_sha_with_missed shape cached f args s c e (inr known) h =
      let (msg, r, n) = e.misses args c h in (msg, ground (arith, r), n)

  module _ (shape : Style) (cached : C → Bool) (client : RedisClient C)
      (f : Style → Args → C → C × Reply) (has_eval : client.eval ≡ some f)
      (e : Evaluates shape script f)
      (sha : (client.eval_sha ≡ none)
        ⊎ ((g : Style → Args → C → C × Reply) × (client.eval_sha ≡ some g)
            × EvaluatesSha shape script cached g)) where
    load-ran :
        (args : Args) (s : RedisStore) (c : C)
        → IsSettled shape s
        → load client args s c
          ≡ ran shape script args c (record s { script_loaded = true; eval_style = some shape })
    unfolding load eval
    load-ran args s c h = ground (arith, has_eval, eval_with-ran shape f args s c e h.eval)

    -- The cached path runs the script or ends in NOSCRIPT with nothing done.
    eval_sha-cases :
        (args : Args) (s : RedisStore) (c : C)
        → IsSettled shape s
        → (eval_sha client args s c
            ≡ ran shape script args c (record s { eval_sha_style = some shape }))
          ⊎ ((msg : String) × (eval_sha client args s c ≡ (s, c, error msg))
              × (is_no_script msg ≡ true))
    unfolding eval_sha is_no_script
    eval_sha-cases args s c h = elim sha [
      | inl absent ↦ inr ("NOSCRIPT", ground (arith, absent), refl)
      | inr (g, has_sha, eg) ↦ elim (Bool-cases (cached c)) [
        | inl hit ↦
            inl
              (ground (arith, has_sha, eval_sha_with-ran shape cached g args s c eg h.eval_sha hit))
        | inr miss ↦
            let (msg, r, n) = eval_sha_with_missed shape cached g args s c eg h.eval_sha miss in
            inr (msg, ground (arith, has_sha, r), n)
      ]
    ]

    -- Whatever the server has cached, whichever of the two argument shapes the client takes, and
    -- whatever the store remembers of earlier calls, `increment` runs the script exactly once and
    -- returns its numbers; afterwards the script counts as loaded, and what the store remembers is
    -- right.
    pub increment_runs_script :
        (args : Args) (s : RedisStore) (c : C)
        → IsSettled shape s
        → (s' : RedisStore) × (increment client args s c
            ≡ (s', (script args c).0, ok (script args c).1))
          × IsSettled shape s'
          × (s'.script_loaded ≡ true)
    unfolding increment
    increment_runs_script args s c h = elim (Bool-cases s.script_loaded) [
      | inl loaded ↦ elim (eval_sha-cases args s c h) [
        | inl hit ↦ (
          record s { eval_sha_style = some shape },
          ground (arith, loaded, hit),
          record { eval = h.eval; eval_sha = inr refl },
          loaded,
        )
        | inr (msg, missed, n) ↦ (
          record s { script_loaded = true; eval_style = some shape },
          ground (
            arith,
            loaded,
            missed,
            n,
            load-ran args (record s { script_loaded = false }) c
                (record { eval = h.eval; eval_sha = h.eval_sha }),
          ),
          record { eval = inr refl; eval_sha = h.eval_sha },
          refl,
        )
      ]
      | inr fresh ↦ (
        record s { script_loaded = true; eval_style = some shape },
        ground (arith, fresh, load-ran args s c h),
        record { eval = inr refl; eval_sha = h.eval_sha },
        refl,
      )
    ]
