-- ===== src/Sessions/RedisStore.antt =====
-- `RedisSessionStore` of packages/session/src/stores.ts. The Redis client and JSON are parameters. A client
-- takes the time to live of `set` in one of two argument shapes and may reject the other.
use Prim.Native.String
use axiomify.Base.{
  ℕ, String, Bool, true, false, Option, none, some, if◌then◌else◌, ltb, ◌===◌, ◌≡◌, ◌≢◌, ◌⊎◌, inl,
  inr, refl, arith,
}
use mathlib.Core.Option
use axiomify.Sessions.{SessionRecord}

pub data SetStyle : Type 0 where
  variadic object : SetStyle

-- `set` tells whether its promise was fulfilled; the flags say which expiring-set helper there is.
pub record SessionRedisClient (C : Type 0) : Type 0 where
  pub get : String → C → Option String
  pub set : SetStyle → String → String → ℕ → C → C × Bool
  pub del : String → C → C
  pub expire : String → ℕ → C → C
  pub has_setex : Bool
  pub has_set_ex : Bool

pub record RedisSessionStore : Type 0 where
  pub set_style : Option SetStyle
  pub prefix : String

unfoldable pub new_redis_store :
    {C : Type 0} → SessionRedisClient C → Option String → RedisSessionStore
new_redis_store client prefix = record {
  set_style =
      if client.has_setex then some variadic else if client.has_set_ex then some object else none;
  prefix = Option.get_or prefix "axiomify:sess:";
}

unfoldable pub redis_key : RedisSessionStore → String → String
redis_key s id = String.◌++◌ s.prefix id

-- `Math.max(1, Math.ceil(ttl))` of a whole number.
unfoldable pub at_least_one : ℕ → ℕ
at_least_one ttl = if ltb ttl 1 then 1 else ttl

module _ {C D : Type 0} (client : SessionRedisClient C) (parse : String → Option (SessionRecord D))
    (stringify : SessionRecord D → String) where
  -- A text that is not JSON is a miss.
  unfoldable pub get : String → RedisSessionStore → C → Option (SessionRecord D)
  get id s c = elim (client.get (redis_key s id) c) [ none ↦ none | some raw ↦ parse raw ]

  -- The first call without a known style: one shape, and the other where it is rejected. The flag tells
  -- whether the promise was fulfilled.
  unfoldable pub probe : String → String → ℕ → RedisSessionStore → C → RedisSessionStore × C × Bool
  probe key json ttl s c =
      let (c1, first) = client.set variadic key json ttl c in
      let (c2, second) = client.set object key json ttl c1 in
      let other = if second then record s { set_style = some object } else s in
      if first then (record s { set_style = some variadic }, c1, true) else (other, c2, second)

  unfoldable pub set :
      String → SessionRecord D → ℕ → RedisSessionStore → C → RedisSessionStore × C × Bool
  set id stored ttl_seconds s c =
      let key = redis_key s id in
      let ttl = at_least_one ttl_seconds in
      elim s.set_style [
        | none ↦ probe key (stringify stored) ttl s c
        | some style ↦
            let (c1, done) = client.set style key (stringify stored) ttl c in (s, c1, done)
      ]

  unfoldable pub destroy : String → RedisSessionStore → C → C
  destroy id s c = client.del (redis_key s id) c

  unfoldable pub touch : String → ℕ → RedisSessionStore → C → C
  touch id ttl_seconds s c = client.expire (redis_key s id) (at_least_one ttl_seconds) c

-- A client takes one shape, in which it stores the text, and rejects the other with nothing done.
pub record IsLawful {C : Type 0} (shape : SetStyle) (client : SessionRedisClient C) : Type 0 where
  pub takes : (k v : String) (ttl : ℕ) (c : C) → (client.set shape k v ttl c).1 ≡ true
  pub get-set :
      (k j v : String) (ttl : ℕ) (c : C)
      → client.get j (client.set shape k v ttl c).0 ≡ (if k === j then some v else client.get j c)
  pub rejects :
      (style : SetStyle) (k v : String) (ttl : ℕ) (c : C)
      → style ≢ shape
      → client.set style k v ttl c ≡ (c, false)

-- The style is not known, or it is the one that the client takes.
abbrev pub IsSettled : SetStyle → RedisSessionStore → Type 0
IsSettled shape s = (s.set_style ≡ none) ⊎ (s.set_style ≡ some shape)

object-ne-variadic : object ≢ variadic
object-ne-variadic e = cc e

variadic-ne-object : variadic ≢ object
variadic-ne-object e = cc e

module _ {C D : Type 0} (client : SessionRedisClient C) (parse : String → Option (SessionRecord D))
    (stringify : SessionRecord D → String) where
  probe-settles :
      (shape : SetStyle) (key json : String) (ttl : ℕ) (s : RedisSessionStore) (c : C)
      → IsLawful shape client
      → probe client parse stringify key json ttl s c
        ≡ (record s { set_style = some shape }, (client.set shape key json ttl c).0, true)
  unfolding probe
  probe-settles variadic key json ttl s c l = ground (arith, l.takes key json ttl c)
  probe-settles object key json ttl s c l =
      let r = l.rejects variadic key json ttl c variadic-ne-object in
      let t = l.takes key json ttl c in ground arith

  set-settles :
      (shape : SetStyle) (id : String) (stored : SessionRecord D) (ttl : ℕ) (s : RedisSessionStore)
      (c : C)
      → IsLawful shape client
      → IsSettled shape s
      → set client parse stringify id stored ttl s c ≡ (
        record s { set_style = some shape },
        (client.set shape (redis_key s id) (stringify stored) (at_least_one ttl) c).0,
        true,
      )
  unfolding set
  set-settles shape id stored ttl s c l (inl e) =
      ground
        (arith, probe-settles shape (redis_key s id) (stringify stored) (at_least_one ttl) s c l)
  set-settles shape id stored ttl s c l (inr e) =
      ground (arith, l.takes (redis_key s id) (stringify stored) (at_least_one ttl) c)

-- Whatever the store knew of the client's argument shape, if that was right, a write is fulfilled and the
-- store knows the shape; then a read gives the written record under its key and, under every other key,
-- what it gave before. This takes JSON to read back what it wrote.
pub set-redis_get :
    {C D : Type 0} (client : SessionRedisClient C) (parse : String → Option (SessionRecord D))
    (stringify : SessionRecord D → String) (shape : SetStyle) (id j : String)
    (stored : SessionRecord D) (ttl : ℕ) (s : RedisSessionStore) (c : C)
    → IsLawful shape client
    → IsSettled shape s
    → parse (stringify stored) ≡ some stored
    → (s' : RedisSessionStore) × (c' : C) × (set client parse stringify id stored ttl s c
        ≡ (s', c', true))
      × (s'.set_style ≡ some shape)
      × (get client parse stringify j s' c' ≡ (
          if redis_key s id === redis_key s j
          then some stored
          else get client parse stringify j s c))
unfolding get redis_key
set-redis_get client parse stringify shape id j stored ttl s c l k r = (
  record s { set_style = some shape },
  (client.set shape (redis_key s id) (stringify stored) (at_least_one ttl) c).0,
  set-settles client parse stringify shape id stored ttl s c l k,
  refl,
  ground
      (arith, l.get-set (redis_key s id) (redis_key s j) (stringify stored) (at_least_one ttl) c),
)
