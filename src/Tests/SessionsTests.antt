-- ===== src/Tests/SessionsTests.antt =====
-- The session stores of packages/session on small inputs, the Redis store over a client that holds a map.
use axiomify.Base.{
  ◌≢◌, ℕ, ◌≤◌, String, Bool, true, false, none, some, List, [], ◌∷◌, if◌then◌else◌, length, ◌===◌,
  ◌≡◌, inl, refl,
}
use axiomify.JsMap
use axiomify.JsMap.Laws.{get-set}
use axiomify.Sessions
use axiomify.Sessions.{SessionRecord, Entry, MemorySessionStore, sweep, evict_loop}
use axiomify.Sessions.Evicting.{kept, rewritten, set-kept}
use axiomify.Sessions.RedisStore
use axiomify.Sessions.RedisStore.{
  SetStyle, variadic, object, SessionRedisClient, RedisSessionStore, redis_key, IsLawful,
  set-redis_get,
}

program : Unit {0}
unfolding Sessions.set Sessions.sweep Sessions.evict_loop RedisStore.get RedisStore.set
    RedisStore.probe redis_key RedisStore.new_redis_store RedisStore.at_least_one JsMap.get
    JsMap.set JsMap.delete JsMap.keep
program = tt

abbrev number_record : ℕ → SessionRecord ℕ
number_record n = record { session_data = n; created_at = 0 }

-- Two sessions of at most two, the first of which expires at 5.
abbrev two_sessions : MemorySessionStore ℕ
two_sessions = record {
  sessions =
      ("a", record { stored = number_record 1; expires_at = 5 })
      ∷ ("b", record { stored = number_record 2; expires_at = 5000 })
      ∷ [];
  max_sessions = 2;
}

-- The expired session makes room.
room_made : length (Sessions.set 10 "c" (number_record 3) 60 two_sessions).sessions ≡ 2
unfolding Sessions.set Sessions.sweep Sessions.evict_loop JsMap.set JsMap.delete JsMap.keep
room_made = refl

set-kept_example :
    ((Sessions.set 10 "c" (number_record 3) 60 two_sessions).sessions
      ≡ kept 10 2 (rewritten 10 "c" (number_record 3) 60 two_sessions))
    × (length (Sessions.set 10 "c" (number_record 3) 60 two_sessions).sessions ≤ 2)
unfolding JsMap.get
set-kept_example = set-kept 10 "c" (number_record 3) 60 two_sessions (refl, (refl, tt))

-- A client of the object shape on a map of texts.
abbrev put : SetStyle → String → String → List (String × String) → List (String × String) × Bool
put variadic k v c = (c, false)
put object k v c = (JsMap.set k v c, true)

abbrev map_client : SessionRedisClient (List (String × String))
map_client = record {
  get = λ k c. JsMap.get k c;
  set = λ style k v ttl c. put style k v c;
  del = λ k c. JsMap.delete k c;
  expire = λ k ttl c. c;
  has_setex = false;
  has_set_ex = false;
}

rejects_variadic :
    (style : SetStyle) (k v : String) (c : List (String × String))
    → style ≢ object
    → put style k v c ≡ (c, false)
rejects_variadic variadic k v c n = refl
rejects_variadic object k v c n = absurd (n refl)

map_client-IsLawful : IsLawful object map_client
map_client-IsLawful = record {
  takes = λ k v ttl c. refl;
  get-set = λ k j v ttl c. get-set j k v c;
  rejects = λ style k v ttl c n. rejects_variadic style k v c n;
}

-- Records of a text, which stand for their own JSON.
abbrev text_record : String → SessionRecord String
text_record t = record { session_data = t; created_at = 0 }

abbrev fresh_store : RedisSessionStore
fresh_store = record { set_style = none; prefix = "s:" }

set-redis_get_example :
    (s' : RedisSessionStore) × (c' : List (String × String)) × (RedisStore.set map_client
        (λ t. some (text_record t))
        (λ r. r.session_data)
        "x"
        (text_record "hi")
        60
        fresh_store
        []
      ≡ (s', c', true))
    × (s'.set_style ≡ some object)
    × (RedisStore.get map_client (λ t. some (text_record t)) (λ r. r.session_data) "x" s' c' ≡ (
        if redis_key fresh_store "x" === redis_key fresh_store "x"
        then some (text_record "hi")
        else RedisStore.get map_client
            (λ t. some (text_record t))
            (λ r. r.session_data)
            "x"
            fresh_store
            []))
set-redis_get_example =
    set-redis_get map_client (λ t. some (text_record t)) (λ r. r.session_data) object "x" "x"
      (text_record "hi") 60 fresh_store [] map_client-IsLawful (inl refl) refl
