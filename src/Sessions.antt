-- ===== src/Sessions.antt =====
-- packages/session/src/stores.ts: `MemorySessionStore`. The data of a session is of any type; each method
-- takes the time that `Date.now()` gives. The Redis store is in RedisStore.
pub mod Evicting
pub mod RedisStore
use axiomify.Base.{
  ℕ, zero, suc, ◌+◌, ◌*◌, String, Bool, not, Option, none, some, List, [], ◌∷◌, if◌then◌else◌, ltb,
  leb, length,
}
use mathlib.Core.Option
use axiomify.JsMap
use axiomify.JsMap.{first_key, keep}

pub record SessionRecord (D : Type 0) : Type 0 where
  pub session_data : D
  pub created_at : ℕ

pub record Entry (D : Type 0) : Type 0 where
  pub stored : SessionRecord D
  pub expires_at : ℕ

pub record MemorySessionStore (D : Type 0) : Type 0 where
  pub sessions : List (String × Entry D)
  pub max_sessions : ℕ

module _ {D : Type 0} where
  unfoldable pub new_store : Option ℕ → MemorySessionStore D
  new_store max_sessions = record {
    sessions = [];
    max_sessions = Option.get_or max_sessions 100000;
  }

  abbrev pub is_live : ℕ → String → Entry D → Bool
  is_live now id entry = not (leb entry.expires_at now)

  unfoldable pub sweep : ℕ → List (String × Entry D) → List (String × Entry D)
  sweep now sessions = keep (is_live now) sessions

  unfoldable pub get :
      ℕ → String → MemorySessionStore D → MemorySessionStore D × Option (SessionRecord D)
  get now id s = elim (JsMap.get id s.sessions) [
    | none ↦ (s, none)
    | some entry ↦
        if leb entry.expires_at now
        then (record s { sessions = JsMap.delete id s.sessions }, none)
        else (s, some entry.stored)
  ]

  -- The loop that deletes the oldest key, with the number of sessions as fuel.
  unfoldable pub evict_loop : ℕ → ℕ → List (String × Entry D) → List (String × Entry D)
  evict_loop zero max sessions = sessions
  evict_loop (suc fuel) max sessions = elim (first_key sessions) [
    | none ↦ sessions
    | some oldest ↦
        let rest = evict_loop fuel max (JsMap.delete oldest sessions) in
        if ltb max (length sessions) then rest else sessions
  ]

  unfoldable pub set :
      ℕ → String → SessionRecord D → ℕ → MemorySessionStore D → MemorySessionStore D
  set now id stored ttl_seconds s =
      let entry : Entry D = record { stored = stored; expires_at = now + ttl_seconds * 1000 } in
      let written = JsMap.set id entry (JsMap.delete id s.sessions) in
      let live = sweep now written in
      record s {
        sessions =
            if ltb s.max_sessions (length written)
            then evict_loop (length live) s.max_sessions live
            else written;
      }

  unfoldable pub destroy : String → MemorySessionStore D → MemorySessionStore D
  destroy id s = record s { sessions = JsMap.delete id s.sessions }

  unfoldable pub touch : ℕ → String → ℕ → MemorySessionStore D → MemorySessionStore D
  touch now id ttl_seconds s = elim (JsMap.get id s.sessions) [
    | none ↦ s
    | some entry ↦ record s {
      sessions = JsMap.set id (record entry { expires_at = now + ttl_seconds * 1000 }) s.sessions;
    }
  ]
