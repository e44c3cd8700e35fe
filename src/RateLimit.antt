-- ===== src/RateLimit.antt =====
-- packages/rate-limit/src/index.ts: `MemoryStore`, a sliding window of timestamps for each key. The
-- source compares a timestamp with `now - windowMs`, which may be negative; the tests here add the
-- window to the timestamp, which says the same of integers.
pub mod Window
pub mod Pruning
pub mod Tally
pub mod Tracking
pub mod Counting
pub mod Limiter
pub mod RedisStore
use mathlib.Core.Option
use axiomify.Base.{
  ℕ, zero, suc, ◌+◌, ◌-◌, ◌*◌, ◌/◌, String, Bool, true, false, ◌&&◌, Option, none, some, List, [],
  ◌∷◌, ◌++◌, if◌then◌else◌, ltb, leb, length, get_elem?, drop,
}
use axiomify.JsMap

-- The value of the map `hits`.
pub record Hits : Type 0 where
  pub timestamps : List ℕ
  pub start : ℕ
  pub window_ms : ℕ

pub record MemoryStore : Type 0 where
  pub hits : List (String × Hits)
  pub max_keys : ℕ

unfoldable pub new_store : Option ℕ → MemoryStore
new_store max_keys = record { hits = []; max_keys = Option.get_or max_keys 50000 }

-- `start < timestamps.length && timestamps[start] <= now - windowMs`.
unfoldable pub is_stale : ℕ → ℕ → Hits → Bool
is_stale now window_ms d = elim (get_elem? d.timestamps d.start) [
  | none ↦ false
  | some t ↦ leb (t + window_ms) now
]

unfoldable pub advance_loop : ℕ → ℕ → ℕ → Hits → Hits
advance_loop zero now window_ms d = d
advance_loop (suc fuel) now window_ms d = elim (is_stale now window_ms d) [
  | true ↦ advance_loop fuel now window_ms (record d { start = suc d.start })
  | false ↦ d
]

-- The loop that moves `start` past the timestamps that left the window. Each round moves it by one,
-- and it stops at the end of the list.
unfoldable pub advance : ℕ → ℕ → Hits → Hits
advance now window_ms d = advance_loop (length d.timestamps) now window_ms d

-- Dropping the dead prefix once it is long.
unfoldable pub compact : Hits → Hits
compact d =
    if ltb 1024 d.start && ltb (length d.timestamps) (d.start * 2)
    then record d { timestamps = drop d.start d.timestamps; start = 0 }
    else d

abbrev pub is_spent : Hits → Bool
is_spent d = leb (length d.timestamps) d.start

-- What one round of `prune` makes of an entry, which is mutated also where it is deleted.
unfoldable pub prune_entry : ℕ → Hits → Hits
prune_entry now d = let d' = advance now d.window_ms d in if is_spent d' then d' else compact d'

unfoldable pub prune_hits : ℕ → List (String × Hits) → List (String × Hits)
prune_hits now [] = []
prune_hits now ((key, d) ∷ m) =
    let rest = prune_hits now m in
    if is_spent (advance now d.window_ms d) then rest else (key, prune_entry now d) ∷ rest

unfoldable pub prune : ℕ → MemoryStore → MemoryStore
prune now s = record s { hits = prune_hits now s.hits }

-- The loop that deletes the oldest keys; `none` of `first_key` is its `break`.
unfoldable pub evict_keys : ℕ → MemoryStore → MemoryStore
evict_keys zero s = s
evict_keys (suc fuel) s = elim (ltb s.max_keys (length s.hits)) [
  | true ↦ elim (JsMap.first_key s.hits) [
    | none ↦ s
    | some oldest_key ↦ evict_keys fuel (record s { hits = JsMap.delete oldest_key s.hits })
  ]
  | false ↦ s
]

-- `this.hits.get(key) ?? { timestamps: [], start: 0, windowMs }`.
unfoldable pub data_of : String → ℕ → MemoryStore → Hits
data_of key window_ms s =
    Option.get_or (JsMap.get key s.hits)
      (record { timestamps = []; start = 0; window_ms = window_ms })

-- The steps on the entry before it is stored: skip, push, compact.
unfoldable pub record_hit : ℕ → ℕ → Hits → Hits
record_hit now window_ms d =
    let d' = advance now window_ms d in
    compact (record d' { timestamps = d'.timestamps ++ now ∷ [] })

pub record Counted : Type 0 where
  pub count : ℕ
  pub reset_time : ℕ

-- The result, read from the entry; `Math.ceil` of a quotient by 1000.
unfoldable pub result_of : ℕ → ℕ → Hits → Counted
result_of now window_ms d = record {
  count = length d.timestamps - d.start;
  reset_time = (Option.get_or (get_elem? d.timestamps d.start) now + window_ms + 999) / 1000;
}

-- The entry in the map is the object from which the result is read, so that a `prune` inside the call
-- changes both.
unfoldable pub increment : ℕ → String → ℕ → MemoryStore → MemoryStore × Counted
increment now key window_ms s =
    let d = record_hit now window_ms (data_of key window_ms s) in
    let s' : MemoryStore = record s { hits = JsMap.set key d s.hits } in
    let pruned = prune now s' in
    if ltb s.max_keys (length s'.hits)
    then (evict_keys (length pruned.hits) pruned, result_of now window_ms (prune_entry now d))
    else (s', result_of now window_ms d)
