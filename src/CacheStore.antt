-- ===== src/CacheStore.antt =====
-- packages/cache/src/store.ts: `CacheEntry` and `MemoryCacheStore`. Each operation takes the time that
-- `Date.now()` gives as an argument and returns the new state.
pub mod Eviction
pub mod Accounting
pub mod Reading
pub mod Sweeping
pub mod Calls
pub mod Locking
use Prim.Native.Char.{code}
use Prim.Native.String
use mathlib.Core.Option
use text.Mathlib.Text.{starts_with}
use axiomify.Base.{
  ℕ, zero, suc, ◌+◌, ◌-◌, ◌*◌, String, Bool, true, false, not, ◌||◌, Option, none, some, List, [],
  ◌∷◌, if◌then◌else◌, ltb, leb, length,
}
use axiomify.JsMap

-- The HTTP strings and numbers of an entry; `vary` lists lowercased header names and values.
pub record CacheEntry : Type 0 where
  pub payload : String
  pub status_code : ℕ
  pub content_type : String
  pub etag : Option String
  pub stored_at : ℕ
  pub ttl_ms : ℕ
  pub swr_ms : ℕ
  pub vary : Option (List (String × String))

pub record MemRecord : Type 0 where
  pub entry : CacheEntry
  pub expires_at : ℕ
  pub bytes : ℕ

abbrev pub entry_overhead_bytes : ℕ
entry_overhead_bytes = 200

pub record MemoryCacheStore : Type 0 where
  pub records : List (String × MemRecord)
  pub locks : List (String × ℕ)
  pub bytes : ℕ
  pub max_entries : ℕ
  pub max_bytes : ℕ

unfoldable pub new_store : Option ℕ → Option ℕ → MemoryCacheStore
new_store max_entries max_bytes = record {
  records = [];
  locks = [];
  bytes = 0;
  max_entries = Option.get_or max_entries 1000;
  max_bytes = Option.get_or max_bytes (32 * 1024 * 1024);
}

unfoldable pub size : MemoryCacheStore → ℕ
size s = length s.records

-- `key.length`: the UTF-16 units of a text.
unfoldable pub utf16_length : String → ℕ
utf16_length String.[] = 0
utf16_length (String.◌∷◌ c s) = (if ltb (code c) 0x10000 then 1 else 2) + utf16_length s

-- `this.records.delete(key); this._bytes -= rec.bytes`.
abbrev pub drop_record : String → MemRecord → MemoryCacheStore → MemoryCacheStore
drop_record key rec s = record s {
  records = JsMap.delete key s.records;
  bytes = s.bytes - rec.bytes;
}

unfoldable pub get : ℕ → String → MemoryCacheStore → MemoryCacheStore × Option CacheEntry
get now key s = elim (JsMap.get key s.records) [
  | none ↦ (s, none)
  | some rec ↦
      if leb rec.expires_at now
      then (drop_record key rec s, none)
      else (record s { records = JsMap.set key rec (JsMap.delete key s.records) }, some rec.entry)
]

-- The test of the loop of `evict`.
abbrev pub is_over : MemoryCacheStore → Bool
is_over s = ltb s.max_entries (length s.records) || ltb s.max_bytes s.bytes

-- The body of the loop; `none` is its `break`.
unfoldable pub evict_oldest : MemoryCacheStore → Option MemoryCacheStore
evict_oldest s = elim (JsMap.first_key s.records) [
  | none ↦ none
  | some oldest ↦ Option.map (λ rec. drop_record oldest rec s) (JsMap.get oldest s.records)
]

unfoldable pub evict_loop : ℕ → MemoryCacheStore → MemoryCacheStore
evict_loop zero s = s
evict_loop (suc fuel) s = elim (is_over s) [
  | false ↦ s
  | true ↦ elim (evict_oldest s) [ none ↦ s | some s' ↦ evict_loop fuel s' ]
]

-- Each round drops an entry, so that the number of entries is fuel enough.
unfoldable pub evict : MemoryCacheStore → MemoryCacheStore
evict s = evict_loop (length s.records) s

unfoldable pub byte_cost : String → CacheEntry → ℕ
byte_cost key entry = String.len entry.payload + utf16_length key + entry_overhead_bytes

-- The part of `set` from `this.records.set` on.
abbrev pub insert_record : ℕ → String → CacheEntry → ℕ → MemoryCacheStore → MemoryCacheStore
insert_record now key entry ttl_seconds s =
    let bytes = byte_cost key entry in
    let rec : MemRecord = record {
      entry = entry;
      expires_at = now + ttl_seconds * 1000;
      bytes = bytes;
    } in
    record s { records = JsMap.set key rec s.records; bytes = s.bytes + bytes }

-- The part of `set` that takes a previous record away.
unfoldable pub forget_previous : String → MemoryCacheStore → MemoryCacheStore
forget_previous key s = elim (JsMap.get key s.records) [
  | none ↦ s
  | some prev ↦ drop_record key prev s
]

unfoldable pub set : ℕ → String → CacheEntry → ℕ → MemoryCacheStore → MemoryCacheStore
set now key entry ttl_seconds s =
    if ltb s.max_bytes (byte_cost key entry)
    then s
    else evict (insert_record now key entry ttl_seconds (forget_previous key s))

-- `delete(key)` does what `set` does about a previous record.
unfoldable pub delete : String → MemoryCacheStore → MemoryCacheStore
unfolding forget_previous
delete key s = elim (JsMap.get key s.records) [ none ↦ s | some rec ↦ drop_record key rec s ]

unfoldable pub clear : MemoryCacheStore → MemoryCacheStore
clear s = record s { records = []; locks = []; bytes = 0 }

-- A `for … of` loop over the entries that deletes those which pass a test.
unfoldable pub drop_where :
    (String → MemRecord → Bool) → List (String × MemRecord) → MemoryCacheStore → MemoryCacheStore
drop_where p [] s = s
drop_where p ((key, rec) ∷ entries) s =
    drop_where p entries (if p key rec then drop_record key rec s else s)

unfoldable pub delete_by_prefix : String → MemoryCacheStore → MemoryCacheStore
delete_by_prefix prefix s = drop_where (λ key rec. starts_with key prefix) s.records s

unfoldable pub acquire_refresh_lock : ℕ → String → ℕ → MemoryCacheStore → MemoryCacheStore × Bool
acquire_refresh_lock now key ttl_seconds s =
    let claimed : MemoryCacheStore × Bool =
      (record s { locks = JsMap.set key (now + ttl_seconds * 1000) s.locks }, true) in
    elim (JsMap.get key s.locks) [
      | none ↦ claimed
      | some held_until ↦ if ltb now held_until then (s, false) else claimed
    ]

unfoldable pub release_refresh_lock : String → MemoryCacheStore → MemoryCacheStore
release_refresh_lock key s = record s { locks = JsMap.delete key s.locks }

unfoldable pub drop_locks : ℕ → List (String × ℕ) → List (String × ℕ) → List (String × ℕ)
drop_locks now [] locks = locks
drop_locks now ((key, until) ∷ entries) locks =
    drop_locks now entries (if leb until now then JsMap.delete key locks else locks)

unfoldable pub sweep : ℕ → MemoryCacheStore → MemoryCacheStore
sweep now s =
    let swept = drop_where (λ key rec. leb rec.expires_at now) s.records s in
    record swept { locks = drop_locks now s.locks s.locks }
