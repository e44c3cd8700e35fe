-- ===== src/Tests/CacheStoreTests.antt =====
-- The in-memory cache store of packages/cache/src/store.ts at small inputs.
use axiomify.Base.{ℕ, ◌≤◌, false, none, some, List, [], ◌∷◌, ◌≡◌, refl, arith, length, drop}
use axiomify.JsMap
use axiomify.CacheStore
use axiomify.CacheStore.{CacheEntry, MemRecord, MemoryCacheStore, byte_cost}
use axiomify.CacheStore.Eviction.{Fits}
use axiomify.CacheStore.Accounting.{IsAccounted}
use axiomify.CacheStore.Reading.{recency, set-recency, get-set}
use axiomify.CacheStore.Calls.{
  Call, get_call, set_call, acquire_call, sweep_call, run, apply, run-IsAccounted,
}
use axiomify.CacheStore.Locking.{acquire_exclusive}

program : Unit {0}
unfolding run apply CacheStore.get CacheStore.set CacheStore.evict CacheStore.evict_loop
    CacheStore.evict_oldest CacheStore.forget_previous CacheStore.byte_cost CacheStore.utf16_length
    CacheStore.new_store CacheStore.sweep CacheStore.drop_where CacheStore.drop_locks
    CacheStore.acquire_refresh_lock JsMap.get JsMap.set JsMap.delete
program = tt

abbrev page : CacheEntry
page = record {
  payload = "hello";
  status_code = 200;
  content_type = "text/plain";
  etag = none;
  stored_at = 1000;
  ttl_ms = 2000;
  swr_ms = 0;
  vary = none;
}

-- Two entries fit; "a" is read before "c" is written, so "b" is evicted.
abbrev calls : List Call
calls =
    set_call 1000 "a" page 2
    ∷ set_call 1000 "b" page 2
    ∷ get_call 1100 "a"
    ∷ set_call 1200 "c" page 2
    ∷ []

abbrev store : MemoryCacheStore
store = run calls (CacheStore.new_store (some 2) none)

evicts_least_recent :
    (JsMap.get "b" store.records ≡ none) × (store.bytes ≡ 412) × (length store.records ≡ 2)
unfolding program
evicts_least_recent = (refl, refl, refl)

run-IsAccounted_example : IsAccounted (run calls (CacheStore.new_store (some 2) none))
run-IsAccounted_example = run-IsAccounted (some 2) none calls

set-recency_example :
    (n : ℕ) × ((CacheStore.set 1300 "d" page 2 store).records
      ≡ drop n (recency 1300 "d" page 2 store))
    × Fits store.max_entries store.max_bytes (drop n (recency 1300 "d" page 2 store))
    × ((m : ℕ)
        → Fits store.max_entries store.max_bytes (drop m (recency 1300 "d" page 2 store))
        → n ≤ m)
unfolding program
set-recency_example = set-recency 1300 "d" page 2 store run-IsAccounted_example (omega arith)

get-set_example : (CacheStore.get 3299 "d" (CacheStore.set 1300 "d" page 2 store)).1 ≡ some page
unfolding program
get-set_example =
    get-set 1300 3299 "d" page 2 store run-IsAccounted_example (omega arith) (omega arith)
      (omega arith)

acquire_exclusive_example :
    (CacheStore.acquire_refresh_lock 4000 "a" 5 (
      run
        (sweep_call 3500 ∷ acquire_call 3600 "a" 9 ∷ [])
        (CacheStore.acquire_refresh_lock 2000 "a" 5
          (run calls (CacheStore.new_store (some 2) none))).0)).1
    ≡ false
unfolding program
acquire_exclusive_example =
    acquire_exclusive (some 2) none calls (sweep_call 3500 ∷ acquire_call 3600 "a" 9 ∷ []) 2000 4000
      "a" 5 5 refl (omega arith) (omega arith)
