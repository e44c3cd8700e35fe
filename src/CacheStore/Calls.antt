-- ===== src/CacheStore/Calls.antt =====
-- Runs of `MemoryCacheStore` of packages/cache/src/store.ts: sequences of calls from a new store.
use axiomify.Base.{
  Bool-cases, inr, inl, Option-cases, ℕ, String, Option, List, [], ◌∷◌, ltb, leb, refl, arith,
}
use axiomify.JsMap
use axiomify.CacheStore.{
  CacheEntry, MemoryCacheStore, new_store, get, set, delete, clear, delete_by_prefix,
  acquire_refresh_lock, release_refresh_lock, sweep,
}
use axiomify.CacheStore.Accounting.{
  IsAccounted, get-IsAccounted, set-IsAccounted, delete-IsAccounted,
}
use axiomify.CacheStore.Sweeping.{drop_where-IsAccounted}

-- A call of the store with the time at which it runs.
pub data Call : Type 0 where
  get_call : ℕ → String → Call
  set_call : ℕ → String → CacheEntry → ℕ → Call
  delete_call : String → Call
  clear_call : Call
  prefix_call : String → Call
  acquire_call : ℕ → String → ℕ → Call
  release_call : String → Call
  sweep_call : ℕ → Call

unfoldable pub apply : Call → MemoryCacheStore → MemoryCacheStore
apply (get_call now key) s = (get now key s).0
apply (set_call now key entry ttl) s = set now key entry ttl s
apply (delete_call key) s = delete key s
apply clear_call s = clear s
apply (prefix_call prefix) s = delete_by_prefix prefix s
apply (acquire_call now key ttl) s = (acquire_refresh_lock now key ttl s).0
apply (release_call key) s = release_refresh_lock key s
apply (sweep_call now) s = sweep now s

unfoldable pub run : List Call → MemoryCacheStore → MemoryCacheStore
run [] s = s
run (c ∷ cs) s = run cs (apply c s)

IsAccounted-locks :
    (locks : List (String × ℕ)) (s : MemoryCacheStore)
    → IsAccounted s
    → IsAccounted (record s { locks = locks })
IsAccounted-locks locks s a = record {
  consistent = record { distinct = a.consistent.distinct; counted = a.consistent.counted };
  fits = a.fits;
}

acquire-IsAccounted :
    (now : ℕ) (key : String) (ttl : ℕ) (s : MemoryCacheStore)
    → IsAccounted s
    → IsAccounted (acquire_refresh_lock now key ttl s).0
unfolding acquire_refresh_lock
acquire-IsAccounted now key ttl s a = elim (Option-cases (JsMap.get key s.locks)) [
  | inl e ↦ rw (e, acquire_refresh_lock) (IsAccounted-locks _ s a)
  | inr (held_until, e) ↦ elim (Bool-cases (ltb now held_until)) [
    | inl held ↦ rw (e, acquire_refresh_lock) (rw held a)
    | inr free ↦ rw (e, acquire_refresh_lock) (rw free (IsAccounted-locks _ s a))
  ]
]

apply-IsAccounted : (c : Call) (s : MemoryCacheStore) → IsAccounted s → IsAccounted (apply c s)
unfolding apply clear delete_by_prefix release_refresh_lock sweep
apply-IsAccounted (get_call now key) s a = get-IsAccounted now key s a
apply-IsAccounted (set_call now key entry ttl) s a = set-IsAccounted now key entry ttl s a
apply-IsAccounted (delete_call key) s a = delete-IsAccounted key s a
apply-IsAccounted clear_call s a = record {
  consistent = record { distinct = tt; counted = refl };
  fits = omega arith;
}
apply-IsAccounted (prefix_call prefix) s a = drop_where-IsAccounted _ s a
apply-IsAccounted (acquire_call now key ttl) s a = acquire-IsAccounted now key ttl s a
apply-IsAccounted (release_call key) s a = IsAccounted-locks _ s a
apply-IsAccounted (sweep_call now) s a =
    IsAccounted-locks _ _ (drop_where-IsAccounted (λ key rec. leb rec.expires_at now) s a)

new_store-IsAccounted :
    (max_entries max_bytes : Option ℕ) → IsAccounted (new_store max_entries max_bytes)
unfolding new_store
new_store-IsAccounted max_entries max_bytes = record {
  consistent = record { distinct = tt; counted = refl };
  fits = omega arith;
}

pub run_from-IsAccounted :
    (cs : List Call) (s : MemoryCacheStore) → IsAccounted s → IsAccounted (run cs s)
unfolding run
run_from-IsAccounted [] s a = a
run_from-IsAccounted (c ∷ cs) s a = run_from-IsAccounted cs (apply c s) (apply-IsAccounted c s a)

-- Whatever calls are made on a new store, its keys are distinct, its byte counter is the sum of the
-- bytes of its records, and both caps hold.
pub run-IsAccounted :
    (max_entries max_bytes : Option ℕ) (cs : List Call)
    → IsAccounted (run cs (new_store max_entries max_bytes))
run-IsAccounted max_entries max_bytes cs =
    run_from-IsAccounted cs (new_store max_entries max_bytes)
      (new_store-IsAccounted max_entries max_bytes)
