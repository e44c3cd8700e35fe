-- ===== src/CacheStore/Locking.antt =====
-- The refresh locks of packages/cache/src/store.ts over runs of calls.
use axiomify.Base.{
  leb→le, inr, inl, Bool-cases, ℕ, zero, suc, ◌+◌, ◌*◌, ◌<◌, String, Bool, true, false, Option,
  some, List, [], ◌∷◌, if◌then◌else◌, leb, ◌≡◌, ◌≢◌, refl, arith, eq_iff, All,
}
use axiomify.JsMap
use axiomify.JsMap.{IsDistinct}
use axiomify.JsMap.Laws.{get-set, get-set_self, get-delete, set-IsDistinct, delete-IsDistinct}
use axiomify.CacheStore.{
  drop_record, CacheEntry, MemRecord, MemoryCacheStore, new_store, get, set, delete, clear,
  delete_by_prefix, drop_locks, acquire_refresh_lock, release_refresh_lock, sweep, drop_where,
  forget_previous, evict, evict_loop, evict_oldest,
}
use axiomify.CacheStore.Calls.{
  Call, get_call, set_call, delete_call, clear_call, prefix_call, acquire_call, release_call,
  sweep_call, apply, run,
}

evict_loop-locks : (fuel : ℕ) (s : MemoryCacheStore) → (evict_loop fuel s).locks ≡ s.locks
unfolding evict_loop evict_oldest
evict_loop-locks zero s = refl
evict_loop-locks (suc fuel) s = grind (arith, evict_loop-locks fuel)

drop_where-locks :
    (p : String → MemRecord → Bool) (m : List (String × MemRecord)) (s : MemoryCacheStore)
    → (drop_where p m s).locks ≡ s.locks
unfolding drop_where
drop_where-locks p [] s = refl
drop_where-locks p ((key, rec) ∷ m) s =
    ground (arith, drop_where-locks p m (if p key rec then drop_record key rec s else s))

set-locks :
    (now : ℕ) (key : String) (entry : CacheEntry) (ttl : ℕ) (s : MemoryCacheStore)
    → (set now key entry ttl s).locks ≡ s.locks
unfolding set evict forget_previous
set-locks now key entry ttl s = grind (arith, evict_loop-locks)

drop_locks-IsDistinct :
    (now : ℕ) (es locks : List (String × ℕ))
    → IsDistinct locks
    → IsDistinct (drop_locks now es locks)
unfolding drop_locks
drop_locks-IsDistinct now [] locks d = d
drop_locks-IsDistinct now ((key, until) ∷ es) locks d = elim (Bool-cases (leb until now)) [
  | inl over ↦
      rw over
        (drop_locks-IsDistinct now es (JsMap.delete key locks) (delete-IsDistinct key locks d))
  | inr held ↦ rw held (drop_locks-IsDistinct now es locks d)
]

module _ (key : String) (until : ℕ) where
  -- The lock on the key is held, and no key is locked twice.
  pub record IsHeld (s : MemoryCacheStore) : Type 0 where
    pub distinct : IsDistinct s.locks
    pub held : JsMap.get key s.locks ≡ some until

  -- A call before the lock's end that neither releases the key nor clears the store.
  abbrev pub IsQuiet : Call → Type 0
  IsQuiet (acquire_call now k ttl) = now < until
  IsQuiet (sweep_call now) = now < until
  IsQuiet (release_call k) = k ≢ key
  IsQuiet clear_call = ⊥
  IsQuiet _ = Unit

  agree :
      (m : List (String × ℕ))
      → IsDistinct m
      → ((v : ℕ) → JsMap.get key m ≡ some v → v ≡ until)
      → All (λ e. e.0 ≡ key → e.1 ≡ until) m
  unfolding JsMap.get
  agree [] d h = tt
  agree ((k, u) ∷ m) d h = (
    λ e. h u (ground (arith, eq_iff k key)),
    agree m d.1 (λ v e. h v (ground (arith, eq_iff k key))),
  )

  drop_locks-held :
      (now : ℕ) (es locks : List (String × ℕ))
      → now < until
      → All (λ e. e.0 ≡ key → e.1 ≡ until) es
      → JsMap.get key locks ≡ some until
      → JsMap.get key (drop_locks now es locks) ≡ some until
  unfolding drop_locks
  drop_locks-held now [] locks l a h = h
  drop_locks-held now ((k, u) ∷ es) locks l a h = elim (Bool-cases (leb u now)) [
    | inl over ↦
        let other : k ≢ key = λ e. absurd (omega (arith, a.0 e, leb→le u now over)) in
        rw over (
          drop_locks-held now es (JsMap.delete k locks) l a.1
            (ground (arith, get-delete key k locks, eq_iff k key, other)))
    | inr held ↦ rw held (drop_locks-held now es locks l a.1 h)
  ]

  IsHeld-locks : {s t : MemoryCacheStore} → t.locks ≡ s.locks → IsHeld s → IsHeld t
  IsHeld-locks e h = record { distinct = rw e h.distinct; held = rw e h.held }

  acquire-IsHeld :
      (now : ℕ) (k : String) (ttl : ℕ) (s : MemoryCacheStore)
      → now < until
      → IsHeld s
      → IsHeld (acquire_refresh_lock now k ttl s).0
  unfolding acquire_refresh_lock
  acquire-IsHeld now k ttl s l h = record {
    distinct = ground (arith, set-IsDistinct k (now + ttl * 1000) s.locks h.distinct);
    held = ground (arith, get-set key k (now + ttl * 1000) s.locks, eq_iff k key);
  }

  apply-IsHeld : (c : Call) (s : MemoryCacheStore) → IsQuiet c → IsHeld s → IsHeld (apply c s)
  unfolding apply get delete delete_by_prefix release_refresh_lock sweep
  apply-IsHeld (get_call now k) s q h = IsHeld-locks (ground arith) h
  apply-IsHeld (set_call now k entry ttl) s q h = IsHeld-locks (set-locks now k entry ttl s) h
  apply-IsHeld (delete_call k) s q h = IsHeld-locks (ground arith) h
  apply-IsHeld clear_call s q h = absurd q
  apply-IsHeld (prefix_call prefix) s q h = IsHeld-locks (drop_where-locks _ s.records s) h
  apply-IsHeld (acquire_call now k ttl) s q h = acquire-IsHeld now k ttl s q h
  apply-IsHeld (release_call k) s q h = record {
    distinct = delete-IsDistinct k s.locks h.distinct;
    held = ground (arith, get-delete key k s.locks, eq_iff k key, q, h.held);
  }
  apply-IsHeld (sweep_call now) s q h = record {
    distinct = drop_locks-IsDistinct now s.locks s.locks h.distinct;
    held =
        drop_locks-held now s.locks s.locks q
          (agree s.locks h.distinct (λ v e. ground (arith, h.held))) h.held;
  }

  run-IsHeld :
      (cs : List Call) (s : MemoryCacheStore) → All IsQuiet cs → IsHeld s → IsHeld (run cs s)
  unfolding run
  run-IsHeld [] s q h = h
  run-IsHeld (c ∷ cs) s q h = run-IsHeld cs (apply c s) q.1 (apply-IsHeld c s q.0 h)

apply-IsDistinct_locks :
    (c : Call) (s : MemoryCacheStore) → IsDistinct s.locks → IsDistinct (apply c s).locks
unfolding apply get delete delete_by_prefix release_refresh_lock sweep clear acquire_refresh_lock
apply-IsDistinct_locks (get_call now k) s d = ground arith
apply-IsDistinct_locks (set_call now k entry ttl) s d = rw (set-locks now k entry ttl s) d
apply-IsDistinct_locks (delete_call k) s d = ground arith
apply-IsDistinct_locks clear_call s d = tt
apply-IsDistinct_locks (prefix_call prefix) s d = rw (drop_where-locks _ s.records s) d
apply-IsDistinct_locks (acquire_call now k ttl) s d =
    ground (arith, set-IsDistinct k (now + ttl * 1000) s.locks d)
apply-IsDistinct_locks (release_call k) s d = delete-IsDistinct k s.locks d
apply-IsDistinct_locks (sweep_call now) s d = drop_locks-IsDistinct now s.locks s.locks d

run-IsDistinct_locks :
    (cs : List Call) (s : MemoryCacheStore) → IsDistinct s.locks → IsDistinct (run cs s).locks
unfolding run
run-IsDistinct_locks [] s d = d
run-IsDistinct_locks (c ∷ cs) s d =
    run-IsDistinct_locks cs (apply c s) (apply-IsDistinct_locks c s d)

acquire_won-IsHeld :
    (now : ℕ) (key : String) (ttl : ℕ) (s : MemoryCacheStore)
    → IsDistinct s.locks
    → (acquire_refresh_lock now key ttl s).1 ≡ true
    → IsHeld key (now + ttl * 1000) (acquire_refresh_lock now key ttl s).0
unfolding acquire_refresh_lock
acquire_won-IsHeld now key ttl s d won = record {
  distinct = ground (arith, set-IsDistinct key (now + ttl * 1000) s.locks d);
  held = ground (arith, get-set_self key (now + ttl * 1000) s.locks);
}

acquire_refused :
    (later until : ℕ) (key : String) (ttl : ℕ) (s : MemoryCacheStore)
    → IsHeld key until s
    → later < until
    → (acquire_refresh_lock later key ttl s).1 ≡ false
unfolding acquire_refresh_lock
acquire_refused later until key ttl s h l = ground (arith, h.held)

-- A caller that acquires the refresh lock of a key is its only holder: until its time is over, another
-- attempt on that key fails, whatever calls lie between that neither release the key nor clear the
-- store.
pub acquire_exclusive :
    (max_entries max_bytes : Option ℕ) (before cs : List Call) (now later : ℕ) (key : String)
    (ttl ttl' : ℕ)
    → (acquire_refresh_lock now key ttl (run before (new_store max_entries max_bytes))).1 ≡ true
    → All (IsQuiet key (now + ttl * 1000)) cs
    → later < now + ttl * 1000
    → (acquire_refresh_lock later key ttl' (
        run cs
          (acquire_refresh_lock now key ttl (run before (new_store max_entries max_bytes))).0)).1
      ≡ false
unfolding new_store
acquire_exclusive max_entries max_bytes before cs now later key ttl ttl' won quiet l =
    let s = run before (new_store max_entries max_bytes) in
    let d = run-IsDistinct_locks before (new_store max_entries max_bytes) tt in
    let held = acquire_won-IsHeld now key ttl s d won in
    acquire_refused later (now + ttl * 1000) key ttl' _
      (run-IsHeld key (now + ttl * 1000) cs _ quiet held) l
