-- ===== src/SessionPlugin/MemoryStore.antt =====
-- packages/session/src/stores.ts: a `MemorySessionStore` for at least one session is a store as the plugin
-- wants it.
use axiomify.SessionPlugin.{SessionStore}
use axiomify.Base.{
  ◌*◌, ◌+◌, ◌≤◌, ◌<◌, ℕ, zero, suc, String, Bool, none, some, List, [], ◌∷◌, ◌++◌, ltb, length, ◌≡◌,
  inl, inr, refl, arith, eq_iff, ===_refl, Bool-cases,
}
use axiomify.JsMap
use axiomify.JsMap.{first_key, keep}
use axiomify.JsMap.Laws.{get-append, get-delete, set_absent}
use axiomify.Sessions
use axiomify.Sessions.{SessionRecord, Entry, MemorySessionStore, is_live, sweep, evict_loop}

module _ {ℓ} {V : Type ℓ} where
  keep-append :
      (p : String → V → Bool) (m n : List (String × V)) → keep p (m ++ n) ≡ keep p m ++ keep p n
  unfolding keep
  keep-append p [] n = refl
  keep-append p ((k, v) ∷ m) n = ground (arith, keep-append p m n)

  get-keep_absent :
      (p : String → V → Bool) (k : String) (m : List (String × V))
      → JsMap.get k m ≡ none
      → JsMap.get k (keep p m) ≡ none
  unfolding keep JsMap.get
  get-keep_absent p k [] h = refl
  get-keep_absent p k ((i, v) ∷ m) h = ground (arith, get-keep_absent p k m)

  delete-append_other :
      (k : String) (m n : List (String × V))
      → JsMap.delete k (m ++ n) ≡ JsMap.delete k m ++ JsMap.delete k n
  unfolding JsMap.delete
  delete-append_other k [] n = refl
  delete-append_other k ((i, v) ∷ m) n = ground (arith, delete-append_other k m n)

module _ {D : Type 0} (id : String) (e : Entry D) where
  front :
      (k : String) (v : Entry D) (m : List (String × Entry D))
      → JsMap.get id ((k, v) ∷ m) ≡ none
      → JsMap.delete k ((k, v) ∷ m ++ (id, e) ∷ []) ≡ JsMap.delete k m ++ (id, e) ∷ []
  unfolding JsMap.get JsMap.delete
  front k v m h =
      ground (arith, delete-append_other k m ((id, e) ∷ []), eq_iff k id, eq_iff id k, ===_refl k)

  later_absent :
      (k : String) (v : Entry D) (m : List (String × Entry D))
      → JsMap.get id ((k, v) ∷ m) ≡ none
      → JsMap.get id (JsMap.delete k m) ≡ none
  unfolding JsMap.get
  later_absent k v m h = ground (arith, get-delete id k m)

  appended :
      (m : List (String × Entry D))
      → JsMap.get id m ≡ none
      → JsMap.get id (m ++ (id, e) ∷ []) ≡ some e
  unfolding JsMap.get
  appended m h = ground (arith, get-append id m ((id, e) ∷ []), ===_refl id)

  -- The newest entry outlives the eviction of the older ones.
  evict_loop-last :
      (fuel most : ℕ) (m : List (String × Entry D))
      → JsMap.get id m ≡ none
      → JsMap.get id (evict_loop fuel (suc most) (m ++ (id, e) ∷ [])) ≡ some e
  unfolding evict_loop JsMap.get JsMap.delete
  evict_loop-last zero most m h = appended m h
  evict_loop-last (suc fuel) most [] h = ground (arith, ===_refl id)
  evict_loop-last (suc fuel) most ((k, v) ∷ m) h =
      elim (Bool-cases (ltb (suc most) (length ((k, v) ∷ m ++ (id, e) ∷ [])))) [
        | inr few ↦ rw few (appended ((k, v) ∷ m) h)
        | inl many ↦
            rw (many, front k v m h)
              (evict_loop-last fuel most (JsMap.delete k m) (later_absent k v m h))
      ]

module _ {D : Type 0} (most : ℕ) where
  abbrev store_of : List (String × Entry D) → MemorySessionStore D
  store_of sessions = record { sessions = sessions; max_sessions = suc most }

  -- The methods of a store for one more session than `most`.
  unfoldable pub memory_store : SessionStore (List (String × Entry D)) D
  memory_store = record {
    read = λ now id s.
        ((Sessions.get now id (store_of s)).0.sessions, (Sessions.get now id (store_of s)).1);
    write = λ now id r ttl s. (Sessions.set now id r ttl (store_of s)).sessions;
    erase = λ id s. (Sessions.destroy id (store_of s)).sessions;
    refresh = λ now id ttl s. (Sessions.touch now id ttl (store_of s)).sessions;
  }

  -- An id that was erased has no record.
  pub memory_store-erased :
      (now : ℕ) (id : String) (s : List (String × Entry D))
      → (memory_store.read now id (memory_store.erase id s)).1 ≡ none
  unfolding memory_store Sessions.get Sessions.destroy
  memory_store-erased now id s = ground (arith, get-delete id id s, ===_refl id)

  swept :
      (now ttl : ℕ) (id : String) (r : SessionRecord D) (older : List (String × Entry D))
      → 0 < ttl
      → let e : Entry D = record { stored = r; expires_at = now + ttl * 1000 } in
        sweep now (older ++ (id, e) ∷ []) ≡ keep (is_live now) older ++ (id, e) ∷ []
  unfolding sweep keep
  swept now ttl id r older positive =
      let e : Entry D = record { stored = r; expires_at = now + ttl * 1000 } in
      rw (keep-append (is_live now) older ((id, e) ∷ [])) (ground arith)

  written_last :
      (now ttl : ℕ) (id : String) (r : SessionRecord D) (s : List (String × Entry D))
      → 0 < ttl
      → JsMap.get id (Sessions.set now id r ttl (store_of s)).sessions
        ≡ some (record { stored = r; expires_at = now + ttl * 1000 })
  unfolding Sessions.set sweep keep
  written_last now ttl id r s positive =
      let e : Entry D = record { stored = r; expires_at = now + ttl * 1000 } in
      let older = JsMap.delete id s in
      let absent : JsMap.get id older ≡ none = ground (arith, get-delete id id s, ===_refl id) in
      rw (set_absent id e older absent)
        (elim (Bool-cases (ltb (suc most) (length (older ++ (id, e) ∷ [])))) [
          | inr few ↦ rw few (appended id e older absent)
          | inl many ↦
              rw (many, swept now ttl id r older positive)
                (evict_loop-last id e _ most _ (get-keep_absent (is_live now) id older absent))
        ])

  -- What is written is read back until its time to live is over.
  pub memory_store-kept :
      (now later : ℕ) (id : String) (r : SessionRecord D) (ttl : ℕ) (s : List (String × Entry D))
      → now ≤ later
      → later < now + ttl * 1000
      → (memory_store.read later id (memory_store.write now id r ttl s)).1 ≡ some r
  unfolding memory_store Sessions.get
  memory_store-kept now later id r ttl s order within =
      ground (arith, written_last now ttl id r s (omega arith))
