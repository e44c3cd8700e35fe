-- ===== src/RateLimit/Pruning.antt =====
-- `prune` and the eviction of keys in packages/rate-limit/src/index.ts.
use axiomify.Base.{
  ℕ, zero, suc, ◌≤◌, String, none, some, List, [], ◌∷◌, if◌then◌else◌, length, ◌≡◌, refl, arith,
  eq_iff, ===_refl,
}
use axiomify.JsMap
use axiomify.JsMap.{IsDistinct}
use axiomify.JsMap.Laws.{length-delete-le}
use axiomify.RateLimit.{
  data_of, record_hit, Hits, MemoryStore, is_spent, advance, prune_entry, prune_hits, prune,
  evict_keys, increment,
}

-- Pruning drops the keys with no live timestamp and prunes the other entries.
pub get-prune_hits :
    (now : ℕ) (key : String) (m : List (String × Hits))
    → IsDistinct m
    → JsMap.get key (prune_hits now m) ≡ elim (JsMap.get key m) [
      | none ↦ none
      | some d ↦ if is_spent (advance now d.window_ms d) then none else some (prune_entry now d)
    ]
unfolding JsMap.get prune_hits
get-prune_hits now key [] d = refl
get-prune_hits now key ((k, h) ∷ m) d = ground (arith, eq_iff k key, get-prune_hits now key m d.1)

pub prune_hits-IsDistinct :
    (now : ℕ) (m : List (String × Hits)) → IsDistinct m → IsDistinct (prune_hits now m)
unfolding prune_hits
prune_hits-IsDistinct now [] d = tt
prune_hits-IsDistinct now ((k, h) ∷ m) d =
    ground (arith, prune_hits-IsDistinct now m d.1, get-prune_hits now k m d.1)

pub length-prune_hits-le :
    (now : ℕ) (m : List (String × Hits)) → length (prune_hits now m) ≤ length m
unfolding prune_hits
length-prune_hits-le now [] = omega arith
length-prune_hits-le now ((k, h) ∷ m) = ground (arith, length-prune_hits-le now m)

length-delete_first :
    (k : String) (h : Hits) (m : List (String × Hits))
    → length (JsMap.delete k ((k, h) ∷ m)) ≤ length m
unfolding JsMap.delete
length-delete_first k h m = ground (arith, ===_refl k, length-delete-le k m)

evict_keys-le :
    (fuel : ℕ) (m : List (String × Hits)) (s : MemoryStore)
    → s.hits ≡ m
    → length m ≤ fuel
    → length (evict_keys fuel s).hits ≤ s.max_keys
unfolding evict_keys
evict_keys-le zero [] s e h = ground arith
evict_keys-le zero (x ∷ m) s e h = absurd (omega arith)
evict_keys-le (suc fuel) [] s e h = ground arith
evict_keys-le (suc fuel) ((k, d) ∷ m) s e h = ground (
  arith,
  length-delete_first k d m,
  evict_keys-le fuel (JsMap.delete k s.hits) (record s { hits = JsMap.delete k s.hits }) refl,
)

-- However many keys clients send, the store never holds more than `maxKeys` of them after a call.
pub increment-bounded :
    (now : ℕ) (key : String) (window_ms : ℕ) (s : MemoryStore)
    → length (increment now key window_ms s).0.hits ≤ s.max_keys
unfolding increment prune
increment-bounded now key window_ms s =
    let s' : MemoryStore = record s {
      hits = JsMap.set key (record_hit now window_ms (data_of key window_ms s)) s.hits;
    } in
    let pruned = record s' { hits = prune_hits now s'.hits } in
    ground (arith, evict_keys-le (length pruned.hits) pruned.hits pruned refl (omega arith))
