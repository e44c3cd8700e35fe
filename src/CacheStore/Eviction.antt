-- ===== src/CacheStore/Eviction.antt =====
-- The loop of `evict` of packages/cache/src/store.ts, on a store whose keys are distinct and whose
-- counter is the sum of its records' bytes.
use axiomify.Base.{
  ℕ, zero, suc, ◌-◌, ◌≤◌, String, Bool, ◌&&◌, none, some, List, [], ◌∷◌, if◌then◌else◌, leb, length,
  drop, ◌≡◌, refl, arith, ===_refl,
}
use axiomify.JsMap
use axiomify.JsMap.{IsDistinct, total}
use axiomify.JsMap.Laws.{delete_absent}
use axiomify.CacheStore.{MemRecord, MemoryCacheStore, evict_oldest, evict_loop, evict}

-- The bytes of all records.
abbrev pub weight : List (String × MemRecord) → ℕ
weight = total (λ rec. rec.bytes)

pub record IsConsistent (s : MemoryCacheStore) : Type 0 where
  pub distinct : IsDistinct s.records
  pub counted : s.bytes ≡ weight s.records

module _ (max_entries max_bytes : ℕ) where
  -- The bounds of a store.
  abbrev pub Fits : List (String × MemRecord) → Type 0
  Fits m = (length m ≤ max_entries) × (weight m ≤ max_bytes)

  abbrev fits : List (String × MemRecord) → Bool
  fits m = leb (length m) max_entries && leb (weight m) max_bytes

  -- The number of entries to drop from the front.
  pub excess : List (String × MemRecord) → ℕ
  excess [] = 0
  excess (e ∷ m) = let more = suc (excess m) in if fits (e ∷ m) then 0 else more

  pub excess-Fits : (m : List (String × MemRecord)) → Fits (drop (excess m) m)
  unfolding excess
  excess-Fits [] = omega arith
  excess-Fits (e ∷ m) = ground (arith, excess-Fits m)

  pub excess_least : (m : List (String × MemRecord)) (n : ℕ) → Fits (drop n m) → excess m ≤ n
  unfolding excess
  excess_least [] n h = omega arith
  excess_least (e ∷ m) zero h = ground arith
  excess_least (e ∷ m) (suc n) h = ground (arith, excess_least m n h)

-- One round of the loop drops the first entry.
evict_oldest-cons :
    (key : String) (rec : MemRecord) (m : List (String × MemRecord)) (s : MemoryCacheStore)
    → s.records ≡ (key, rec) ∷ m
    → JsMap.get key m ≡ none
    → evict_oldest s ≡ some (record s { records = m; bytes = s.bytes - rec.bytes })
unfolding evict_oldest JsMap.get JsMap.delete
evict_oldest-cons key rec m s e fresh = ground (arith, ===_refl key, delete_absent key m fresh)

abbrev trimmed : List (String × MemRecord) → MemoryCacheStore → MemoryCacheStore
trimmed m s =
    let kept = drop (excess s.max_entries s.max_bytes m) m in
    record s { records = kept; bytes = weight kept }

evict_loop-trimmed :
    (fuel : ℕ) (m : List (String × MemRecord)) (s : MemoryCacheStore)
    → s.records ≡ m
    → IsDistinct m
    → s.bytes ≡ weight m
    → length m ≤ fuel
    → evict_loop fuel s ≡ trimmed m s
unfolding evict_loop excess
evict_loop-trimmed zero [] s e d c h = ground arith
evict_loop-trimmed zero (x ∷ m) s e d c h = absurd (omega arith)
evict_loop-trimmed (suc fuel) [] s e d c h = ground arith
evict_loop-trimmed (suc fuel) ((key, rec) ∷ m) s e d c h =
    let s' : MemoryCacheStore = record s { records = m; bytes = s.bytes - rec.bytes } in
    ground (
      arith,
      evict_oldest-cons key rec m s e d.0,
      evict_loop-trimmed fuel m s' refl d.1 (omega arith) (omega arith),
    )

-- What `evict` leaves is the longest run of most recent entries that fits: the entries after the
-- least number of oldest ones, with the counter at their sum.
pub evict-trimmed :
    (s : MemoryCacheStore)
    → IsConsistent s
    → evict s ≡ record s {
      records = drop (excess s.max_entries s.max_bytes s.records) s.records;
      bytes = weight (drop (excess s.max_entries s.max_bytes s.records) s.records);
    }
unfolding evict
evict-trimmed s c =
    evict_loop-trimmed (length s.records) s.records s refl c.distinct c.counted (omega arith)
