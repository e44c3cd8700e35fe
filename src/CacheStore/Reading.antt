-- ===== src/CacheStore/Reading.antt =====
-- What a reader of `MemoryCacheStore` of packages/cache/src/store.ts sees after a write.
use axiomify.Base.{
  ap, ◌∙◌, false, ℕ, zero, suc, ◌+◌, ◌*◌, ◌≤◌, ◌<◌, String, none, some, List, [], ◌∷◌, ◌++◌, ltb,
  length, drop, ◌≡◌, refl, arith, ===_refl, lt→leb,
}
use axiomify.JsMap
use axiomify.JsMap.Laws.{set_absent, get-delete, delete_absent}
use axiomify.CacheStore.{
  CacheEntry, MemRecord, MemoryCacheStore, byte_cost, get, set, evict, insert_record,
  forget_previous,
}
use axiomify.CacheStore.Eviction.{
  IsConsistent, Fits, excess, excess-Fits, excess_least, evict-trimmed,
}
use axiomify.CacheStore.Accounting.{
  IsAccounted, insert-IsConsistent, forget_previous_absent, forget_previous-IsAccounted,
}

forget_previous-records :
    (key : String) (s : MemoryCacheStore)
    → ((forget_previous key s).records ≡ JsMap.delete key s.records)
      × ((forget_previous key s).max_entries ≡ s.max_entries)
      × ((forget_previous key s).max_bytes ≡ s.max_bytes)
unfolding forget_previous
forget_previous-records key s = ground (arith, delete_absent key s.records)

-- The entries by age after a write, if nothing were evicted: the others as they were, then the new one.
abbrev pub recency : ℕ → String → CacheEntry → ℕ → MemoryCacheStore → List (String × MemRecord)
recency now key entry ttl s =
    let rec : MemRecord = record {
      entry = entry;
      expires_at = now + ttl * 1000;
      bytes = byte_cost key entry;
    } in
    JsMap.delete key s.records ++ (key, rec) ∷ []

evict-longest :
    (entries size : ℕ) (all : List (String × MemRecord)) (s : MemoryCacheStore)
    → IsConsistent s
    → s.records ≡ all
    → s.max_entries ≡ entries
    → s.max_bytes ≡ size
    → (n : ℕ) × ((evict s).records ≡ drop n all)
      × Fits entries size (drop n all)
      × ((m : ℕ) → Fits entries size (drop m all) → n ≤ m)
evict-longest entries size all s c e₁ e₂ e₃ = (
  excess entries size all,
  ground (arith, evict-trimmed s c),
  excess-Fits entries size all,
  λ m. excess_least entries size all m,
)

insert_record-records :
    (now : ℕ) (key : String) (entry : CacheEntry) (ttl : ℕ) (s : MemoryCacheStore)
    → (insert_record now key entry ttl (forget_previous key s)).records
      ≡ recency now key entry ttl s
insert_record-records now key entry ttl s =
    let rec : MemRecord = record {
      entry = entry;
      expires_at = now + ttl * 1000;
      bytes = byte_cost key entry;
    } in
    set_absent key rec (forget_previous key s).records (forget_previous_absent key s)
    ∙ ap (λ m. m ++ (key, rec) ∷ []) (forget_previous-records key s).0

-- A write of an entry that is not larger than the byte cap, to a store in the invariant of its calls,
-- leaves the entries of `recency` but for the `n` oldest, where `n` is the least number that brings the
-- store within both caps.
pub set-recency :
    (now : ℕ) (key : String) (entry : CacheEntry) (ttl : ℕ) (s : MemoryCacheStore)
    → IsAccounted s
    → byte_cost key entry ≤ s.max_bytes
    → (n : ℕ) × ((set now key entry ttl s).records ≡ drop n (recency now key entry ttl s))
      × Fits s.max_entries s.max_bytes (drop n (recency now key entry ttl s))
      × ((m : ℕ) → Fits s.max_entries s.max_bytes (drop m (recency now key entry ttl s)) → n ≤ m)
unfolding set
set-recency now key entry ttl s a h =
    let before = forget_previous key s in
    let (_, entries, size) = forget_previous-records key s in
    let rec : MemRecord = record {
      entry = entry;
      expires_at = now + ttl * 1000;
      bytes = byte_cost key entry;
    } in
    let c =
      insert-IsConsistent key rec before (forget_previous_absent key s)
        (forget_previous-IsAccounted key s a).consistent in
    let fits : ltb s.max_bytes (byte_cost key entry) ≡ false = ground arith in
    rw fits (
      evict-longest s.max_entries s.max_bytes (recency now key entry ttl s)
        (insert_record now key entry ttl before) c (insert_record-records now key entry ttl s)
        entries size)

get-drop-append :
    (key : String) (rec : MemRecord) (n : ℕ) (m : List (String × MemRecord))
    → JsMap.get key m ≡ none
    → n ≤ length m
    → JsMap.get key (drop n (m ++ (key, rec) ∷ [])) ≡ some rec
unfolding JsMap.get
get-drop-append key rec zero [] e h = ground (arith, ===_refl key)
get-drop-append key rec (suc n) [] e h = absurd (omega arith)
get-drop-append key rec zero ((i, w) ∷ m) e h = ground (arith, get-drop-append key rec zero m)
get-drop-append key rec (suc n) ((i, w) ∷ m) e h = ground (arith, get-drop-append key rec n m)

drop-all {ℓ} : {A : Type ℓ} (m : List A) (x : A) → drop (length m) (m ++ x ∷ []) ≡ x ∷ []
drop-all [] x = refl
drop-all (y ∷ m) x = drop-all m x

get_of_live :
    (later : ℕ) (key : String) (rec : MemRecord) (s : MemoryCacheStore)
    → JsMap.get key s.records ≡ some rec
    → later < rec.expires_at
    → (get later key s).1 ≡ some rec.entry
unfolding get
get_of_live later key rec s e h = ground (arith, lt→leb rec.expires_at later h)

-- A write of an entry within the byte cap, to a store in the invariant of its calls that holds at least
-- one entry, is read back until its time to live is over.
pub get-set :
    (now later : ℕ) (key : String) (entry : CacheEntry) (ttl : ℕ) (s : MemoryCacheStore)
    → IsAccounted s
    → byte_cost key entry ≤ s.max_bytes
    → 0 < s.max_entries
    → later < now + ttl * 1000
    → (get later key (set now key entry ttl s)).1 ≡ some entry
get-set now later key entry ttl s a h k l =
    let (n, e, fits, least) = set-recency now key entry ttl s a h in
    let rec : MemRecord = record {
      entry = entry;
      expires_at = now + ttl * 1000;
      bytes = byte_cost key entry;
    } in
    let others = JsMap.delete key s.records in
    let alone : n ≤ length others =
      least (length others) (rw (drop-all others (key, rec)) (omega arith)) in
    let absent : JsMap.get key others ≡ none = rw (get-delete key key s.records, ===_refl key) in
    let found = get-drop-append key rec n others absent alone in
    get_of_live later key rec (set now key entry ttl s) (ap (JsMap.get key) e ∙ found) l
