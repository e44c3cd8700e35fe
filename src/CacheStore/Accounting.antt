-- ===== src/CacheStore/Accounting.antt =====
-- The invariant of `MemoryCacheStore` of packages/cache/src/store.ts, kept by every operation.
use axiomify.Base.{
  ◌*◌, length-append, ap, ℕ, ◌+◌, String, none, some, List, [], ◌∷◌, ltb, leb, length, drop, ◌≡◌,
  refl, arith, ===_refl, Bool-cases, Option-cases, inl, inr,
}
use axiomify.JsMap
use axiomify.JsMap.{IsDistinct, total}
use axiomify.JsMap.Laws.{
  delete-IsDistinct, set-IsDistinct, total-delete, length-delete, total-set_absent, get-delete,
  set_absent,
}
use axiomify.CacheStore.{
  CacheEntry, MemRecord, MemoryCacheStore, byte_cost, get, set, delete, evict, drop_record,
  insert_record, forget_previous,
}
use axiomify.CacheStore.Eviction.{IsConsistent, Fits, excess, excess-Fits, evict-trimmed}

-- Distinct keys, the counter at the sum of the records' bytes, and both caps.
pub record IsAccounted (s : MemoryCacheStore) : Type 0 where
  pub consistent : IsConsistent s
  pub fits : Fits s.max_entries s.max_bytes s.records

pub drop_record-IsConsistent :
    (key : String) (rec : MemRecord) (s : MemoryCacheStore)
    → JsMap.get key s.records ≡ some rec
    → IsConsistent s
    → IsConsistent (drop_record key rec s)
drop_record-IsConsistent key rec s h c = record {
  distinct = delete-IsDistinct key s.records c.distinct;
  counted =
      omega (
        arith,
        total-delete (λ (r : MemRecord). r.bytes) key rec s.records c.distinct h,
        c.counted,
      );
}

pub drop_record-IsAccounted :
    (key : String) (rec : MemRecord) (s : MemoryCacheStore)
    → JsMap.get key s.records ≡ some rec
    → IsAccounted s
    → IsAccounted (drop_record key rec s)
drop_record-IsAccounted key rec s h a = record {
  consistent = drop_record-IsConsistent key rec s h a.consistent;
  fits = omega (
    arith,
    total-delete (λ (r : MemRecord). r.bytes) key rec s.records a.consistent.distinct h,
    length-delete key rec s.records a.consistent.distinct h,
    a.fits,
  );
}

drop-IsDistinct : (n : ℕ) (m : List (String × MemRecord)) → IsDistinct m → IsDistinct (drop n m)
drop-IsDistinct ℕ.zero m d = d
drop-IsDistinct (ℕ.suc n) [] d = tt
drop-IsDistinct (ℕ.suc n) (e ∷ m) d = drop-IsDistinct n m d.1

pub evict-IsAccounted : (s : MemoryCacheStore) → IsConsistent s → IsAccounted (evict s)
evict-IsAccounted s c = rw (evict-trimmed s c) (record {
  consistent = record {
    distinct = drop-IsDistinct (excess s.max_entries s.max_bytes s.records) s.records c.distinct;
    counted = refl;
  };
  fits = excess-Fits s.max_entries s.max_bytes s.records;
})

-- Putting a record under a key that is not there keeps the counter right.
pub insert-IsConsistent :
    (key : String) (rec : MemRecord) (s : MemoryCacheStore)
    → JsMap.get key s.records ≡ none
    → IsConsistent s
    → IsConsistent (record s { records = JsMap.set key rec s.records; bytes = s.bytes + rec.bytes })
insert-IsConsistent key rec s h c = record {
  distinct = set-IsDistinct key rec s.records c.distinct;
  counted =
      omega (arith, total-set_absent (λ (r : MemRecord). r.bytes) key rec s.records h, c.counted);
}

get-delete_self :
    (key : String) (m : List (String × MemRecord)) → JsMap.get key (JsMap.delete key m) ≡ none
get-delete_self key m = rw (get-delete key key m, ===_refl key)

pub forget_previous_absent :
    (key : String) (s : MemoryCacheStore) → JsMap.get key (forget_previous key s).records ≡ none
unfolding forget_previous
forget_previous_absent key s = ground (arith, get-delete_self key s.records)

pub forget_previous-IsAccounted :
    (key : String) (s : MemoryCacheStore) → IsAccounted s → IsAccounted (forget_previous key s)
unfolding forget_previous
forget_previous-IsAccounted key s a = elim (Option-cases (JsMap.get key s.records)) [
  | inl e ↦ rw (e, forget_previous) a
  | inr (rec, e) ↦ rw (e, forget_previous) (drop_record-IsAccounted key rec s e a)
]

pub delete-IsAccounted :
    (key : String) (s : MemoryCacheStore) → IsAccounted s → IsAccounted (delete key s)
unfolding delete
delete-IsAccounted key s a = forget_previous-IsAccounted key s a

pub set-IsAccounted :
    (now : ℕ) (key : String) (entry : CacheEntry) (ttl : ℕ) (s : MemoryCacheStore)
    → IsAccounted s
    → IsAccounted (set now key entry ttl s)
unfolding set
set-IsAccounted now key entry ttl s a = elim (Bool-cases (ltb s.max_bytes (byte_cost key entry))) [
  | inl big ↦ rw big a
  | inr fits ↦ rw fits (
      evict-IsAccounted (insert_record now key entry ttl (forget_previous key s)) (
        insert-IsConsistent key
          (record { entry = entry; expires_at = now + ttl * 1000; bytes = byte_cost key entry })
          (forget_previous key s) (forget_previous_absent key s)
          (forget_previous-IsAccounted key s a).consistent))
]

-- Moving a record to the end changes neither sum nor size.
touch-IsAccounted :
    (key : String) (rec : MemRecord) (s : MemoryCacheStore)
    → JsMap.get key s.records ≡ some rec
    → IsAccounted s
    → IsAccounted (record s { records = JsMap.set key rec (JsMap.delete key s.records) })
touch-IsAccounted key rec s h a =
    let d = a.consistent.distinct in
    let gone = JsMap.delete key s.records in
    let absent = get-delete_self key s.records in
    let sum = total-set_absent (λ (r : MemRecord). r.bytes) key rec gone absent in
    let less = total-delete (λ (r : MemRecord). r.bytes) key rec s.records d h in
    record {
      consistent = record {
        distinct = set-IsDistinct key rec gone (delete-IsDistinct key s.records d);
        counted = omega (arith, sum, less, a.consistent.counted);
      };
      fits = omega (
        arith,
        sum,
        less,
        length-delete key rec s.records d h,
        ap length (set_absent key rec gone absent),
        length-append gone ((key, rec) ∷ []),
        a.fits,
      );
    }

pub get-IsAccounted :
    (now : ℕ) (key : String) (s : MemoryCacheStore) → IsAccounted s → IsAccounted (get now key s).0
unfolding get
get-IsAccounted now key s a = elim (Option-cases (JsMap.get key s.records)) [
  | inl e ↦ rw (e, get) a
  | inr (rec, e) ↦ elim (Bool-cases (leb rec.expires_at now)) [
    | inl old ↦ rw (e, get) (rw old (drop_record-IsAccounted key rec s e a))
    | inr live ↦ rw (e, get) (rw live (touch-IsAccounted key rec s e a))
  ]
]
