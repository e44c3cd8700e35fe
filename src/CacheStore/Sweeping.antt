-- ===== src/CacheStore/Sweeping.antt =====
-- `sweep` and `deleteByPrefix` of packages/cache/src/store.ts: the loops that delete while they walk.
use text.Mathlib.Text.{starts_with}
use axiomify.Base.{
  eq_iff, ℕ, ◌≤◌, String, Bool, not, none, some, List, [], ◌∷◌, ◌++◌, if◌then◌else◌, leb, ◌≡◌, refl,
  arith, ===_refl, Bool-cases, inl, inr, append_assoc, append-nil,
}
use axiomify.JsMap
use axiomify.JsMap.{IsDistinct, total, keep}
use axiomify.JsMap.Laws.{delete-append, get-keep, keep-IsDistinct, length-keep-le, total-keep-le}
use axiomify.CacheStore.{
  MemRecord, MemoryCacheStore, get, drop_record, drop_where, delete_by_prefix, sweep,
}
use axiomify.CacheStore.Eviction.{IsConsistent, weight}
use axiomify.CacheStore.Accounting.{IsAccounted, drop_record-IsConsistent}

get-append_middle :
    (key : String) (rec : MemRecord) (m n : List (String × MemRecord))
    → IsDistinct (m ++ (key, rec) ∷ n)
    → JsMap.get key (m ++ (key, rec) ∷ n) ≡ some rec
unfolding JsMap.get
get-append_middle key rec [] n d = ground (arith, ===_refl key)
get-append_middle key rec ((i, w) ∷ m) n d =
    ground (arith, get-append_middle key rec m n d.1, eq_iff i key)

-- The loop leaves the entries that fail the test, and the counter at their sum.
module _ (p : String → MemRecord → Bool) where
  abbrev pub kept : List (String × MemRecord) → List (String × MemRecord)
  kept = keep (λ key rec. not (p key rec))

  drop_where-append :
      (m n : List (String × MemRecord)) (s : MemoryCacheStore)
      → s.records ≡ m ++ n
      → IsConsistent s
      → (drop_where p n s ≡ record s { records = m ++ kept n; bytes = weight (m ++ kept n) })
  unfolding drop_where keep
  drop_where-append m [] s e c = ground (arith, append-nil m, c.counted)
  drop_where-append m ((key, rec) ∷ n) s e c = elim (Bool-cases (p key rec)) [
    | inl yes_p ↦
        let d : IsDistinct (m ++ (key, rec) ∷ n) = rw e at c.distinct in
        let found : JsMap.get key s.records ≡ some rec = rw e (get-append_middle key rec m n d) in
        rw yes_p (
          drop_where-append m n (drop_record key rec s) (rw e (delete-append key rec m n d))
            (drop_record-IsConsistent key rec s found c))
    | inr no_p ↦
        let e' : s.records ≡ (m ++ (key, rec) ∷ []) ++ n =
          rw (append_assoc m ((key, rec) ∷ []) n) e in
        let ih = drop_where-append (m ++ (key, rec) ∷ []) n s e' c in
        rw no_p (rw (append_assoc m ((key, rec) ∷ []) (kept n)) at ih)
  ]

  pub drop_where-kept :
      (s : MemoryCacheStore)
      → IsConsistent s
      → drop_where p s.records s
        ≡ record s { records = kept s.records; bytes = weight (kept s.records) }
  drop_where-kept s c = drop_where-append [] s.records s refl c

  pub drop_where-IsAccounted :
      (s : MemoryCacheStore) → IsAccounted s → IsAccounted (drop_where p s.records s)
  drop_where-IsAccounted s a = rw (drop_where-kept s a.consistent) (record {
    consistent = record {
      distinct = keep-IsDistinct (λ key rec. not (p key rec)) s.records a.consistent.distinct;
      counted = refl;
    };
    fits = omega (
      arith,
      a.fits,
      a.consistent.counted,
      length-keep-le (λ key rec. not (p key rec)) s.records,
      total-keep-le (λ key rec. not (p key rec)) (λ (r : MemRecord). r.bytes) s.records,
    );
  })

-- After `deleteByPrefix` a key with the prefix is absent, and every other key is as it was.
get-delete_by_prefix :
    (prefix key : String) (s : MemoryCacheStore)
    → IsAccounted s
    → JsMap.get key (delete_by_prefix prefix s).records
      ≡ (if starts_with key prefix then none else JsMap.get key s.records)
unfolding delete_by_prefix
get-delete_by_prefix prefix key s a =
    rw (drop_where-kept (λ k rec. starts_with k prefix) s a.consistent) (
      ground (
        arith,
        get-keep (λ k (rec : MemRecord). not (starts_with k prefix)) key s.records
            a.consistent.distinct,
      ))

-- A `get` at the time of a sweep or later answers as if there had been no sweep.
get-sweep :
    (now later : ℕ) (key : String) (s : MemoryCacheStore)
    → IsAccounted s
    → now ≤ later
    → (get later key (sweep now s)).1 ≡ (get later key s).1
unfolding sweep get
get-sweep now later key s a h =
    rw (drop_where-kept (λ k rec. leb rec.expires_at now) s a.consistent) (
      ground (
        arith,
        get-keep (λ k (rec : MemRecord). not (leb rec.expires_at now)) key s.records
            a.consistent.distinct,
      ))
