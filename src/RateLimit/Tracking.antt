-- ===== src/RateLimit/Tracking.antt =====
-- The invariant that ties the entries of `MemoryStore` of packages/rate-limit/src/index.ts to the history
-- of calls, and the steps that keep it.
use axiomify.Base.{
  sym, append_assoc, inr, All-append, inl, ◌∙◌, ap, Option-cases, ℕ, suc, ◌+◌, ◌≤◌, ◌<◌, String,
  some, List, [], ◌∷◌, ◌++◌, if◌then◌else◌, length, ◌≡◌, refl, arith, Bool-cases, eq_iff, ◌===◌,
  All,
}
use axiomify.JsMap
use axiomify.JsMap.{IsDistinct}
use axiomify.JsMap.Laws.{length-set-le, get-set, set-IsDistinct}
use axiomify.RateLimit.Tally.{All-le, All-later, IsSorted-snoc}
use axiomify.RateLimit.{
  Hits, MemoryStore, advance, prune, increment, record_hit, data_of, result_of,
}
use axiomify.RateLimit.Window.{
  drop_stale-nil, live, drop_stale, IsBounded, Leaves, IsSorted, record_hit-live, prune_entry-live,
  is_spent-live, advance-live, drop_stale-split,
}
use axiomify.RateLimit.Pruning.{get-prune_hits, prune_hits-IsDistinct, length-prune_hits-le}

module _ (w : ℕ) where
  -- The live timestamps are those of the history less some that left the window.
  abbrev pub Tracks : ℕ → List ℕ → List ℕ → Type 0
  Tracks now ts l = (gone : List ℕ) × (ts ≡ gone ++ l) × All (λ t. t + w ≤ now) gone

  -- After `n` events, at a time and with the times of each key so far.
  pub record IsTracked (now n : ℕ) (times : String → List ℕ) (s : MemoryStore) : Type 0 where
    pub distinct : IsDistinct s.hits
    pub small : length s.hits ≤ n
    pub sorted : (key : String) → IsSorted (times key)
    pub past : (key : String) → All (λ t. t ≤ now) (times key)
    pub entry :
        (key : String) (d : Hits) → JsMap.get key s.hits ≡ some d → (d.window_ms ≡ w) × IsBounded d
    pub tracks : (key : String) → Tracks now (times key) (live (data_of key w s))

  abbrev pub noted : ℕ → String → (String → List ℕ) → String → List ℕ
  noted t k times j = if k === j then times j ++ t ∷ [] else times j

  pub Tracks-later : (now t : ℕ) (ts l : List ℕ) → now ≤ t → Tracks now ts l → Tracks t ts l
  Tracks-later now t ts l h (gone, e, a) = (gone, e, All-later w now t gone h a)

  -- Dropping what left the window keeps track of the history.
  Tracks-step :
      (now t : ℕ) (ts l : List ℕ) → now ≤ t → Tracks now ts l → Tracks t ts (drop_stale t w l)
  Tracks-step now t ts l h (gone, e, a) =
      let (more, e', a') = drop_stale-split t w l in
      (
        gone ++ more,
        e ∙ ap (λ x. gone ++ x) e' ∙ sym (append_assoc gone more (drop_stale t w l)),
        All-append (λ u. u + w ≤ t) gone more (All-later w now t gone h a) a',
      )

  Tracks-snoc : (t x : ℕ) (ts l : List ℕ) → Tracks t ts l → Tracks t (ts ++ x ∷ []) (l ++ x ∷ [])
  Tracks-snoc t x ts l (gone, e, a) =
      (gone, ap (λ u. u ++ x ∷ []) e ∙ append_assoc gone l (x ∷ []), a)

  pub data_of-entry :
      {now n : ℕ} {times : String → List ℕ} {s : MemoryStore} (key : String)
      → IsTracked now n times s
      → ((data_of key w s).window_ms ≡ w) × IsBounded (data_of key w s)
  unfolding data_of
  data_of-entry {s} key h = elim (Option-cases (JsMap.get key s.hits)) [
    | inl e ↦ rw (e, data_of) (refl, omega arith)
    | inr (d, e) ↦ rw (e, data_of) (h.entry key d e)
  ]

  abbrev pub stored : ℕ → String → MemoryStore → MemoryStore
  stored t k s = record s { hits = JsMap.set k (record_hit t w (data_of k w s)) s.hits }

  -- With room for one more key nothing is pruned or evicted.
  pub increment_room :
      (t : ℕ) (k : String) (s : MemoryStore)
      → length s.hits < s.max_keys
      → increment t k w s ≡ (stored t k s, result_of t w (record_hit t w (data_of k w s)))
  unfolding increment
  increment_room t k s h = ground (arith, length-set-le k (record_hit t w (data_of k w s)) s.hits)

  data_of-stored :
      (t : ℕ) (k j : String) (s : MemoryStore)
      → data_of j w (stored t k s)
        ≡ (if k === j then record_hit t w (data_of k w s) else data_of j w s)
  unfolding data_of
  data_of-stored t k j s = ground (arith, get-set j k (record_hit t w (data_of k w s)) s.hits)

  module _ (now n t : ℕ) (times : String → List ℕ) (s : MemoryStore) (h : IsTracked now n times s)
      (l : now ≤ t) where
    stored-live :
        (k : String)
        → Leaves
            (record_hit t w (data_of k w s))
            w
            (drop_stale t w (live (data_of k w s)) ++ t ∷ [])
    stored-live k =
        let (window, bounded) = data_of-entry k h in
        let r = record_hit-live t w (data_of k w s) bounded in
        record { live_eq = r.live_eq; window_eq = r.window_eq ∙ window; bounded = r.bounded }

    stored-Tracks :
        (k j : String) → Tracks t (noted t k times j) (live (data_of j w (stored t k s)))
    stored-Tracks k j = elim (Bool-cases (k === j)) [
      | inl same ↦
          let p : k ≡ j = (eq_iff k j).0 same in
          rw (data_of-stored t k j s, same)
            (rw (← p, (stored-live k).live_eq)
              (Tracks-snoc t t (times k) _ (Tracks-step now t (times k) _ l (h.tracks k))))
      | inr other ↦
          rw (data_of-stored t k j s, other) (Tracks-later now t (times j) _ l (h.tracks j))
    ]

    stored-entry :
        (k j : String) (d : Hits)
        → JsMap.get j (stored t k s).hits ≡ some d
        → (d.window_ms ≡ w) × IsBounded d
    stored-entry k j d e = ground (
      arith,
      get-set j k (record_hit t w (data_of k w s)) s.hits,
      (stored-live k).window_eq,
      (stored-live k).bounded,
      h.entry j d,
    )

    noted-IsSorted : (k j : String) → IsSorted (noted t k times j)
    noted-IsSorted k j = elim (Bool-cases (k === j)) [
      | inl same ↦
          rw same (IsSorted-snoc (times j) t (h.sorted j) (All-le now t (times j) l (h.past j)))
      | inr other ↦ rw other (h.sorted j)
    ]

    noted-past : (k j : String) → All (λ u. u ≤ t) (noted t k times j)
    noted-past k j = elim (Bool-cases (k === j)) [
      | inl same ↦ rw same (
          All-append (λ u. u ≤ t) (times j) (t ∷ []) (All-le now t (times j) l (h.past j))
            (omega arith))
      | inr other ↦ rw other (All-le now t (times j) l (h.past j))
    ]

    pub hit-IsTracked :
        (k : String) → n < s.max_keys → IsTracked t (suc n) (noted t k times) (increment t k w s).0
    hit-IsTracked k r = rw (increment_room t k s (omega (arith, h.small))) (record {
      distinct = set-IsDistinct k (record_hit t w (data_of k w s)) s.hits h.distinct;
      small = omega (arith, length-set-le k (record_hit t w (data_of k w s)) s.hits, h.small);
      sorted = noted-IsSorted k;
      past = noted-past k;
      entry = stored-entry k;
      tracks = stored-Tracks k;
    })

    pruned-live :
        (j : String) → live (data_of j w (prune t s)) ≡ drop_stale t w (live (data_of j w s))
    unfolding prune data_of
    pruned-live j = elim (Option-cases (JsMap.get j s.hits)) [
      | inl e ↦ ground (arith, get-prune_hits t j s.hits h.distinct, drop_stale-nil t w)
      | inr (d, e) ↦
          let (window, bounded) = h.entry j d e in
          let a = advance-live t d.window_ms d bounded in
          let p = prune_entry-live t d bounded in
          ground (
            arith,
            get-prune_hits t j s.hits h.distinct,
            window,
            a.live_eq,
            p.live_eq,
            is_spent-live (advance t d.window_ms d),
          )
    ]

    pruned-entry :
        (j : String) (d : Hits)
        → JsMap.get j (prune t s).hits ≡ some d
        → (d.window_ms ≡ w) × IsBounded d
    unfolding prune
    pruned-entry j d e = elim (Option-cases (JsMap.get j s.hits)) [
      | inl none_there ↦ absurd (ground (arith, get-prune_hits t j s.hits h.distinct))
      | inr (d', e') ↦
          let (window, bounded) = h.entry j d' e' in
          let p = prune_entry-live t d' bounded in
          ground (arith, get-prune_hits t j s.hits h.distinct, window, p.window_eq, p.bounded)
    ]

    pub tick-IsTracked : IsTracked t (suc n) times (prune t s)
    unfolding prune
    tick-IsTracked = record {
      distinct = prune_hits-IsDistinct t s.hits h.distinct;
      small = omega (arith, length-prune_hits-le t s.hits, h.small);
      sorted = h.sorted;
      past = λ j. All-le now t (times j) l (h.past j);
      entry = pruned-entry;
      tracks = λ j. rw (pruned-live j) (Tracks-step now t (times j) _ l (h.tracks j));
    }

  pub later-IsTracked :
      (now n t : ℕ) (times : String → List ℕ) (s : MemoryStore)
      → IsTracked now n times s
      → now ≤ t
      → IsTracked t n times s
  later-IsTracked now n t times s h l = record {
    distinct = h.distinct;
    small = h.small;
    sorted = h.sorted;
    past = λ j. All-le now t (times j) l (h.past j);
    entry = h.entry;
    tracks = λ j. Tracks-later now t (times j) _ l (h.tracks j);
  }
