-- ===== src/RateLimit/Counting.antt =====
-- `MemoryStore` of packages/rate-limit/src/index.ts counts the hits of a sliding window: what `increment`
-- returns, against the whole history of calls.
use axiomify.Base.{
  length-append, length-drop, ◌∙◌, ap, ℕ, suc, ◌+◌, ◌-◌, ◌≤◌, ◌<◌, String, ◌&&◌, Option, List, [],
  ◌∷◌, if◌then◌else◌, ltb, length, ◌≡◌, refl, arith, ◌===◌,
}
use native.Mathlib.Nat.{add-zero, add-suc, suc-add}
use axiomify.JsMap
use axiomify.JsMap.{IsDistinct}
use axiomify.RateLimit.Tally.{
  in_window, in_window-append, in_window_stale, in_window_fresh, IsSorted-suffix,
}
use axiomify.RateLimit.Tracking.{
  IsTracked, noted, data_of-entry, increment_room, later-IsTracked, hit-IsTracked, tick-IsTracked,
}
use axiomify.RateLimit.{MemoryStore, new_store, prune, increment, record_hit, data_of, result_of}
use axiomify.RateLimit.Window.{
  live, drop_stale, record_hit-live, drop_stale-split, drop_stale-fresh,
}

-- A request of a key at a time, or a run of the timer that prunes.
pub data Event : Type 0 where
  hit : ℕ → String → Event
  tick : ℕ → Event

abbrev pub time : Event → ℕ
time (hit t k) = t
time (tick t) = t

-- The clock does not run backwards, from the first time to the last.
abbrev pub IsChronological : ℕ → List Event → ℕ → Type 0
IsChronological from [] to = from ≤ to
IsChronological from (e ∷ es) to = (from ≤ time e) × IsChronological (time e) es to

module _ (w : ℕ) where
  unfoldable pub run : List Event → MemoryStore → MemoryStore
  run [] s = s
  run (hit t k ∷ es) s = run es (increment t k w s).0
  run (tick t ∷ es) s = run es (prune t s)

  -- The number of requests of the key in the history whose window still holds the time.
  unfoldable pub recent : ℕ → String → List Event → ℕ
  recent now key [] = 0
  recent now key (hit t k ∷ es) =
      (if k === key && ltb now (t + w) then 1 else 0) + recent now key es
  recent now key (tick t ∷ es) = recent now key es

  -- The times of each key after more events.
  history : (String → List ℕ) → List Event → String → List ℕ
  history times [] = times
  history times (hit t k ∷ es) = history (noted w t k times) es
  history times (tick t ∷ es) = history times es

  run-IsTracked :
      (now n to : ℕ) (times : String → List ℕ) (es : List Event) (s : MemoryStore)
      → IsTracked w now n times s
      → IsChronological now es to
      → n + length es ≤ s.max_keys
      → IsTracked w to (n + length es) (history times es) (run es s)
        × ((run es s).max_keys ≡ s.max_keys)
  unfolding run history prune
  run-IsTracked now n to times [] s h c r =
      rw (add-zero n) (later-IsTracked w now n to times s h c, refl)
  run-IsTracked now n to times (hit t k ∷ es) s h (l, c) r =
      let room = increment_room w t k s (omega (arith, h.small)) in
      let same : (increment t k w s).0.max_keys ≡ s.max_keys = ground (arith, room) in
      let (ih, kept) =
        run-IsTracked t (suc n) to (noted w t k times) es (increment t k w s).0
          (hit-IsTracked w now n t times s h l k (omega arith)) c (omega (arith, same)) in
      rw (add-suc n (length es), ← suc-add n (length es)) (ih, kept ∙ same)
  run-IsTracked now n to times (tick t ∷ es) s h (l, c) r =
      let (ih, kept) =
        run-IsTracked t (suc n) to times es (prune t s) (tick-IsTracked w now n t times s h l) c
          (omega arith) in
      rw (add-suc n (length es), ← suc-add n (length es)) (ih, kept)

  in_window-history :
      (now : ℕ) (key : String) (times : String → List ℕ) (es : List Event)
      → in_window w now (history times es key) ≡ in_window w now (times key) + recent now key es
  unfolding history recent in_window
  in_window-history now key times [] = omega arith
  in_window-history now key times (hit t k ∷ es) = ground (
    arith,
    in_window-history now key (noted w t k times) es,
    in_window-append w now (times key) (t ∷ []),
  )
  in_window-history now key times (tick t ∷ es) = in_window-history now key times es

  count-recent :
      (n now : ℕ) (times : String → List ℕ) (s : MemoryStore) (key : String)
      → IsTracked w now n times s
      → n < s.max_keys
      → (increment now key w s).1.count ≡ suc (in_window w now (times key))
  unfolding result_of
  count-recent n now times s key h r =
      let (gone, e, stale) = h.tracks key in
      let l = live (data_of key w s) in
      let sorted = IsSorted-suffix gone l (rw e at (h.sorted key)) in
      let (more, e', stale') = drop_stale-split now w l in
      let kept = drop_stale now w l in
      let d = record_hit now w (data_of key w s) in
      let (window, bounded) = data_of-entry w key h in
      let r' = record_hit-live now w (data_of key w s) bounded in
      let counted : length d.timestamps - d.start ≡ suc (length kept) = omega (
        arith,
        length-drop d.start d.timestamps,
        ap length r'.live_eq,
        length-append kept (now ∷ []),
      ) in
      let window_l : in_window w now l ≡ length kept =
        ap (in_window w now) e'
        ∙ in_window-append w now more kept
        ∙ omega (
          arith,
          in_window_stale w now more stale',
          in_window_fresh w now kept (drop_stale-fresh now w l sorted),
        ) in
      let window_all : in_window w now (times key) ≡ length kept =
        ap (in_window w now) e
        ∙ in_window-append w now gone l
        ∙ omega (arith, in_window_stale w now gone stale, window_l) in
      rw (increment_room w now key s (omega (arith, h.small)), counted, window_all)

new_store-IsTracked :
    (w from : ℕ) (max_keys : Option ℕ) → IsTracked w from 0 (λ key. []) (new_store max_keys)
unfolding new_store data_of JsMap.get
new_store-IsTracked w from max_keys = record {
  distinct = tt;
  small = omega arith;
  sorted = λ key. tt;
  past = λ key. tt;
  entry = λ key d e. absurd (cc);
  tracks = λ key. ([], refl, tt);
}

pub increment-recent :
    (w from to : ℕ) (max_keys : Option ℕ) (es : List Event) (key : String)
    → IsChronological from es to
    → length es < (new_store max_keys).max_keys
    → (increment to key w (run w es (new_store max_keys))).1.count ≡ suc (recent w to key es)
unfolding in_window
increment-recent w from to max_keys es key c r =
    let s = new_store max_keys in
    let (tracked, kept) =
      run-IsTracked w from 0 to (λ k. []) es s (new_store-IsTracked w from max_keys) c
        (omega arith) in
    let n : 0 + length es < (run w es s).max_keys = omega (arith, kept) in
    omega (
      arith,
      count-recent w (0 + length es) to (history w (λ k. []) es) (run w es s) key tracked n,
      in_window-history w to key (λ k. []) es,
    )
