-- ===== src/RateLimit/Window.antt =====
-- The window of one key in packages/rate-limit/src/index.ts: the timestamps from `start` on.
use axiomify.Base.{
  leb→le, ap, ◌∙◌, length-append, ℕ, zero, suc, ◌+◌, ◌≤◌, ◌<◌, true, none, some, List, [], ◌∷◌,
  ◌++◌, if◌then◌else◌, leb, length, get_elem?, drop, ◌≡◌, refl, arith, Bool-cases, Option-cases,
  inl, inr, All, length-drop, drop-append,
}
use axiomify.RateLimit.{
  Hits, is_stale, advance_loop, advance, compact, prune_entry, record_hit, is_spent,
}

-- The timestamps that count.
abbrev pub live : Hits → List ℕ
live d = drop d.start d.timestamps

-- The specification of the loop: drop the timestamps at the front that left the window.
pub drop_stale : ℕ → ℕ → List ℕ → List ℕ
drop_stale now w [] = []
drop_stale now w (t ∷ ts) =
    let rest = drop_stale now w ts in if leb (t + w) now then rest else t ∷ ts

pub drop_stale-nil : (now w : ℕ) → drop_stale now w [] ≡ []
unfolding drop_stale
drop_stale-nil now w = refl

drop-none : (n : ℕ) (ts : List ℕ) → get_elem? ts n ≡ none → drop n ts ≡ []
drop-none zero [] e = refl
drop-none (suc n) [] e = refl
drop-none zero (t ∷ ts) e = cc
drop-none (suc n) (t ∷ ts) e = drop-none n ts e

drop-some :
    (n : ℕ) (ts : List ℕ) (t : ℕ)
    → get_elem? ts n ≡ some t
    → (drop n ts ≡ t ∷ drop (suc n) ts) × (n < length ts)
drop-some n [] t e = cc
drop-some zero (u ∷ ts) t e = (ground arith, omega arith)
drop-some (suc n) (u ∷ ts) t e = let (ih, l) = drop-some n ts t e in (ih, omega arith)

-- `start` does not pass the end of the list.
abbrev pub IsBounded : Hits → Type 0
IsBounded d = d.start ≤ length d.timestamps

-- What a step on an entry leaves: the live timestamps, the window and the bound.
pub record Leaves (d : Hits) (w : ℕ) (ts : List ℕ) : Type 0 where
  pub live_eq : live d ≡ ts
  pub window_eq : d.window_ms ≡ w
  pub bounded : IsBounded d

advance_loop-live :
    (fuel now w : ℕ) (d : Hits)
    → length d.timestamps ≤ fuel + d.start
    → IsBounded d
    → Leaves (advance_loop fuel now w d) d.window_ms (drop_stale now w (live d))
unfolding advance_loop is_stale drop_stale
advance_loop-live zero now w d h b = elim (Option-cases (get_elem? d.timestamps d.start)) [
  | inl e ↦ record {
    live_eq = ground (arith, drop-none d.start d.timestamps e);
    window_eq = refl;
    bounded = b;
  }
  | inr (t, e) ↦ absurd (omega (arith, (drop-some d.start d.timestamps t e).1))
]
advance_loop-live (suc fuel) now w d h b = elim (Option-cases (get_elem? d.timestamps d.start)) [
  | inl e ↦ record {
    live_eq = ground (arith, drop-none d.start d.timestamps e);
    window_eq = ground arith;
    bounded = ground arith;
  }
  | inr (t, e) ↦
      let (here, l) = drop-some d.start d.timestamps t e in
      let ih =
        advance_loop-live fuel now w (record d { start = suc d.start }) (omega arith)
          (omega arith) in
      record {
        live_eq = ground (arith, here, ih.live_eq);
        window_eq = ground (arith, ih.window_eq);
        bounded = ground (arith, ih.bounded);
      }
]

pub advance-live :
    (now w : ℕ) (d : Hits)
    → IsBounded d
    → Leaves (advance now w d) d.window_ms (drop_stale now w (live d))
unfolding advance
advance-live now w d b = advance_loop-live (length d.timestamps) now w d (omega arith) b

pub compact-live : (d : Hits) → IsBounded d → Leaves (compact d) d.window_ms (live d)
unfolding compact
compact-live d b = record {
  live_eq = ground arith;
  window_eq = ground arith;
  bounded = ground (arith, length-drop d.start d.timestamps);
}

-- A hit drops the timestamps that left the window and adds the time.
pub record_hit-live :
    (now w : ℕ) (d : Hits)
    → IsBounded d
    → Leaves (record_hit now w d) d.window_ms (drop_stale now w (live d) ++ now ∷ [])
unfolding record_hit
record_hit-live now w d b =
    let a = advance-live now w d b in
    let d' = advance now w d in
    let pushed : Hits = record d' { timestamps = d'.timestamps ++ now ∷ [] } in
    let c =
      compact-live pushed (omega (arith, length-append d'.timestamps (now ∷ []), a.bounded)) in
    record {
      live_eq =
          c.live_eq
          ∙ drop-append d'.start d'.timestamps (now ∷ []) a.bounded
          ∙ ap (λ ts. ts ++ now ∷ []) a.live_eq;
      window_eq = c.window_eq ∙ a.window_eq;
      bounded = c.bounded;
    }

pub prune_entry-live :
    (now : ℕ) (d : Hits)
    → IsBounded d
    → Leaves (prune_entry now d) d.window_ms (drop_stale now d.window_ms (live d))
unfolding prune_entry
prune_entry-live now d b =
    let a = advance-live now d.window_ms d b in
    let c = compact-live (advance now d.window_ms d) a.bounded in
    record {
      live_eq = ground (arith, a.live_eq, c.live_eq);
      window_eq = ground (arith, a.window_eq, c.window_eq);
      bounded = ground (arith, a.bounded, c.bounded);
    }

drop_all : (n : ℕ) (ts : List ℕ) → length ts ≤ n → drop n ts ≡ []
drop_all zero [] h = refl
drop_all zero (t ∷ ts) h = absurd (omega arith)
drop_all (suc n) [] h = refl
drop_all (suc n) (t ∷ ts) h = drop_all n ts (omega arith)

-- A spent entry has no live timestamp.
pub is_spent-live : (d : Hits) → is_spent d ≡ true → live d ≡ []
is_spent-live d h = drop_all d.start d.timestamps (leb→le _ _ h)

-- The timestamps at the front that the loop drops have left the window.
pub drop_stale-split :
    (now w : ℕ) (ts : List ℕ)
    → (gone : List ℕ) × (ts ≡ gone ++ drop_stale now w ts) × All (λ t. t + w ≤ now) gone
unfolding drop_stale
drop_stale-split now w [] = ([], refl, tt)
drop_stale-split now w (t ∷ ts) = elim (Bool-cases (leb (t + w) now)) [
  | inl stale ↦
      let (gone, e, all) = drop_stale-split now w ts in
      (t ∷ gone, rw stale (ap (◌∷◌ t) e), (leb→le _ _ stale, all))
  | inr fresh ↦ ([], rw fresh, tt)
]

abbrev pub IsSorted : List ℕ → Type 0
IsSorted [] = Unit
IsSorted (t ∷ ts) = All (λ u. t ≤ u) ts × IsSorted ts

All-fresh :
    (now w t : ℕ) (ts : List ℕ) → now < t + w → All (λ u. t ≤ u) ts → All (λ u. now < u + w) ts
All-fresh now w t [] h a = tt
All-fresh now w t (u ∷ ts) h a = (omega (arith, a.0), All-fresh now w t ts h a.1)

-- In order, the others are in the window.
pub drop_stale-fresh :
    (now w : ℕ) (ts : List ℕ) → IsSorted ts → All (λ t. now < t + w) (drop_stale now w ts)
unfolding drop_stale
drop_stale-fresh now w [] s = tt
drop_stale-fresh now w (t ∷ ts) s = elim (Bool-cases (leb (t + w) now)) [
  | inl stale ↦ rw stale (drop_stale-fresh now w ts s.1)
  | inr fresh ↦ let l : now < t + w = ground arith in rw fresh (l, All-fresh now w t ts l s.0)
]
