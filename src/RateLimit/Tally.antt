-- ===== src/RateLimit/Tally.antt =====
-- Lists of timestamps against a window, for packages/rate-limit/src/index.ts.
use axiomify.Base.{
  All-append, ℕ, ◌+◌, ◌≤◌, ◌<◌, List, [], ◌∷◌, ◌++◌, if◌then◌else◌, ltb, length, ◌≡◌, refl, arith,
  All,
}
use axiomify.RateLimit.Window.{IsSorted}

pub All-le : (now t : ℕ) (ts : List ℕ) → now ≤ t → All (λ u. u ≤ now) ts → All (λ u. u ≤ t) ts
All-le now t [] h a = tt
All-le now t (u ∷ ts) h a = (omega (arith, a.0), All-le now t ts h a.1)

pub IsSorted-snoc :
    (ts : List ℕ) (t : ℕ) → IsSorted ts → All (λ u. u ≤ t) ts → IsSorted (ts ++ t ∷ [])
IsSorted-snoc [] t s a = (tt, tt)
IsSorted-snoc (u ∷ ts) t s a =
    (All-append (λ v. u ≤ v) ts (t ∷ []) s.0 (omega (arith, a.0)), IsSorted-snoc ts t s.1 a.1)

pub IsSorted-suffix : (ts us : List ℕ) → IsSorted (ts ++ us) → IsSorted us
IsSorted-suffix [] us s = s
IsSorted-suffix (t ∷ ts) us s = IsSorted-suffix ts us s.1

module _ (w : ℕ) where
  -- How many times of a list are in the window.
  unfoldable pub in_window : ℕ → List ℕ → ℕ
  in_window now [] = 0
  in_window now (t ∷ ts) = (if ltb now (t + w) then 1 else 0) + in_window now ts

  pub in_window-append :
      (now : ℕ) (ts us : List ℕ) → in_window now (ts ++ us) ≡ in_window now ts + in_window now us
  unfolding in_window
  in_window-append now [] us = omega arith
  in_window-append now (t ∷ ts) us = omega (arith, in_window-append now ts us)

  pub in_window_stale : (now : ℕ) (ts : List ℕ) → All (λ t. t + w ≤ now) ts → in_window now ts ≡ 0
  unfolding in_window
  in_window_stale now [] a = refl
  in_window_stale now (t ∷ ts) a = ground (arith, in_window_stale now ts a.1)

  pub in_window_fresh :
      (now : ℕ) (ts : List ℕ) → All (λ t. now < t + w) ts → in_window now ts ≡ length ts
  unfolding in_window
  in_window_fresh now [] a = refl
  in_window_fresh now (t ∷ ts) a = ground (arith, in_window_fresh now ts a.1)

  pub All-later :
      (now t : ℕ) (ts : List ℕ) → now ≤ t → All (λ u. u + w ≤ now) ts → All (λ u. u + w ≤ t) ts
  All-later now t [] h a = tt
  All-later now t (u ∷ ts) h a = (omega (arith, a.0), All-later now t ts h a.1)
