-- ===== src/Scheduler/Workers.antt =====
-- `start`, `stop` and `tick` of packages/jobs/src/scheduler.ts: the worker slots. The set of active workers
-- is its size, since the random worker ids differ; a timer or an immediate that will call `tick` is counted
-- in `timers`. The answers of the storage and the ends of the jobs come in any order.
use axiomify.Base.{
  ◌==◌, ℕ, zero, suc, ◌+◌, ◌-◌, ◌≤◌, ◌<◌, Bool, true, false, not, if◌then◌else◌, leb, ◌≡◌, ◌⊎◌, inl,
  inr, refl, arith,
}

pub record Workers : Type 0 where
  pub active : ℕ
  pub pending_acquires : ℕ
  pub running : Bool
  pub timers : ℕ

abbrev pub new_workers : Workers
new_workers = record { active = 0; pending_acquires = 0; running = false; timers = 0 }

module _ (max_concurrency : ℕ) where
  -- With fuel for the calls of `tick` by itself.
  unfoldable pub tick_loop : ℕ → Workers → Workers
  tick_loop zero w = w
  tick_loop (suc fuel) w =
      let more = tick_loop fuel (record w { pending_acquires = suc w.pending_acquires }) in
      if not w.running
      then w
      else if leb max_concurrency (w.active + w.pending_acquires)
      then (if w.pending_acquires == 0 then record w { timers = suc w.timers } else w)
      else more

  unfoldable pub tick : Workers → Workers
  tick w = tick_loop (suc max_concurrency) w

  unfoldable pub start : Workers → Workers
  start w = if w.running then w else tick (record w { running = true })

  -- The timer that was set last may be one that is still to fire.
  unfoldable pub stop : Bool → Workers → Workers
  stop clears w = record w { running = false; timers = if clears then w.timers - 1 else w.timers }

  -- `acquireNext` has answered with a job.
  unfoldable pub acquired : Workers → Workers
  acquired w = record w { pending_acquires = w.pending_acquires - 1; active = suc w.active }

  -- `acquireNext` has answered with none, or has failed.
  unfoldable pub nothing_acquired : Workers → Workers
  nothing_acquired w = record w { pending_acquires = w.pending_acquires - 1; timers = suc w.timers }

  -- A worker has ended, and an immediate will call `tick`.
  unfoldable pub finished : Workers → Workers
  finished w = record w { active = w.active - 1; timers = suc w.timers }

  unfoldable pub fired : Workers → Workers
  fired w = tick (record w { timers = w.timers - 1 })

  -- What can happen next.
  pub data Step : Workers → Workers → Type 0 where
    starts : {w : Workers} → Step w (start w)
    stops : {w : Workers} (clears : Bool) → Step w (stop clears w)
    acquires : {w : Workers} → 1 ≤ w.pending_acquires → Step w (acquired w)
    acquires_nothing : {w : Workers} → 1 ≤ w.pending_acquires → Step w (nothing_acquired w)
    finishes : {w : Workers} → 1 ≤ w.active → Step w (finished w)
    fires : {w : Workers} → 1 ≤ w.timers → Step w (fired w)

  pub data Reachable : Workers → Type 0 where
    initial : Reachable new_workers
    next : {v w : Workers} → Reachable v → Step v w → Reachable w

  -- The slots are not overbooked, and a running scheduler has a worker, an acquisition or a timer.
  abbrev pub IsSound : Workers → Type 0
  IsSound w =
      (w.active + w.pending_acquires ≤ max_concurrency)
      × ((w.running ≡ false) ⊎ (1 ≤ w.active + w.pending_acquires + w.timers))

  tick_loop-IsSound :
      (fuel : ℕ) (w : Workers)
      → w.active + w.pending_acquires ≤ max_concurrency
      → max_concurrency < fuel + w.active + w.pending_acquires
      → IsSound (tick_loop fuel w)
  unfolding tick_loop
  tick_loop-IsSound zero w h f = absurd (omega arith)
  tick_loop-IsSound (suc fuel) w h f =
      ground
        (arith, tick_loop-IsSound fuel (record w { pending_acquires = suc w.pending_acquires }))

  tick-IsSound : (w : Workers) → w.active + w.pending_acquires ≤ max_concurrency → IsSound (tick w)
  unfolding tick
  tick-IsSound w h = tick_loop-IsSound (suc max_concurrency) w h (omega arith)

  start-IsSound : (w : Workers) → IsSound w → IsSound (start w)
  unfolding start
  start-IsSound w h = ground (arith, tick-IsSound (record w { running = true }))

  Step-IsSound : (v w : Workers) → Step v w → IsSound v → IsSound w
  unfolding stop acquired nothing_acquired finished fired
  Step-IsSound v w starts h = start-IsSound v h
  Step-IsSound v w (stops clears) h = (h.0, inl refl)
  Step-IsSound v w (acquires p) h = ground arith
  Step-IsSound v w (acquires_nothing p) h = ground arith
  Step-IsSound v w (finishes p) h = ground arith
  Step-IsSound v w (fires p) h = tick-IsSound (record v { timers = v.timers - 1 }) h.0

  tick_loop_fills :
      (fuel : ℕ) (w : Workers)
      → w.running ≡ true
      → w.active + w.pending_acquires ≤ max_concurrency
      → max_concurrency < fuel + w.active + w.pending_acquires
      → ((tick_loop fuel w).active ≡ w.active)
        × ((tick_loop fuel w).active + (tick_loop fuel w).pending_acquires ≡ max_concurrency)
  unfolding tick_loop
  tick_loop_fills zero w r h f = absurd (omega arith)
  tick_loop_fills (suc fuel) w r h f =
      ground (arith, tick_loop_fills fuel (record w { pending_acquires = suc w.pending_acquires }))

-- Whatever order the answers, ends, timers, starts and stops come in, the active workers and the
-- acquisitions under way never exceed the maximum, and while the scheduler runs there is always a worker,
-- an acquisition or a timer that will bring it back to `tick`.
pub Reachable-IsSound :
    (max_concurrency : ℕ) (w : Workers) → Reachable max_concurrency w → IsSound max_concurrency w
Reachable-IsSound max_concurrency w initial = (omega arith, inl refl)
Reachable-IsSound max_concurrency w (next {v} r s) =
    Step-IsSound max_concurrency v w s (Reachable-IsSound max_concurrency v r)

-- A tick of a running scheduler that is not overbooked leaves the active workers as they are and uses
-- every other slot for an acquisition.
tick_fills :
    (max_concurrency : ℕ) (w : Workers)
    → w.running ≡ true
    → w.active + w.pending_acquires ≤ max_concurrency
    → ((tick max_concurrency w).active ≡ w.active)
      × ((tick max_concurrency w).active + (tick max_concurrency w).pending_acquires
          ≡ max_concurrency)
unfolding tick
tick_fills max_concurrency w r h =
    tick_loop_fills max_concurrency (suc max_concurrency) w r h (omega arith)

-- Once stopped, no step but a start begins an acquisition: the workers and acquisitions only get fewer.
stopped_drains :
    (max_concurrency : ℕ) (v w : Workers)
    → v.running ≡ false
    → Step max_concurrency v w
    → (w ≡ start max_concurrency v)
      ⊎ ((w.running ≡ false)
          × (w.active + w.pending_acquires ≤ v.active + v.pending_acquires)
          × (w.pending_acquires ≤ v.pending_acquires))
unfolding stop acquired nothing_acquired finished fired tick tick_loop
stopped_drains max_concurrency v w r starts = inl refl
stopped_drains max_concurrency v w r (stops clears) = inr (refl, omega arith, omega arith)
stopped_drains max_concurrency v w r (acquires p) = inr (r, omega arith, omega arith)
stopped_drains max_concurrency v w r (acquires_nothing p) = inr (r, omega arith, omega arith)
stopped_drains max_concurrency v w r (finishes p) = inr (r, omega arith, omega arith)
stopped_drains max_concurrency v w r (fires p) = ground arith
