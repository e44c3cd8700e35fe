-- ===== src/Scheduler/CronLock.antt =====
-- `acquireLocalCronLock` of packages/jobs/src/scheduler.ts: the lock that a storage without one of its own
-- leaves to the scheduler. The state is the map `localCronLocks`.
use axiomify.Base.{
  ap, ℕ, ◌+◌, ◌≤◌, String, Bool, true, false, List, [], ◌∷◌, if◌then◌else◌, leb, ◌≡◌, arith, eq_iff,
}
use mathlib.Core.Option
use axiomify.JsMap
use axiomify.JsMap.Laws.{get-set, get-set_self}

unfoldable pub acquire_local_cron_lock :
    ℕ → String → ℕ → List (String × ℕ) → List (String × ℕ) × Bool
acquire_local_cron_lock now pattern window locks =
    if leb (Option.get_or (JsMap.get pattern locks) 0) now
    then (JsMap.set pattern (now + window) locks, true)
    else (locks, false)

-- The locks after a sequence of tries, each with its time, pattern and window.
unfoldable pub run_tries : List (ℕ × String × ℕ) → List (String × ℕ) → List (String × ℕ)
run_tries [] locks = locks
run_tries ((now, pattern, window) ∷ tries) locks =
    run_tries tries (acquire_local_cron_lock now pattern window locks).0

-- When the pattern is free again.
abbrev pub expires : String → List (String × ℕ) → ℕ
expires pattern locks = Option.get_or (JsMap.get pattern locks) 0

try-later :
    (now : ℕ) (p pattern : String) (window : ℕ) (locks : List (String × ℕ))
    → expires pattern locks ≤ expires pattern (acquire_local_cron_lock now p window locks).0
unfolding acquire_local_cron_lock
try-later now p pattern window locks =
    ground (arith, get-set pattern p (now + window) locks, eq_iff p pattern)

run_tries-later :
    (tries : List (ℕ × String × ℕ)) (pattern : String) (locks : List (String × ℕ))
    → expires pattern locks ≤ expires pattern (run_tries tries locks)
unfolding run_tries
run_tries-later [] pattern locks = omega arith
run_tries-later ((now, p, window) ∷ tries) pattern locks = omega (
  arith,
  try-later now p pattern window locks,
  run_tries-later tries pattern (acquire_local_cron_lock now p window locks).0,
)

granted-expires :
    (now : ℕ) (pattern : String) (window : ℕ) (locks : List (String × ℕ))
    → (acquire_local_cron_lock now pattern window locks).1 ≡ true
    → expires pattern (acquire_local_cron_lock now pattern window locks).0 ≡ now + window
unfolding acquire_local_cron_lock
granted-expires now pattern window locks h =
    ground (arith, get-set_self pattern (now + window) locks)

granted_after :
    (now : ℕ) (pattern : String) (window : ℕ) (locks : List (String × ℕ))
    → (acquire_local_cron_lock now pattern window locks).1 ≡ true
    → expires pattern locks ≤ now
unfolding acquire_local_cron_lock
granted_after now pattern window locks h = ground arith

-- Two grants of the cron lock of one pattern are at least the window of the first apart, whatever tries
-- for this and other patterns lie between them.
pub cron_lock_apart :
    (first second : ℕ) (pattern : String) (window next_window : ℕ) (tries : List (ℕ × String × ℕ))
    (locks between : List (String × ℕ))
    → acquire_local_cron_lock first pattern window locks ≡ (between, true)
    → (acquire_local_cron_lock second pattern next_window (run_tries tries between)).1 ≡ true
    → first + window ≤ second
cron_lock_apart first second pattern window next_window tries locks between g h =
    let a = granted-expires first pattern window locks (ap (λ r. r.1) g) in
    let b = granted_after second pattern next_window (run_tries tries between) h in
    let c = run_tries-later tries pattern between in
    let e : expires pattern between ≡ first + window = cc (a, g) in omega arith
