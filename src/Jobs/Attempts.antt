-- ===== src/Jobs/Attempts.antt =====
-- How the in-memory job storage of packages/jobs/src/storage.ts limits the runs of one job.
use axiomify.Base.{
  ℕ, suc, ◌+◌, ◌-◌, ◌≤◌, ◌<◌, String, true, false, Option, none, some, List, [], ◌∷◌, if◌then◌else◌,
  leb, ◌≡◌, inl, inr, refl, arith, All,
}
use axiomify.JsMap
use axiomify.JsMap.{IsDistinct}
use axiomify.JsMap.Laws.{get-set_self}
use axiomify.Jobs.{Job, completed, is_pending, lock, failed_job, save}
use axiomify.Jobs.Calls.{
  Call, save_call, acquire_call, complete_call, fail_call, purge_call, clear_call, acquisitions,
  saves, fails, IsFiled, set-IsFiled,
}
use axiomify.Jobs.Acquiring.{acquisitions-weight, Spares}

module _ {P : Type 0} where
  -- The runs that are left: as many as the attempts allow, and one at least while it is pending.
  abbrev tries_left : Job P → ℕ
  tries_left job =
      if is_pending job.status
      then (if leb job.max_attempts job.attempts then 1 else job.max_attempts - job.attempts)
      else job.max_attempts - job.attempts - 1

  abbrev once : Job P → ℕ
  once job = if is_pending job.status then 1 else 0

  lock-once : (j : Job P) (e : ℕ) → is_pending j.status ≡ true → suc (once (lock e j)) ≤ once j
  unfolding lock
  lock-once j e h = ground arith

  complete-once : (j : Job P) → once (record j { status = completed }) ≤ once j
  complete-once j = ground arith

  lock-tries_left :
      (j : Job P) (e : ℕ) → is_pending j.status ≡ true → suc (tries_left (lock e j)) ≤ tries_left j
  unfolding lock
  lock-tries_left j e h = ground arith

  complete-tries_left : (j : Job P) → tries_left (record j { status = completed }) ≤ tries_left j
  complete-tries_left j = ground arith

  failed_job-tries_left :
      (now : ℕ) (error : String) (retry : Option ℕ) (j : Job P)
      → tries_left (failed_job now error retry j) ≤ tries_left j
  unfolding failed_job
  failed_job-tries_left now error none j = ground arith
  failed_job-tries_left now error (some retry) j = ground arith

  Spares-once :
      (id : String) (calls : List (Call P))
      → All (λ c. (saves id c ≡ false) × (fails id c ≡ false)) calls
      → All (Spares id once lock-once complete-once) calls
  Spares-once id [] s = tt
  Spares-once id (save_call job ∷ calls) (s, ss) = (s.0, Spares-once id calls ss)
  Spares-once id (acquire_call now queue duration ∷ calls) (s, ss) = (s.0, Spares-once id calls ss)
  Spares-once id (complete_call done ∷ calls) (s, ss) = (s.0, Spares-once id calls ss)
  Spares-once id (fail_call now bad error retry ∷ calls) (s, ss) =
      (inl s.1, Spares-once id calls ss)
  Spares-once id (purge_call now older ∷ calls) (s, ss) = (s.0, Spares-once id calls ss)
  Spares-once id (clear_call ∷ calls) (s, ss) = (s.0, Spares-once id calls ss)

  Spares-tries_left :
      (id : String) (calls : List (Call P))
      → All (λ c. saves id c ≡ false) calls
      → All (Spares id tries_left lock-tries_left complete-tries_left) calls
  Spares-tries_left id [] s = tt
  Spares-tries_left id (save_call job ∷ calls) (s, ss) = (s, Spares-tries_left id calls ss)
  Spares-tries_left id (acquire_call now queue duration ∷ calls) (s, ss) =
      (s, Spares-tries_left id calls ss)
  Spares-tries_left id (complete_call done ∷ calls) (s, ss) = (s, Spares-tries_left id calls ss)
  Spares-tries_left id (fail_call now bad error retry ∷ calls) (s, ss) =
      (inr (failed_job-tries_left now error retry), Spares-tries_left id calls ss)
  Spares-tries_left id (purge_call now older ∷ calls) (s, ss) = (s, Spares-tries_left id calls ss)
  Spares-tries_left id (clear_call ∷ calls) (s, ss) = (s, Spares-tries_left id calls ss)

-- Between two saves or failures of a job, whatever other calls there are and at whatever times, the job is
-- handed out once at most.
pub acquired_once :
    {P : Type 0} (id : String) (calls : List (Call P)) (jobs : List (String × Job P))
    → IsFiled jobs
    → All (λ c. (saves id c ≡ false) × (fails id c ≡ false)) calls
    → acquisitions id calls jobs ≤ 1
acquired_once id calls jobs f s =
    let a =
      acquisitions-weight id once lock-once complete-once calls jobs f (Spares-once id calls s) in
    ground arith

-- A pending job with attempts left that is saved, and not saved again, is handed out at most as often as
-- it has attempts left, whatever failures, retries, completions and other calls follow.
pub acquisitions_bounded :
    {P : Type 0} (job : Job P) (calls : List (Call P)) (jobs : List (String × Job P))
    → IsFiled jobs
    → is_pending job.status ≡ true
    → job.attempts < job.max_attempts
    → All (λ c. saves job.id c ≡ false) calls
    → acquisitions job.id calls (save job jobs) + job.attempts ≤ job.max_attempts
unfolding save
acquisitions_bounded job calls jobs f p l s =
    let a =
      acquisitions-weight job.id tries_left lock-tries_left complete-tries_left calls
        (JsMap.set job.id job jobs) (set-IsFiled job.id job jobs refl f)
        (Spares-tries_left job.id calls s) in
    let g = get-set_self job.id job jobs in ground arith
