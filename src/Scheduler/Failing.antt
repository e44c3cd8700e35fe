-- ===== src/Scheduler/Failing.antt =====
-- `executeJob` and `handleJobFailure` of packages/jobs/src/scheduler.ts over the in-memory storage: what
-- becomes of a job that was handed out.
use axiomify.Base.{
  ℕ, suc, ◌+◌, ◌≤◌, ◌<◌, String, true, false, Option, none, some, List, leb, ◌≡◌, ◌⊎◌, inl, inr,
  refl, arith, Bool-cases, leb→le,
}
use mathlib.Core.Option
use Prim.Native.String
use axiomify.JsMap
use axiomify.JsMap.Laws.{get-set_self}
use axiomify.Jobs
use axiomify.Jobs.{Job, Status, pending, running, completed, failed, failed_job}
use axiomify.Jobs.Calls.{complete-some, fail-some}
use axiomify.Scheduler.{
  Outcome, returned, threw, memory_storage, Event, dead_letters, dlq_job, handle_job_failure,
  execute_job, no_handler, conclude, call_handler,
}

module _ {P : Type 0} where
  -- The stored job is the one that was handed out, as far as the scheduler looks.
  abbrev pub Matches : Job P → Job P → Type 0
  Matches job stored =
      (stored.attempts ≡ job.attempts)
      × (stored.max_attempts ≡ job.max_attempts)
      × (stored.queue ≡ job.queue)

module _ {P : Type 0} (queue : String) (retry_delay now : ℕ) where
  -- The job waits for its next attempt, or was moved to the queue of dead letters after its last one; it
  -- carries the error.
  abbrev pub IsFailed : String → Job P → Job P → Type 0
  IsFailed error job j =
      ((j.status ≡ pending)
        × (j.attempts ≡ suc job.attempts)
        × (j.attempts < j.max_attempts)
        × (j.run_at ≡ now + retry_delay)
        × (j.queue ≡ job.queue)
        × (j.error ≡ some error))
      ⊎ ((j.status ≡ failed)
          × (j.attempts ≡ suc job.attempts)
          × (j.max_attempts ≤ j.attempts)
          × (j.queue ≡ queue)
          × (j.error ≡ some error))

  -- The job after its handler, if there is one, ended; it was stored as the second job.
  abbrev pub IsSettled : Option (Outcome (Unit {0})) → Job P → Job P → Job P → Type 0
  IsSettled none job stored j =
      IsFailed (String.◌++◌ "No handler registered for job \"" (String.◌++◌ job.name "\"")) job j
  IsSettled (some (returned v)) job stored j =
      (j.status ≡ completed) × (j.attempts ≡ job.attempts) × (j.queue ≡ job.queue)
  IsSettled (some (threw (some error))) job stored j = IsFailed error job j
  IsSettled (some (threw none)) job stored j = j ≡ stored

  abbrev Settles :
      Option (Outcome (Unit {0})) → Job P → Job P → List (String × Job P) × List (Event P) → Type 0
  Settles outcome job stored r =
      (j : Job P) × (JsMap.get job.id r.0 ≡ some j) × IsSettled outcome job stored j

  failure_last :
      (error : String) (job : Job P) (jobs : List (String × Job P))
      → dead_letters (some queue) ≡ some queue
      → leb job.max_attempts (suc job.attempts) ≡ true
      → (handle_job_failure memory_storage (some queue) retry_delay now job error jobs).0
        ≡ JsMap.set job.id (dlq_job queue error job) jobs
  unfolding handle_job_failure memory_storage Jobs.save dlq_job
  failure_last error job jobs q l = rw (q, l) refl

  failure_retry :
      (error : String) (job : Job P) (jobs : List (String × Job P))
      → leb job.max_attempts (suc job.attempts) ≡ false
      → (handle_job_failure memory_storage (some queue) retry_delay now job error jobs).0
        ≡ Jobs.fail now job.id error (some retry_delay) jobs
  unfolding handle_job_failure memory_storage
  failure_retry error job jobs l = rw (l) refl

  retried :
      (error : String) (job stored : Job P)
      → leb job.max_attempts (suc job.attempts) ≡ false
      → Matches job stored
      → IsFailed error job (failed_job now error (some retry_delay) stored)
  unfolding failed_job
  retried error job stored l (a, m, q) = ground arith

  buried :
      (error : String) (job : Job P)
      → leb job.max_attempts (suc job.attempts) ≡ true
      → IsFailed error job (dlq_job queue error job)
  unfolding dlq_job
  buried error job l = inr (refl, refl, leb→le job.max_attempts (suc job.attempts) l, refl, refl)

  handle_job_failure-IsFailed :
      (error : String) (job stored : Job P) (jobs : List (String × Job P))
      → dead_letters (some queue) ≡ some queue
      → JsMap.get job.id jobs ≡ some stored
      → Matches job stored
      → (j : Job P) × (JsMap.get job.id
            (handle_job_failure memory_storage (some queue) retry_delay now job error jobs).0
          ≡ some j)
        × IsFailed error job j
  handle_job_failure-IsFailed error job stored jobs q g e =
      elim (Bool-cases (leb job.max_attempts (suc job.attempts))) [
        | inl l ↦ (
          dlq_job queue error job,
          rw (failure_last error job jobs q l) (get-set_self job.id (dlq_job queue error job) jobs),
          buried error job l,
        )
        | inr l ↦ (
          failed_job now error (some retry_delay) stored,
          rw
              (
                failure_retry error job jobs l,
                fail-some now job.id error (some retry_delay) stored jobs g,
              )
              (get-set_self job.id (failed_job now error (some retry_delay) stored) jobs),
          retried error job stored l e,
        )
      ]

  conclude-Settles :
      (outcome : Outcome (Unit {0})) (job stored : Job P) (jobs : List (String × Job P))
      → dead_letters (some queue) ≡ some queue
      → JsMap.get job.id jobs ≡ some stored
      → Matches job stored
      → Settles
          (some outcome)
          job
          stored
          (conclude memory_storage (some queue) retry_delay now job outcome jobs)
  unfolding conclude memory_storage
  conclude-Settles (returned v) job stored jobs q g e = (
    record stored { status = completed },
    rw (complete-some job.id stored jobs g)
        (get-set_self job.id (record stored { status = completed }) jobs),
    (refl, e.0, e.2),
  )
  conclude-Settles (threw none) job stored jobs q g e = (stored, g, refl)
  conclude-Settles (threw (some error)) job stored jobs q g e =
      handle_job_failure-IsFailed error job stored jobs q g e

  call_handler-Settles :
      (handler : Option (P → Outcome (Unit {0}))) (job stored : Job P)
      (jobs : List (String × Job P))
      → dead_letters (some queue) ≡ some queue
      → JsMap.get job.id jobs ≡ some stored
      → Matches job stored
      → Settles
          (Option.map (λ h. h job.payload) handler)
          job
          stored
          (call_handler memory_storage (some queue) retry_delay now handler job jobs)
  unfolding call_handler no_handler
  call_handler-Settles none job stored jobs q g e =
      handle_job_failure-IsFailed (no_handler job.name) job stored jobs q g e
  call_handler-Settles (some handler) job stored jobs q g e =
      conclude-Settles (handler job.payload) job stored jobs q g e

-- What becomes of a job of the in-memory storage that is executed, where `dlqQueue` is given and not empty
-- and the job is stored with the attempts, their limit and the queue that it was handed out with, follows
-- from how the handler of its name ends. Where it returns, the job is completed. Where it throws, or there
-- is none, the job carries that error and one more attempt: it waits until the retry delay is over while
-- attempts are left, and otherwise it is failed in the queue of dead letters. Where it throws null or
-- undefined, the stored job is left as it was.
pub execute_job-IsSettled :
    {P : Type 0} (queue : String) (retry_delay now : ℕ)
    (handlers : List (String × (P → Outcome (Unit {0})))) (job stored : Job P)
    (jobs : List (String × Job P))
    → dead_letters (some queue) ≡ some queue
    → JsMap.get job.id jobs ≡ some stored
    → Matches job stored
    → (j : Job P) × (JsMap.get job.id
          (execute_job memory_storage (some queue) retry_delay now handlers job jobs).0
        ≡ some j)
      × IsSettled queue retry_delay now
          (Option.map (λ h. h job.payload) (JsMap.get job.name handlers))
          job
          stored
          j
unfolding execute_job
execute_job-IsSettled queue retry_delay now handlers job stored jobs q g e =
    call_handler-Settles queue retry_delay now (JsMap.get job.name handlers) job stored jobs q g e
