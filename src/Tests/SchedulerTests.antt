-- ===== src/Tests/SchedulerTests.antt =====
-- The scheduler and the saga of packages/jobs/src/scheduler.ts at small inputs.
use axiomify.Base.{
  ℕ, ◌+◌, ◌≤◌, String, Option, none, some, List, [], ◌∷◌, ◌++◌, ◌≡◌, ◌⊎◌, refl, arith,
}
use mathlib.Core.List.{reverse}
use axiomify.JsMap
use axiomify.Jobs
use axiomify.Jobs.{Job, pending, running, completed, failed}
use axiomify.Scheduler.Failing.{execute_job-IsSettled, IsSettled}
use axiomify.Scheduler.{memory_storage, execute_job}
use axiomify.Scheduler
use axiomify.Scheduler.CronLock.{acquire_local_cron_lock, run_tries, cron_lock_apart}
use axiomify.Scheduler.{
  SagaStep, Compensation, SagaResult, success, failure, Outcome, returned, threw, EnqueueOptions,
}
use axiomify.Scheduler.Compensating.{Ran, Rolled, Failed, execute-Ended}
use axiomify.Scheduler.Workers
use axiomify.Scheduler.Workers.{
  Reachable, IsSound, Step, initial, next, starts, acquires, new_workers, start, acquired,
  Reachable-IsSound, tick, stop, stops,
}

program : Unit {0}
unfolding Scheduler.execute_job Scheduler.call_handler Scheduler.conclude
    Scheduler.handle_job_failure Scheduler.memory_storage Scheduler.dlq_job Jobs.save Jobs.complete
    Jobs.fail Jobs.failed_job Scheduler.enqueue Scheduler.compensate Scheduler.execute_loop
    Scheduler.execute Workers.tick_loop Workers.tick Workers.start Workers.stop Workers.acquired
    Workers.nothing_acquired Workers.finished Workers.fired JsMap.get JsMap.set
program = tt

-- What is enqueued is written down in a list.
abbrev log : String → Compensation ℕ → List (String × ℕ) → List (String × ℕ) × Option String
log name payload s = (s ++ (name, payload.result) ∷ [], some name)

abbrev fine : String → ℕ → SagaStep ℕ
fine name v = record { name = name; run = λ c. (c, returned v) }

abbrev broken : SagaStep ℕ
broken = record { name = "ship"; run = λ c. (c, threw (some "no stock")) }

abbrev order : List (SagaStep ℕ)
order = fine "reserve" 1 ∷ fine "pay" 2 ∷ broken ∷ fine "mail" 3 ∷ []

compensates : Scheduler.execute log order [] [] ≡ (
  ("compensate:pay", 2) ∷ ("compensate:reserve", 1) ∷ [],
  failure (("reserve", 1) ∷ ("pay", 2) ∷ []) "no stock",
)
unfolding program
compensates = refl

execute-Ended_example :
    ((results : List (String × ℕ)) × (last : List (String × ℕ)) × Ran order [] results last
      × (Scheduler.execute log order [] [] ≡ ([], success last)))
    ⊎ ((f : Failed order []) × Rolled log f.error f.after
          (reverse f.results)
          []
          (Scheduler.execute log order [] []))
execute-Ended_example = execute-Ended log order [] []

started : Reachable 2 (start 2 new_workers)
started = next initial starts

start_acquires : (start 2 new_workers).pending_acquires ≡ 2
unfolding program
start_acquires = refl

one_working : Reachable 2 (acquired 2 (start 2 new_workers))
one_working = next started (acquires (rw start_acquires (omega arith)))

Reachable-IsSound_example : IsSound 2 (acquired 2 (start 2 new_workers))
Reachable-IsSound_example = Reachable-IsSound 2 (acquired 2 (start 2 new_workers)) one_working

abbrev mail_job : Job ℕ
mail_job = record {
  id = "a";
  queue = "mail";
  name = "send";
  payload = 7;
  status = running;
  priority = 0;
  run_at = 100;
  attempts = 2;
  max_attempts = 3;
  error = none;
  locked_at = some 230;
  lock_expires_at = some 230;
  trace_context = none;
}

abbrev handlers : List (String × (ℕ → Outcome (Unit {0})))
handlers = ("send", λ n. threw (some "timeout")) ∷ []

-- The last attempt fails, so the job goes to the dead letters.
buried :
    (execute_job memory_storage
      (some "mail:dlq")
      5000
      300
      handlers
      mail_job
      (("a", mail_job) ∷ [])).0
    ≡ ("a", Scheduler.dlq_job "mail:dlq" "timeout" mail_job) ∷ []
unfolding program
buried = refl

mail_job_stored : JsMap.get "a" (("a", mail_job) ∷ []) ≡ some mail_job
unfolding JsMap.get
mail_job_stored = refl

execute_job-IsSettled_example :
    (j : Job ℕ) × (JsMap.get "a"
        (execute_job memory_storage
          (some "mail:dlq")
          5000
          300
          handlers
          mail_job
          (("a", mail_job) ∷ [])).0
      ≡ some j)
    × IsSettled "mail:dlq" 5000 300 (some (threw (some "timeout"))) mail_job mail_job j
unfolding program
execute_job-IsSettled_example =
    execute_job-IsSettled "mail:dlq" 5000 300 handlers mail_job mail_job (("a", mail_job) ∷ []) refl
      mail_job_stored (refl, refl, refl)

-- The lock of a task that is to run each second is held for five.
held : List (String × ℕ)
held = (acquire_local_cron_lock 10000 "1" 5000 []).0

cron_lock_apart_example : 10000 + 5000 ≤ 15000
unfolding acquire_local_cron_lock run_tries held program
cron_lock_apart_example =
    cron_lock_apart 10000 15000 "1" 5000 5000 ((11000, "1", 5000) ∷ (12000, "60", 5000) ∷ []) []
      held refl refl
