-- ===== src/Scheduler.antt =====
-- packages/jobs/src/scheduler.ts: `enqueue` and `SagaCoordinator.execute`, over any storage; the worker
-- slots of `tick` are in Workers. The state of a storage and of the random ids is one type S; `save` tells
-- whether its promise was fulfilled.
pub mod Cron
pub mod Compensating
pub mod Workers
pub mod Failing
pub mod CronLock
use axiomify.Base.{
  suc, leb, ℕ, ◌+◌, String, Bool, true, false, Option, none, some, List, [], ◌∷◌, if◌then◌else◌,
  ◌===◌,
}
use mathlib.Core.Option
use Prim.Native.String
use axiomify.JsMap
use axiomify.Jobs
use axiomify.Jobs.{Job, pending, failed}

pub record EnqueueOptions : Type 0 where
  pub priority : Option ℕ
  pub delay_ms : Option ℕ
  pub attempts : Option ℕ
  pub retry_delay_ms : Option ℕ

-- An empty carrier is left out of the job.
abbrev carried : List (String × String) → Option (List (String × String))
carried [] = none
carried (x ∷ xs) = some (x ∷ xs)

module _ {P S : Type 0} (save : Job P → S → S × Bool) (random_uuid : S → S × String) where
  -- The id of the saved job, or nothing where the call throws.
  unfoldable pub enqueue :
      String → List (String × String) → ℕ → String → P → EnqueueOptions → S → S × Option String
  enqueue queue carrier now name payload o s =
      let (s1, id) = random_uuid s in
      let job : Job P = record {
        id = id;
        queue = queue;
        name = name;
        payload = payload;
        status = pending;
        priority = Option.get_or o.priority 0;
        run_at = now + Option.get_or o.delay_ms 0;
        attempts = 0;
        max_attempts = Option.get_or o.attempts 3;
        error = none;
        locked_at = none;
        lock_expires_at = none;
        trace_context = carried carrier;
      } in
      let (s2, saved) = save job s1 in
      if name === "" then (s, none) else (s2, if saved then some id else none)

-- What a step of user code ends in: a value, or what it throws, of which the code reads `err.message`. Where
-- null or undefined is thrown there is none, and reading it throws a TypeError in the handler of the error.
pub data Outcome (V : Type 0) : Type 0 where
  returned : V → Outcome V
  threw : Option String → Outcome V

-- The function that compensates is called by the job that is enqueued under the step's name.
pub record SagaStep (V : Type 0) : Type 0 where
  pub name : String
  -- The code may change the context object that it is given.
  pub run : List (String × V) → List (String × V) × Outcome V

-- The payload of a compensation job.
pub record Compensation (V : Type 0) : Type 0 where
  pub context : List (String × V)
  pub result : V

pub data SagaResult (V : Type 0) : Type 0 where
  success : List (String × V) → SagaResult V
  failure : List (String × V) → String → SagaResult V
  -- The promise of the saga is rejected.
  rejected : SagaResult V

module _ {V S : Type 0} (enqueue : String → Compensation V → S → S × Option String) where
  -- The loop from the last executed step to the first; a job that cannot be enqueued is passed over.
  unfoldable pub compensate : List (String × V) → List (String × V) → S → S
  compensate context [] s = s
  compensate context ((name, result) ∷ executed) s =
      let payload : Compensation V = record { context = context; result = result } in
      compensate context executed (enqueue (String.◌++◌ "compensate:" name) payload s).0

  -- The executed steps and their results are kept with the last one first.
  unfoldable pub execute_loop :
      List (SagaStep V) → List (String × V) → List (String × V) → S → S × SagaResult V
  execute_loop [] context executed s = (s, success context)
  execute_loop (step ∷ steps) context executed s =
      let (after, outcome) = step.run context in
      elim outcome [
        | returned v ↦
            execute_loop steps (JsMap.set step.name v after) ((step.name, v) ∷ executed) s
        | threw message ↦ elim message [
          | none ↦ (s, rejected)
          | some e ↦ (compensate after executed s, failure after e)
        ]
      ]

  unfoldable pub execute : List (SagaStep V) → List (String × V) → S → S × SagaResult V
  execute steps context s = execute_loop steps context [] s

-- What a scheduler calls of a storage, besides `acquireNext`; each call takes the time.
pub record JobStorage (P S : Type 0) : Type 0 where
  pub save : Job P → S → S
  pub complete : String → S → S
  pub fail : ℕ → String → String → Option ℕ → S → S

unfoldable pub memory_storage : {P : Type 0} → JobStorage P (List (String × Job P))
memory_storage = record { save = Jobs.save; complete = Jobs.complete; fail = Jobs.fail }

pub data Event (P : Type 0) : Type 0 where
  start_event : Job P → Event P
  completed_event : Job P → Event P
  dlq_event : Job P → String → Event P
  failed_event : Job P → String → Event P
  retry_event : Job P → String → Event P

-- `dlqQueue` where it is neither absent nor empty.
abbrev pub dead_letters : Option String → Option String
dead_letters none = none
dead_letters (some queue) = if queue === "" then none else some queue

unfoldable pub dlq_job : String → String → {P : Type 0} → Job P → Job P
dlq_job queue error job = record job {
  attempts = suc job.attempts;
  status = failed;
  error = some error;
  queue = queue;
  locked_at = none;
  lock_expires_at = none;
}

unfoldable pub no_handler : String → String
no_handler name = String.◌++◌ "No handler registered for job \"" (String.◌++◌ name "\"")

module _ {P S : Type 0} (storage : JobStorage P S) (dlq_queue : Option String)
    (retry_delay now : ℕ) where
  unfoldable pub handle_job_failure : Job P → String → S → S × List (Event P)
  handle_job_failure job error s =
      let last : S × List (Event P) = elim (dead_letters dlq_queue) [
        | some queue ↦ (
          storage.save (dlq_job queue error job) s,
          dlq_event (dlq_job queue error job) error ∷ failed_event job error ∷ [],
        )
        | none ↦ (storage.fail now job.id error none s, failed_event job error ∷ [])
      ] in
      if leb job.max_attempts (suc job.attempts)
      then last
      else (storage.fail now job.id error (some retry_delay) s, retry_event job error ∷ [])

  -- What the end of a handler leads to; null or undefined rejects the promise of `executeJob`.
  unfoldable pub conclude : Job P → Outcome (Unit {0}) → S → S × List (Event P)
  conclude job (returned v) s = (storage.complete job.id s, completed_event job ∷ [])
  conclude job (threw none) s = (s, [])
  conclude job (threw (some error)) s = handle_job_failure job error s

  unfoldable pub call_handler : Option (P → Outcome (Unit {0})) → Job P → S → S × List (Event P)
  call_handler none job s = handle_job_failure job (no_handler job.name) s
  call_handler (some handler) job s = conclude job (handler job.payload) s

  -- A timeout ends a handler with an error as well; the storage and the events.
  unfoldable pub execute_job :
      List (String × (P → Outcome (Unit {0}))) → Job P → S → S × List (Event P)
  execute_job handlers job s =
      let (after, events) = call_handler (JsMap.get job.name handlers) job s in
      (after, start_event job ∷ events)
