-- ===== src/Jobs.antt =====
-- The in-memory adapter of packages/jobs/src/storage.ts: `Job`, `MemoryJobStorage` and its methods. The
-- storage is the map of the jobs by id; each method takes the time that `Date.now()` gives as an argument
-- and returns the new map. A payload is of any type; times, priorities and attempts are natural numbers.
pub mod Choosing
pub mod Storing
pub mod Purging
pub mod Calls
pub mod Acquiring
pub mod Attempts
use axiomify.Base.{
  ℕ, suc, ◌+◌, ◌-◌, String, Bool, true, false, ◌&&◌, ◌||◌, Option, none, some, List, [], ◌∷◌,
  if◌then◌else◌, ltb, leb, ◌===◌,
}
use axiomify.JsMap

pub data Status : Type 0 where
  pending : Status
  running : Status
  completed : Status
  failed : Status

pub record Job (P : Type 0) : Type 0 where
  pub id : String
  pub queue : String
  pub name : String
  pub payload : P
  pub status : Status
  pub priority : ℕ
  pub run_at : ℕ
  pub attempts : ℕ
  pub max_attempts : ℕ
  pub error : Option String
  pub locked_at : Option ℕ
  pub lock_expires_at : Option ℕ
  pub trace_context : Option (List (String × String))

abbrev pub is_pending : Status → Bool
is_pending pending = true
is_pending running = false
is_pending completed = false
is_pending failed = false

-- `completed` or `failed`.
abbrev pub is_finished : Status → Bool
is_finished pending = false
is_finished running = false
is_finished completed = true
is_finished failed = true

module _ {P : Type 0} where
  -- `Array.from(this.jobs.values())`.
  unfoldable pub values : List (String × Job P) → List (Job P)
  values [] = []
  values ((_, j) ∷ m) = j ∷ values m

  unfoldable pub filter : (Job P → Bool) → List (Job P) → List (Job P)
  filter p [] = []
  filter p (j ∷ js) = let rest = filter p js in if p j then j ∷ rest else rest

  -- The stable sort by descending priority.
  unfoldable pub insert : Job P → List (Job P) → List (Job P)
  insert j [] = j ∷ []
  insert j (k ∷ ks) =
      let rest = insert j ks in if leb k.priority j.priority then j ∷ k ∷ ks else k ∷ rest

  unfoldable pub sort : List (Job P) → List (Job P)
  sort [] = []
  sort (j ∷ js) = insert j (sort js)

  unfoldable pub is_candidate : String → ℕ → Job P → Bool
  is_candidate queue now j = (j.queue === queue) && is_pending j.status && leb j.run_at now

  abbrev pub head : List (Job P) → Option (Job P)
  head [] = none
  head (j ∷ js) = some j

  unfoldable pub candidates : String → ℕ → List (String × Job P) → List (Job P)
  candidates queue now jobs = sort (filter (is_candidate queue now) (values jobs))

  unfoldable pub save : Job P → List (String × Job P) → List (String × Job P)
  save job jobs = JsMap.set job.id job jobs

  unfoldable pub lock : ℕ → Job P → Job P
  lock expires job = record job {
    status = running;
    lock_expires_at = some expires;
    locked_at = some expires;
  }

  unfoldable pub acquire_next :
      ℕ → String → ℕ → List (String × Job P) → List (String × Job P) × Option (Job P)
  acquire_next now queue duration jobs = elim (head (candidates queue now jobs)) [
    | none ↦ (jobs, none)
    | some job ↦
        (JsMap.set job.id (lock (now + duration) job) jobs, some (lock (now + duration) job))
  ]

  unfoldable pub complete : String → List (String × Job P) → List (String × Job P)
  complete id jobs = elim (JsMap.get id jobs) [
    | none ↦ jobs
    | some job ↦ JsMap.set id (record job { status = completed }) jobs
  ]

  -- The job after one more attempt that failed, to be retried or given up.
  unfoldable pub failed_job : ℕ → String → Option ℕ → Job P → Job P
  failed_job now error none job = record job {
    attempts = suc job.attempts;
    error = some error;
    status = failed;
  }
  failed_job now error (some retry) job =
      if ltb (suc job.attempts) job.max_attempts
      then record job {
        attempts = suc job.attempts;
        error = some error;
        status = pending;
        run_at = now + retry;
      }
      else record job { attempts = suc job.attempts; error = some error; status = failed }

  unfoldable pub fail :
      ℕ → String → String → Option ℕ → List (String × Job P) → List (String × Job P)
  fail now id error retry jobs = elim (JsMap.get id jobs) [
    | none ↦ jobs
    | some job ↦ JsMap.set id (failed_job now error retry job) jobs
  ]

  -- An absent and an empty queue name both ask for the whole list.
  unfoldable pub get_jobs : Option String → List (String × Job P) → List (Job P)
  get_jobs none jobs = values jobs
  get_jobs (some queue) jobs =
      let chosen = filter (λ j. j.queue === queue) (values jobs) in
      if queue === "" then values jobs else chosen

  unfoldable pub clear : List (String × Job P) → List (String × Job P)
  clear jobs = []

  -- `now - job.runAt >= olderThanMs`, where the difference may be negative.
  unfoldable pub is_purged : ℕ → Option ℕ → Job P → Bool
  is_purged now none j = is_finished j.status
  is_purged now (some older) j = is_finished j.status && leb (j.run_at + older) now

  -- One round of the loop over the entries, on the jobs and the count so far.
  unfoldable pub purge_one :
      ℕ → Option ℕ → String → Job P → List (String × Job P) × ℕ → List (String × Job P) × ℕ
  purge_one now older id j (jobs, removed) =
      if is_purged now older j then (JsMap.delete id jobs, suc removed) else (jobs, removed)

  unfoldable pub purge_loop :
      ℕ → Option ℕ → List (String × Job P) → List (String × Job P) × ℕ → List (String × Job P) × ℕ
  purge_loop now older [] state = state
  purge_loop now older ((id, j) ∷ more) state =
      purge_loop now older more (purge_one now older id j state)

  unfoldable pub purge : ℕ → Option ℕ → List (String × Job P) → List (String × Job P) × ℕ
  purge now older jobs = purge_loop now older jobs (jobs, 0)
