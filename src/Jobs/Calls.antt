-- ===== src/Jobs/Calls.antt =====
-- Sequences of calls of the in-memory job storage of packages/jobs/src/storage.ts, in any order and at
-- any times, and how often they hand out one job.
use axiomify.Base.{
  ℕ, ◌+◌, String, Bool, false, Option, none, some, List, [], ◌∷◌, if◌then◌else◌, ◌===◌, ◌≡◌, inl,
  inr, refl, sym, arith, Option-cases,
}
use axiomify.JsMap
use axiomify.JsMap.{IsDistinct, keep}
use axiomify.JsMap.Laws.{set-IsDistinct, keep-IsDistinct}
use axiomify.Jobs.{
  completed, Job, candidates, head, lock, acquire_next, purge, failed_job, fail, complete, save,
  clear,
}
use axiomify.Jobs.Storing.{IsKeyed, set-IsKeyed, get-IsKeyed, acquire_next-some, acquire_next-none}
use axiomify.Jobs.Purging.{purge-kept}

pub data Call (P : Type 0) : Type 0 where
  save_call : Job P → Call P
  acquire_call : ℕ → String → ℕ → Call P
  complete_call : String → Call P
  fail_call : ℕ → String → String → Option ℕ → Call P
  purge_call : ℕ → Option ℕ → Call P
  clear_call : Call P

module _ {P : Type 0} where
  -- The jobs after a call, and the job that it hands out.
  unfoldable pub apply : Call P → List (String × Job P) → List (String × Job P) × Option (Job P)
  apply (save_call job) jobs = (save job jobs, none)
  apply (acquire_call now queue duration) jobs = acquire_next now queue duration jobs
  apply (complete_call id) jobs = (complete id jobs, none)
  apply (fail_call now id error retry) jobs = (fail now id error retry jobs, none)
  apply (purge_call now older) jobs = ((purge now older jobs).0, none)
  apply clear_call jobs = (clear jobs, none)

  abbrev pub handed : String → Option (Job P) → ℕ
  handed id none = 0
  handed id (some job) = if job.id === id then 1 else 0

  -- How often the calls hand out the job of the id.
  unfoldable pub acquisitions : String → List (Call P) → List (String × Job P) → ℕ
  acquisitions id [] jobs = 0
  acquisitions id (c ∷ calls) jobs =
      let (after, job) = apply c jobs in handed id job + acquisitions id calls after

  abbrev pub saves : String → Call P → Bool
  saves id (save_call job) = job.id === id
  saves id (acquire_call now queue duration) = false
  saves id (complete_call done) = false
  saves id (fail_call now bad error retry) = false
  saves id (purge_call now older) = false
  saves id clear_call = false

  abbrev pub fails : String → Call P → Bool
  fails id (save_call job) = false
  fails id (acquire_call now queue duration) = false
  fails id (complete_call done) = false
  fails id (fail_call now bad error retry) = bad === id
  fails id (purge_call now older) = false
  fails id clear_call = false

  pub complete-some :
      (id : String) (job : Job P) (jobs : List (String × Job P))
      → JsMap.get id jobs ≡ some job
      → complete id jobs ≡ JsMap.set id (record job { status = completed }) jobs
  unfolding complete
  complete-some id job jobs h = ground arith

  pub complete-none :
      (id : String) (jobs : List (String × Job P))
      → JsMap.get id jobs ≡ none
      → complete id jobs ≡ jobs
  unfolding complete
  complete-none id jobs h = ground arith

  pub fail-some :
      (now : ℕ) (id error : String) (retry : Option ℕ) (job : Job P) (jobs : List (String × Job P))
      → JsMap.get id jobs ≡ some job
      → fail now id error retry jobs ≡ JsMap.set id (failed_job now error retry job) jobs
  unfolding fail
  fail-some now id error retry job jobs h = ground arith

  pub fail-none :
      (now : ℕ) (id error : String) (retry : Option ℕ) (jobs : List (String × Job P))
      → JsMap.get id jobs ≡ none
      → fail now id error retry jobs ≡ jobs
  unfolding fail
  fail-none now id error retry jobs h = ground arith

  keep-IsKeyed :
      (p : String → Job P → Bool) (jobs : List (String × Job P))
      → IsKeyed jobs
      → IsKeyed (keep p jobs)
  unfolding keep
  keep-IsKeyed p [] w = tt
  keep-IsKeyed p ((i, v) ∷ jobs) w = ground (arith, keep-IsKeyed p jobs w.1)

  abbrev pub IsFiled : List (String × Job P) → Type 0
  IsFiled jobs = IsDistinct jobs × IsKeyed jobs

  pub set-IsFiled :
      (id : String) (job : Job P) (jobs : List (String × Job P))
      → id ≡ job.id
      → IsFiled jobs
      → IsFiled (JsMap.set id job jobs)
  set-IsFiled id job jobs e (d, w) = (set-IsDistinct id job jobs d, set-IsKeyed id job jobs e w)

  failed_job-id :
      (now : ℕ) (error : String) (retry : Option ℕ) (job : Job P)
      → (failed_job now error retry job).id ≡ job.id
  unfolding failed_job
  failed_job-id now error none job = refl
  failed_job-id now error (some retry) job = ground arith

-- Every call keeps each job under its own id, and no id twice.
pub apply-IsFiled :
    {P : Type 0} (c : Call P) (jobs : List (String × Job P))
    → IsFiled jobs
    → IsFiled (apply c jobs).0
unfolding apply save clear lock
apply-IsFiled (save_call job) jobs f = set-IsFiled job.id job jobs refl f
apply-IsFiled (acquire_call now queue duration) jobs f =
    elim (Option-cases (head (candidates queue now jobs))) [
      | inl e ↦ rw (acquire_next-none now queue duration jobs e) f
      | inr (c, e) ↦
          rw (acquire_next-some now queue duration jobs c e)
            (set-IsFiled c.id (lock (now + duration) c) jobs refl f)
    ]
apply-IsFiled (complete_call id) jobs f = elim (Option-cases (JsMap.get id jobs)) [
  | inl e ↦ rw (complete-none id jobs e) f
  | inr (j, e) ↦
      rw (complete-some id j jobs e) (
        set-IsFiled id (record j { status = completed }) jobs (sym (get-IsKeyed id j jobs f.1 e)) f)
]
apply-IsFiled (fail_call now id error retry) jobs f = elim (Option-cases (JsMap.get id jobs)) [
  | inl e ↦ rw (fail-none now id error retry jobs e) f
  | inr (j, e) ↦
      let k = failed_job-id now error retry j in
      let g = get-IsKeyed id j jobs f.1 e in
      rw (fail-some now id error retry j jobs e)
        (set-IsFiled id (failed_job now error retry j) jobs (cc (k, g)) f)
]
apply-IsFiled (purge_call now older) jobs f =
    let (k, n) =
      purge-kept now older jobs (purge now older jobs).0 (purge now older jobs).1 f.0 refl in
    rw k (keep-IsDistinct _ jobs f.0, keep-IsKeyed _ jobs f.1)
apply-IsFiled clear_call jobs f = (tt, tt)
