-- ===== src/Jobs/Acquiring.antt =====
-- How often a sequence of calls of the in-memory job storage of packages/jobs/src/storage.ts hands out
-- one job: at most once between two failures, and at most as often as its attempts allow.
use axiomify.Base.{
  ℕ, suc, ◌+◌, ◌≤◌, String, true, false, not, Option, none, some, List, [], ◌∷◌, ◌++◌,
  if◌then◌else◌, ◌===◌, ◌≡◌, ◌⊎◌, inl, inr, refl, sym, arith, All, Option-cases, eq_iff, ===_refl,
}
use axiomify.JsMap
use axiomify.JsMap.{IsDistinct, keep}
use axiomify.JsMap.Laws.{get-set, get-keep, get-append}
use axiomify.Jobs.{
  Job, completed, is_pending, is_candidate, candidates, head, lock, acquire_next, purge, is_purged,
  failed_job, fail, complete, save, clear,
}
use axiomify.Jobs.Choosing.{head-candidates-FirstHighest}
use axiomify.Jobs.Storing.{IsKeyed-middle, acquire_next-some, acquire_next-none}
use axiomify.Jobs.Purging.{purge-kept}
use axiomify.Jobs.Calls.{
  Call, save_call, acquire_call, complete_call, fail_call, purge_call, clear_call, apply,
  acquisitions, handed, saves, IsFiled, apply-IsFiled, complete-some, complete-none, fail-some,
  fail-none,
}

module _ {P : Type 0} where
  get-middle :
      (k : String) (v : Job P) (before after : List (String × Job P))
      → IsDistinct (before ++ (k, v) ∷ after)
      → JsMap.get k (before ++ (k, v) ∷ after) ≡ some v
  unfolding JsMap.get
  get-middle k v [] after d = ground (arith, ===_refl k)
  get-middle k v ((i, u) ∷ before) after d =
      ground
        (arith, eq_iff i k, get-middle k v before after d.1, get-append i before ((k, v) ∷ after))

  -- The chosen job is the one that the map holds under its id.
  get-candidate :
      (queue : String) (now : ℕ) (jobs : List (String × Job P)) (c : Job P)
      → IsFiled jobs
      → head (candidates queue now jobs) ≡ some c
      → (JsMap.get c.id jobs ≡ some c) × (is_pending c.status ≡ true)
  unfolding is_candidate
  get-candidate queue now jobs c f h =
      let choice = head-candidates-FirstHighest queue now jobs c h in
      let e = IsKeyed-middle choice.before choice.key c choice.after (rw (sym choice.split) f.1) in
      let g = get-middle choice.key c choice.before choice.after (rw (sym choice.split) f.0) in
      let s = choice.split in (cc (e, g, s), ground (arith, choice.ready))

  -- A weight that an acquisition uses up and that completion does not raise.
  module _ (id : String) (w : Job P → ℕ)
      (locks : (j : Job P) (e : ℕ) → is_pending j.status ≡ true → suc (w (lock e j)) ≤ w j)
      (completes : (j : Job P) → w (record j { status = completed }) ≤ w j) where
    abbrev pub weight : List (String × Job P) → ℕ
    weight jobs = elim (JsMap.get id jobs) [ none ↦ 0 | some j ↦ w j ]

    weight-some :
        (jobs : List (String × Job P)) (j : Job P) → JsMap.get id jobs ≡ some j → weight jobs ≡ w j
    weight-some jobs j h = ground arith

    -- Replacing a job whose weight covers the new job's and what is handed out.
    set_step :
        (k : String) (n : ℕ) (u v : Job P) (jobs : List (String × Job P))
        → JsMap.get k jobs ≡ some u
        → n + w v ≤ w u
        → (if k === id then n else 0) + weight (JsMap.set k v jobs) ≤ weight jobs
    set_step k n u v jobs g l = ground (arith, get-set id k v jobs, eq_iff k id)

    acquired_step :
        (c v : Job P) (jobs : List (String × Job P))
        → v.id ≡ c.id
        → JsMap.get c.id jobs ≡ some c
        → suc (w v) ≤ w c
        → handed id (some v) + weight (JsMap.set c.id v jobs) ≤ weight jobs
    acquired_step c v jobs e g l = let s = set_step c.id 1 c v jobs g (omega arith) in ground arith

    acquire_step :
        (now : ℕ) (queue : String) (duration : ℕ) (jobs : List (String × Job P))
        → IsFiled jobs
        → handed id (acquire_next now queue duration jobs).1
            + weight (acquire_next now queue duration jobs).0
          ≤ weight jobs
    unfolding lock
    acquire_step now queue duration jobs f =
        elim (Option-cases (head (candidates queue now jobs))) [
          | inl e ↦ rw (acquire_next-none now queue duration jobs e) (omega arith)
          | inr (c, e) ↦
              let (g, p) = get-candidate queue now jobs c f e in
              rw (acquire_next-some now queue duration jobs c e)
                (acquired_step c (lock (now + duration) c) jobs refl g (locks c (now + duration) p))
        ]

    complete_step :
        (done : String) (jobs : List (String × Job P)) → weight (complete done jobs) ≤ weight jobs
    complete_step done jobs = elim (Option-cases (JsMap.get done jobs)) [
      | inl e ↦ rw (complete-none done jobs e) (omega arith)
      | inr (j, e) ↦
          let s =
            set_step done 0 j (record j { status = completed }) jobs e
              (omega (arith, completes j)) in
          rw (complete-some done j jobs e) (omega arith)
    ]

    fail_step :
        (now : ℕ) (bad error : String) (retry : Option ℕ) (jobs : List (String × Job P))
        → (bad === id ≡ false) ⊎ ((j : Job P) → w (failed_job now error retry j) ≤ w j)
        → weight (fail now bad error retry jobs) ≤ weight jobs
    fail_step now bad error retry jobs fine = elim (Option-cases (JsMap.get bad jobs)) [
      | inl e ↦ rw (fail-none now bad error retry jobs e) (omega arith)
      | inr (j, e) ↦ rw (fail-some now bad error retry j jobs e) (elim fine [
        | inl other ↦ ground (arith, get-set id bad (failed_job now error retry j) jobs)
        | inr lower ↦
            let s =
              set_step bad 0 j (failed_job now error retry j) jobs e (omega (arith, lower j)) in
            omega arith
      ])
    ]

    purge_step :
        (now : ℕ) (older : Option ℕ) (jobs : List (String × Job P))
        → IsFiled jobs
        → weight (purge now older jobs).0 ≤ weight jobs
    purge_step now older jobs f =
        let (k, n) =
          purge-kept now older jobs (purge now older jobs).0 (purge now older jobs).1 f.0 refl in
        rw k (ground (arith, get-keep (λ i j. not (is_purged now older j)) id jobs f.0))

    -- The call does not save the job, and if it fails it, it does not raise the weight.
    abbrev pub Spares : Call P → Type 0
    Spares (fail_call now bad error retry) =
        (bad === id ≡ false) ⊎ ((j : Job P) → w (failed_job now error retry j) ≤ w j)
    Spares c = saves id c ≡ false

    apply_step :
        (c : Call P) (jobs : List (String × Job P))
        → IsFiled jobs
        → Spares c
        → handed id (apply c jobs).1 + weight (apply c jobs).0 ≤ weight jobs
    unfolding apply save clear JsMap.get
    apply_step (save_call job) jobs f s = ground (arith, get-set id job.id job jobs)
    apply_step (acquire_call now queue duration) jobs f s = acquire_step now queue duration jobs f
    apply_step (complete_call done) jobs f s = omega (arith, complete_step done jobs)
    apply_step (fail_call now bad error retry) jobs f s =
        omega (arith, fail_step now bad error retry jobs s)
    apply_step (purge_call now older) jobs f s = omega (arith, purge_step now older jobs f)
    apply_step clear_call jobs f s = omega arith

    pub acquisitions-weight :
        (calls : List (Call P)) (jobs : List (String × Job P))
        → IsFiled jobs
        → All Spares calls
        → acquisitions id calls jobs ≤ weight jobs
    unfolding acquisitions
    acquisitions-weight [] jobs f s = omega arith
    acquisitions-weight (c ∷ calls) jobs f (s, ss) = omega (
      arith,
      apply_step c jobs f s,
      acquisitions-weight calls (apply c jobs).0 (apply-IsFiled c jobs f) ss,
    )
