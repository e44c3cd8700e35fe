-- ===== src/Jobs/Storing.antt =====
-- The in-memory job storage of packages/jobs/src/storage.ts: jobs stay filed under their own id, and what
-- one call of `acquireNext` or `purge` does to the map.
use axiomify.Base.{
  refl, le→leb, ◌<◌, ◌≤◌, ===_refl, ◌⊎◌, true, ℕ, ◌+◌, String, false, none, some, List, [], ◌∷◌,
  ◌++◌, ◌≡◌, inl, inr, sym, arith, All, Option-cases, eq_iff,
}
use axiomify.JsMap
use axiomify.JsMap.{IsDistinct, keep}
use axiomify.JsMap.Laws.{set-append}
use axiomify.Jobs.{
  completed, failed, running, is_pending, pending, Status, Job, is_candidate, candidates, head,
  lock, acquire_next,
}
use axiomify.Jobs.Choosing.{
  IsUpTo, IsBelow, FirstHighest, head-candidates-FirstHighest, head-candidates-none,
}

pending_lem : (t : Status) → is_pending t ≡ true → t ≡ pending
pending_lem pending h = refl
pending_lem running h = absurd (ground arith)
pending_lem completed h = absurd (ground arith)
pending_lem failed h = absurd (ground arith)

module _ {P : Type 0} where
  -- Every job is filed under its own id.
  abbrev pub IsKeyed : List (String × Job P) → Type 0
  IsKeyed [] = Unit
  IsKeyed ((k, j) ∷ jobs) = (k ≡ j.id) × IsKeyed jobs

  pub get-IsKeyed :
      (k : String) (j : Job P) (jobs : List (String × Job P))
      → IsKeyed jobs
      → JsMap.get k jobs ≡ some j
      → j.id ≡ k
  unfolding JsMap.get
  get-IsKeyed k j [] w h = absurd (ground arith)
  get-IsKeyed k j ((i, v) ∷ jobs) (e, w) h = ground (arith, eq_iff i k, get-IsKeyed k j jobs w)

  pub set-IsKeyed :
      (k : String) (j : Job P) (jobs : List (String × Job P))
      → k ≡ j.id
      → IsKeyed jobs
      → IsKeyed (JsMap.set k j jobs)
  unfolding JsMap.set
  set-IsKeyed k j [] e w = (e, tt)
  set-IsKeyed k j ((i, v) ∷ jobs) e w = ground (arith, eq_iff i k, set-IsKeyed k j jobs e w.1)

  pub delete-IsKeyed :
      (k : String) (jobs : List (String × Job P)) → IsKeyed jobs → IsKeyed (JsMap.delete k jobs)
  unfolding JsMap.delete
  delete-IsKeyed k [] w = tt
  delete-IsKeyed k ((i, v) ∷ jobs) w = ground (arith, delete-IsKeyed k jobs w.1)

  pub IsKeyed-middle :
      (before : List (String × Job P)) (k : String) (j : Job P) (after : List (String × Job P))
      → IsKeyed (before ++ (k, j) ∷ after)
      → k ≡ j.id
  IsKeyed-middle [] k j after w = w.0
  IsKeyed-middle (x ∷ before) k j after w = IsKeyed-middle before k j after w.1

  set-split :
      (i k : String) (u v : Job P) (before after jobs : List (String × Job P))
      → k ≡ i
      → jobs ≡ before ++ (k, v) ∷ after
      → IsDistinct jobs
      → JsMap.set i u jobs ≡ before ++ (k, u) ∷ after
  set-split i k u v before after jobs e s d =
      let a = set-append k u v before after (rw (sym s) d) in rw (sym e, s) a

  module _ (now : ℕ) (queue : String) where
    -- The job waits in the queue and is due.
    abbrev pub IsDue : Job P → Type 0
    IsDue j = (j.queue ≡ queue) × (j.status ≡ pending) × (j.run_at ≤ now)

    candidate_due : (j : Job P) → is_candidate queue now j ≡ true → IsDue j
    unfolding is_candidate
    candidate_due j h =
        let e = (eq_iff j.queue queue).0 in let p = pending_lem j.status in ground (arith, e, p)

    due_candidate : (j : Job P) → IsDue j → is_candidate queue now j ≡ true
    unfolding is_candidate
    due_candidate j (e, p, l) = rw (e, p, ===_refl queue, le→leb j.run_at now l) refl

    below_due :
        (n : ℕ) (js : List (String × Job P))
        → All (IsBelow queue now n) js
        → All (λ e. (¬ IsDue e.1) ⊎ (e.1.priority < n)) js
    below_due n [] a = tt
    below_due n ((k, j) ∷ js) (inl e, a) =
        (inl (λ d. let c = due_candidate j d in absurd (ground arith)), below_due n js a)
    below_due n ((k, j) ∷ js) (inr l, a) = (inr l, below_due n js a)

    up_to_due :
        (n : ℕ) (js : List (String × Job P))
        → All (IsUpTo queue now n) js
        → All (λ e. (¬ IsDue e.1) ⊎ (e.1.priority ≤ n)) js
    up_to_due n [] a = tt
    up_to_due n ((k, j) ∷ js) (inl e, a) =
        (inl (λ d. let c = due_candidate j d in absurd (ground arith)), up_to_due n js a)
    up_to_due n ((k, j) ∷ js) (inr l, a) = (inr l, up_to_due n js a)

    none_due :
        (js : List (String × Job P))
        → All (λ e. is_candidate queue now e.1 ≡ false) js
        → All (λ e. ¬ IsDue e.1) js
    none_due [] a = tt
    none_due ((k, j) ∷ js) (e, a) =
        (λ d. let c = due_candidate j d in absurd (ground arith), none_due js a)

  module _ (now : ℕ) (queue : String) (duration : ℕ) (jobs : List (String × Job P)) where
    pub acquire_next-some :
        (c : Job P)
        → head (candidates queue now jobs) ≡ some c
        → acquire_next now queue duration jobs
          ≡ (JsMap.set c.id (lock (now + duration) c) jobs, some (lock (now + duration) c))
    unfolding acquire_next
    acquire_next-some c h = ground arith

    pub acquire_next-none :
        head (candidates queue now jobs) ≡ none
        → acquire_next now queue duration jobs ≡ (jobs, none)
    unfolding acquire_next
    acquire_next-none h = ground arith

    -- The job that was chosen, and what became of it.
    pub record Acquired (after : List (String × Job P)) (job : Job P) : Type 0 where
      pub chosen : Job P
      pub earlier : List (String × Job P)
      pub key : String
      pub later : List (String × Job P)
      pub split : jobs ≡ earlier ++ (key, chosen) ∷ later
      pub due : IsDue now queue chosen
      pub first : All (λ e. (¬ IsDue now queue e.1) ⊎ (e.1.priority < chosen.priority)) earlier
      pub highest : All (λ e. (¬ IsDue now queue e.1) ⊎ (e.1.priority ≤ chosen.priority)) jobs
      pub locked : job ≡ record chosen {
        status = running;
        locked_at = some (now + duration);
        lock_expires_at = some (now + duration);
      }
      pub stored : after ≡ earlier ++ (key, job) ∷ later

    stored_lem :
        (c : Job P) (f : FirstHighest queue now jobs c)
        → IsDistinct jobs
        → IsKeyed jobs
        → JsMap.set c.id (lock (now + duration) c) jobs
          ≡ f.before ++ (f.key, lock (now + duration) c) ∷ f.after
    stored_lem c f d w =
        let e : f.key ≡ c.id = IsKeyed-middle f.before f.key c f.after (rw (sym f.split) w) in
        set-split c.id f.key (lock (now + duration) c) c f.before f.after jobs e f.split d

-- Let the storage map have distinct keys and every job under its own id. A job that is acquired is a
-- pending one of the queue that is due; every other such job before it in the map has lower priority, and
-- none has higher. It comes back with the status running and locked until the duration is over, otherwise
-- as it was; in the map it takes its place, and no other entry changes.
pub acquire_next-Acquired :
    {P : Type 0} (now : ℕ) (queue : String) (duration : ℕ) (jobs after : List (String × Job P))
    (job : Job P)
    → IsDistinct jobs
    → IsKeyed jobs
    → acquire_next now queue duration jobs ≡ (after, some job)
    → Acquired now queue duration jobs after job
unfolding lock
acquire_next-Acquired now queue duration jobs after job d w h =
    elim (Option-cases (head (candidates queue now jobs))) [
      | inl f ↦ let g = acquire_next-none now queue duration jobs f in absurd (ground arith)
      | inr (c, f) ↦
          let choice = head-candidates-FirstHighest queue now jobs c f in
          let g = acquire_next-some now queue duration jobs c f in
          let q : job ≡ lock (now + duration) c = ground arith in
          let r : after ≡ JsMap.set c.id (lock (now + duration) c) jobs = ground arith in
          let t = stored_lem now queue duration jobs c choice d w in
          record {
            chosen = c;
            earlier = choice.before;
            key = choice.key;
            later = choice.after;
            split = choice.split;
            due = candidate_due now queue c choice.ready;
            first = below_due now queue c.priority choice.before choice.earlier;
            highest = up_to_due now queue c.priority jobs choice.highest;
            locked = q;
            stored = cc (q, r, t);
          }
    ]

-- Where `acquireNext` hands out nothing, the storage holds no pending job of the queue that is due, and
-- nothing changes.
pub acquire_next-nothing :
    {P : Type 0} (now : ℕ) (queue : String) (duration : ℕ) (jobs after : List (String × Job P))
    → acquire_next now queue duration jobs ≡ (after, none)
    → (after ≡ jobs) × All (λ e. ¬ IsDue now queue e.1) jobs
acquire_next-nothing now queue duration jobs after h =
    elim (Option-cases (head (candidates queue now jobs))) [
      | inl f ↦
          let g = acquire_next-none now queue duration jobs f in
          (ground arith, none_due now queue jobs (head-candidates-none queue now jobs f))
      | inr (c, f) ↦ let g = acquire_next-some now queue duration jobs c f in absurd (ground arith)
    ]
