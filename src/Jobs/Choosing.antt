-- ===== src/Jobs/Choosing.antt =====
-- The choice of a job in packages/jobs/src/storage.ts: what `filter`, `sort` and `[0]` select.
use axiomify.Base.{
  ℕ, ◌≤◌, ◌<◌, String, true, false, Option, none, some, List, [], ◌∷◌, ◌++◌, if◌then◌else◌, leb,
  ◌≡◌, ◌⊎◌, inl, inr, refl, ap, arith, All, Bool-cases, Option-cases, leb→le,
}
use axiomify.Jobs.{Job, is_candidate, candidates, head, sort, insert, filter, values}

module _ {P : Type 0} (queue : String) (now : ℕ) where
  -- No candidate, or one of lower priority.
  abbrev pub IsBelow : ℕ → String × Job P → Type 0
  IsBelow n (_, j) = (is_candidate queue now j ≡ false) ⊎ (j.priority < n)

  -- No candidate, or one whose priority is not higher.
  abbrev pub IsUpTo : ℕ → String × Job P → Type 0
  IsUpTo n (_, j) = (is_candidate queue now j ≡ false) ⊎ (j.priority ≤ n)

  -- The entry holds a candidate, those before it are of lower priority and none is of higher.
  pub record FirstHighest (jobs : List (String × Job P)) (job : Job P) : Type 0 where
    pub before : List (String × Job P)
    pub key : String
    pub after : List (String × Job P)
    pub split : jobs ≡ before ++ (key, job) ∷ after
    pub ready : is_candidate queue now job ≡ true
    pub earlier : All (IsBelow job.priority) before
    pub highest : All (IsUpTo job.priority) jobs

  IsUpTo-raise :
      (n k : ℕ) (jobs : List (String × Job P)) → n ≤ k → All (IsUpTo n) jobs → All (IsUpTo k) jobs
  IsUpTo-raise n k [] h a = tt
  IsUpTo-raise n k ((i, j) ∷ jobs) h (inl e, a) = (inl e, IsUpTo-raise n k jobs h a)
  IsUpTo-raise n k ((i, j) ∷ jobs) h (inr e, a) = (inr (omega arith), IsUpTo-raise n k jobs h a)

  IsUpTo-none :
      (n : ℕ) (jobs : List (String × Job P))
      → All (λ e. is_candidate queue now e.1 ≡ false) jobs
      → All (IsUpTo n) jobs
  IsUpTo-none n [] a = tt
  IsUpTo-none n ((i, j) ∷ jobs) (e, a) = (inl e, IsUpTo-none n jobs a)

  -- The higher of a job and an earlier choice among the later ones; the job where they tie.
  abbrev pick : Job P → Option (Job P) → Option (Job P)
  pick j none = some j
  pick j (some k) = if leb k.priority j.priority then some j else some k

  head-insert : (j : Job P) (js : List (Job P)) → head (insert j js) ≡ pick j (head js)
  unfolding insert
  head-insert j [] = refl
  head-insert j (k ∷ js) = ground arith

  head-candidates :
      (k : String) (j : Job P) (jobs : List (String × Job P))
      → head (candidates queue now ((k, j) ∷ jobs)) ≡ (
          if is_candidate queue now j
          then pick j (head (candidates queue now jobs))
          else head (candidates queue now jobs))
  unfolding candidates filter values sort
  head-candidates k j jobs =
      ground (arith, head-insert j (sort (filter (is_candidate queue now) (values jobs))))

  pub head-candidates-none :
      (jobs : List (String × Job P))
      → head (candidates queue now jobs) ≡ none
      → All (λ e. is_candidate queue now e.1 ≡ false) jobs
  head-candidates-none [] h = tt
  head-candidates-none ((k, j) ∷ jobs) h =
      ground (arith, head-candidates k j jobs, head-candidates-none jobs)

  FirstHighest-later :
      (k : String) (j job : Job P) (jobs : List (String × Job P))
      → IsBelow job.priority (k, j)
      → IsUpTo job.priority (k, j)
      → FirstHighest jobs job
      → FirstHighest ((k, j) ∷ jobs) job
  FirstHighest-later k j job jobs b u f = record {
    before = (k, j) ∷ f.before;
    key = f.key;
    after = f.after;
    split = ap (λ m. (k, j) ∷ m) f.split;
    ready = f.ready;
    earlier = (b, f.earlier);
    highest = (u, f.highest);
  }

  FirstHighest-here :
      (k : String) (j : Job P) (jobs : List (String × Job P))
      → is_candidate queue now j ≡ true
      → All (IsUpTo j.priority) jobs
      → FirstHighest ((k, j) ∷ jobs) j
  FirstHighest-here k j jobs e a = record {
    before = [];
    key = k;
    after = jobs;
    split = refl;
    ready = e;
    earlier = tt;
    highest = (inr (omega arith), a);
  }

  head-candidates_nil : head (candidates {P = P} queue now []) ≡ none
  unfolding candidates filter values sort
  head-candidates_nil = refl

  pub head-candidates-FirstHighest :
      (jobs : List (String × Job P)) (job : Job P)
      → head (candidates queue now jobs) ≡ some job
      → FirstHighest jobs job
  head-candidates-FirstHighest [] job h = absurd (ground (arith, head-candidates_nil))
  head-candidates-FirstHighest ((k, j) ∷ jobs) job h =
      let c = head-candidates k j jobs in
      elim (Bool-cases (is_candidate queue now j)) [
        | inr e ↦
            FirstHighest-later k j job jobs (inl e) (inl e)
              (head-candidates-FirstHighest jobs job (ground arith))
        | inl e ↦ elim (Option-cases (head (candidates queue now jobs))) [
          | inl f ↦
              let q : job ≡ j = ground arith in
              rw q (
                FirstHighest-here k j jobs e
                  (IsUpTo-none j.priority jobs (head-candidates-none jobs f)))
          | inr (i, f) ↦
              let found = head-candidates-FirstHighest jobs i f in
              elim (Bool-cases (leb i.priority j.priority)) [
                | inl g ↦
                    let q : job ≡ j = ground arith in
                    rw q (
                      FirstHighest-here k j jobs e (
                        IsUpTo-raise i.priority j.priority jobs (leb→le i.priority j.priority g)
                          found.highest))
                | inr g ↦
                    let q : job ≡ i = ground arith in
                    rw q (
                      FirstHighest-later k j i jobs (inr (ground arith)) (inr (ground arith)) found)
              ]
        ]
      ]
